-- ===== src/Analyze/Squash/Upsert.antt =====
-- What an upsert does to what is seen at each path.
use layerlens.Base.{
  ◌≡◌, refl, sym, ap, ◌∙◌, true, false, Option, none, some, List, [], ◌∷◌, ◌++◌, Bytes, arith, ◌&&◌,
  if◌then◌else◌, bytes_eq, bytes_eq_iff, bytes_eq→eq, bytes_eq_refl, Bool-cases, Option-cases, inl,
  inr, ◌⊎◌,
}
use layerlens.Domain.Entry.{Entry, dir, kind_eq}
use layerlens.Domain.Tree.{Attrs, Node, Children, node, no_children, attrs, get_child, put_child}
use layerlens.Analyze.Squash.{
  ensure_dir, ensure_dirs, implicit_dir, dir_attrs, entry_attrs, kept_children, put_entry, is_dir,
}
use layerlens.Analyze.Squash.View.{
  view, has_dir, Position, here, above, below, beside, position, get-put_child,
}

-- Nothing is below what is no directory.
abbrev pub IsTidy : Node → Type 0
IsTidy t =
    (q : List Bytes) (y : Bytes) (r : List Bytes)
    → has_dir (view q t) ≡ false
    → view (q ++ y ∷ r) t ≡ none

-- An ancestor of a written path: the directory that was there, or an implicit one.
abbrev pub dir_or_implicit : Option Attrs → Attrs
dir_or_implicit none = dir_attrs true
dir_or_implicit (some a) = if kind_eq a.kind dir then a else dir_attrs true

-- What is seen at a path after the entry `e` is written at another, from what was seen at both (`old`,
-- `at`) and from how they stand to one another.
abbrev pub upserted : Entry → Option Attrs → Option Attrs → Position → Option Attrs
upserted e old at here = some (entry_attrs e)
upserted e old at above = some (dir_or_implicit old)
upserted e old at below = if kind_eq e.kind dir && has_dir at then old else none
upserted e old at beside = old

view-kept :
    (e : Entry) (n : Bytes) (a : Attrs) (o : Option Node) (z : Bytes) (q : List Bytes)
    → view (z ∷ q) (node n a (kept_children e o)) ≡ (elim o [
      | none ↦ none
      | some c ↦ if kind_eq e.kind dir && is_dir c then view (z ∷ q) c else none
    ])
unfolding view kept_children get_child
view-kept e n a none z q = refl
view-kept e n a (some (node m b ds)) z q = ground arith

pub view-nil : (c : Node) → view [] c ≡ some (attrs c)
unfolding view
view-nil (node n a cs) = refl

view-put_entry :
    (e : Entry) (name n : Bytes) (a : Attrs) (cs : Children) (q : List Bytes)
    → kind_eq a.kind dir ≡ true
    → view q (node n a (put_entry e name cs))
      ≡ upserted e (view q (node n a cs)) (view (name ∷ []) (node n a cs)) (position (name ∷ []) q)
unfolding view put_entry
view-put_entry e name n a cs [] d = ground arith
view-put_entry e name n a cs (y ∷ []) d = ground (
  arith,
  bytes_eq_iff name y,
  get-put_child y name (node name (entry_attrs e) (kept_children e (get_child name cs))) cs,
)
view-put_entry e name n a cs (y ∷ z ∷ q) d = elim (Option-cases (get_child name cs)) [
  | inl o ↦ ground (
    arith,
    o,
    bytes_eq_iff name y,
    get-put_child y name (node name (entry_attrs e) (kept_children e none)) cs,
    view-kept e name (entry_attrs e) none z q,
  )
  | inr (c, o) ↦ ground (
    arith,
    o,
    bytes_eq_iff name y,
    get-put_child y name (node name (entry_attrs e) (kept_children e (some c))) cs,
    view-kept e name (entry_attrs e) (some c) z q,
    view-nil c,
  )
]

pub view-leaf :
    (n : Bytes) (a : Attrs) (y : Bytes) (q : List Bytes)
    → view (y ∷ q) (node n a no_children) ≡ none
unfolding view get_child
view-leaf n a y q = refl

pub IsTidy-leaf : (n : Bytes) (a : Attrs) → IsTidy (node n a no_children)
IsTidy-leaf n a [] y r d = view-leaf n a y r
IsTidy-leaf n a (x ∷ q) y r d = view-leaf n a x (q ++ y ∷ r)

module _ (n : Bytes) (a : Attrs) (cs : Children) (s : Bytes) where
  pub view-child :
      (c : Node) (q : List Bytes) → get_child s cs ≡ some c → view (s ∷ q) (node n a cs) ≡ view q c
  unfolding view
  view-child c q h = rw (h, view) refl

  pub view-no_child : (q : List Bytes) → get_child s cs ≡ none → view (s ∷ q) (node n a cs) ≡ none
  unfolding view
  view-no_child q h = rw (h, view) refl

  pub IsTidy-child : (c : Node) → IsTidy (node n a cs) → get_child s cs ≡ some c → IsTidy c
  IsTidy-child c tidy h q y r d =
      sym (view-child c (q ++ y ∷ r) h) ∙ tidy (s ∷ q) y r (ap has_dir (view-child c q h) ∙ d)

  -- ensureDirs goes on with the directory that is there, or with a fresh one where there is none.
  ensure_dir-cases :
      ((c : Node) × (get_child s cs ≡ some c) × (is_dir c ≡ true) × (ensure_dir s cs ≡ c))
      ⊎ ((has_dir (view (s ∷ []) (node n a cs)) ≡ false) × (ensure_dir s cs ≡ implicit_dir s))
  unfolding ensure_dir
  ensure_dir-cases = elim (Option-cases (get_child s cs)) [
    | inl h ↦ inr (ap has_dir (view-no_child [] h), rw (h, ensure_dir) refl)
    | inr (c, h) ↦ elim (Bool-cases (is_dir c)) [
      | inl d ↦ inl (c, h, d, rw (h, ensure_dir) (rw d refl))
      | inr d ↦
          inr (ap has_dir (view-child c [] h ∙ view-nil c) ∙ d, rw (h, ensure_dir) (rw d refl))
    ]
  ]

  -- Both are tidy directories.
  ensure_dir-IsTidy :
      IsTidy (node n a cs) → (is_dir (ensure_dir s cs) ≡ true) × IsTidy (ensure_dir s cs)
  ensure_dir-IsTidy tidy = elim ensure_dir-cases [
    | inl (c, h, d, e) ↦ (rw e d, rw e (IsTidy-child c tidy h))
    | inr (d, e) ↦ (rw e refl, rw e (IsTidy-leaf s (dir_attrs true)))
  ]

  fresh_same :
      (e : Entry) (u : Bytes) (p q : List Bytes)
      → IsTidy (node n a cs)
      → has_dir (view (s ∷ []) (node n a cs)) ≡ false
      → upserted e (view q (implicit_dir s)) none (position (u ∷ p) q)
        ≡ upserted e (view (s ∷ q) (node n a cs)) none (position (u ∷ p) q)
  fresh_same e u p [] tidy d = rw (view-nil (implicit_dir s)) (ground (arith, d))
  fresh_same e u p (z ∷ q) tidy d = rw (view-leaf s (dir_attrs true) z q, tidy (s ∷ []) z q d) refl

  -- What it shows serves for what the whole tree showed.
  upserted-ensure_dir :
      (e : Entry) (u : Bytes) (p q : List Bytes)
      → IsTidy (node n a cs)
      → upserted e (view q (ensure_dir s cs)) (view (u ∷ p) (ensure_dir s cs)) (position (u ∷ p) q)
        ≡ upserted e
            (view (s ∷ q) (node n a cs))
            (view (s ∷ u ∷ p) (node n a cs))
            (position (u ∷ p) q)
  upserted-ensure_dir e u p q tidy = elim ensure_dir-cases [
    | inl (c, h, d, same) ↦ rw (same, view-child c q h, view-child c (u ∷ p) h) refl
    | inr (d, same) ↦
        rw (same, view-leaf s (dir_attrs true) u p, tidy (s ∷ []) u p d) (fresh_same e u p q tidy d)
  ]

view-get_child :
    (n : Bytes) (a : Attrs) (y : Bytes) (cs ds : Children) (q : List Bytes)
    → get_child y cs ≡ get_child y ds
    → view (y ∷ q) (node n a cs) ≡ view (y ∷ q) (node n a ds)
unfolding view
view-get_child n a y cs ds q h =
    ap (λ (o : Option Node). elim o [ none ↦ none | some c ↦ view q c ]) h

view-put_child :
    (n : Bytes) (a : Attrs) (s : Bytes) (new : Node) (cs : Children) (q : List Bytes)
    → view (s ∷ q) (node n a (put_child s new cs)) ≡ view q new
view-put_child n a s new cs q =
    view-child n a (put_child s new cs) s new q
      (get-put_child s s new cs ∙ rw (bytes_eq_refl s) refl)

pub snoc_cons :
    (ss : List Bytes) (name : Bytes) → (u : Bytes) × (p : List Bytes) × (ss ++ name ∷ [] ≡ u ∷ p)
snoc_cons [] name = (name, [], refl)
snoc_cons (s ∷ ss) name = (s, ss ++ name ∷ [], refl)

pub view-ensure_dirs :
    (e : Entry) (ss : List Bytes) (name : Bytes) (t : Node) (q : List Bytes)
    → IsTidy t
    → is_dir t ≡ true
    → view q (ensure_dirs ss (put_entry e name) t)
      ≡ upserted e (view q t) (view (ss ++ name ∷ []) t) (position (ss ++ name ∷ []) q)
unfolding ensure_dirs
view-ensure_dirs e [] name (node n a cs) q tidy d = view-put_entry e name n a cs q d
view-ensure_dirs e (s ∷ ss) name (node n a cs) [] tidy d =
    view-nil (node n a _) ∙ rw (view-nil (node n a cs)) (rw d refl)
view-ensure_dirs e (s ∷ ss) name (node n a cs) (y ∷ q) tidy d =
    let w = put_entry e name in
    let new = ensure_dirs ss w (ensure_dir s cs) in
    let (d', tidy') = ensure_dir-IsTidy n a cs s tidy in
    let (u, p, snoc) = snoc_cons ss name in
    let same : view (s ∷ q) (node n a (put_child s new cs))
        ≡ upserted e (view (s ∷ q) (node n a cs)) (view (s ∷ (ss ++ name ∷ [])) (node n a cs))
            (position (ss ++ name ∷ []) q) =
      view-put_child n a s new cs q
      ∙ (view-ensure_dirs e ss name (ensure_dir s cs) q tidy' d'
          ∙ rw snoc (upserted-ensure_dir n a cs s e u p q tidy)) in
    elim (Bool-cases (bytes_eq s y)) [
      | inl here' ↦ rw here' (rw (← bytes_eq→eq s y here') same)
      | inr other ↦ rw other (
          view-get_child n a y (put_child s new cs) cs q (get-put_child y s new cs ∙ rw other refl))
    ]

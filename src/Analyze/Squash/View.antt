-- ===== src/Analyze/Squash/View.antt =====
-- The tree as the paths that it has: what each write does to what is seen at each path.
use layerlens.Base.{
  ◌≡◌, refl, Bool, false, Option, none, some, List, [], ◌∷◌, Bytes, arith, if◌then◌else◌, bytes_eq,
  bytes_eq_iff, Option-cases, inl, inr,
}
use mathlib.Core.Option
use layerlens.Domain.Entry.{dir, kind_eq}
use layerlens.Domain.Tree.{
  Attrs, Node, Children, node, no_children, child, attrs, get_child, put_child, delete_child,
}
use layerlens.Analyze.Squash.{walk, modify_at, clear_children, split_last, remove_at}

-- The child map laws.
pub get-put_child :
    (j k : Bytes) (n : Node) (cs : Children)
    → get_child j (put_child k n cs) ≡ (if bytes_eq k j then some n else get_child j cs)
unfolding get_child put_child
get-put_child j k n no_children = refl
get-put_child j k n (child i m cs) =
    ground (arith, bytes_eq_iff i k, bytes_eq_iff i j, bytes_eq_iff k j, get-put_child j k n cs)

pub get-delete_child :
    (j k : Bytes) (cs : Children)
    → get_child j (delete_child k cs) ≡ (if bytes_eq k j then none else get_child j cs)
unfolding get_child delete_child
get-delete_child j k no_children = ground arith
get-delete_child j k (child i m cs) =
    ground (arith, bytes_eq_iff i k, bytes_eq_iff i j, bytes_eq_iff k j, get-delete_child j k cs)

-- How a path `q` stands to a path `p`: the same, an ancestor, a descendant, or none of these.
pub data Position : Type 0 where
  here above below beside : Position

abbrev pub position : List Bytes → List Bytes → Position
position [] [] = here
position [] (y ∷ q) = below
position (x ∷ p) [] = above
position (x ∷ p) (y ∷ q) = let rest = position p q in if bytes_eq x y then rest else beside

-- What is at a path: the attributes of its node.
unfoldable pub view : List Bytes → Node → Option Attrs
view [] (node n a cs) = some a
view (y ∷ q) (node n a cs) = elim (get_child y cs) [ none ↦ none | some c ↦ view q c ]

pub view-walk : (q : List Bytes) (t : Node) → view q t ≡ Option.map attrs (walk q t)
unfolding view walk
view-walk [] (node n a cs) = refl
view-walk (y ∷ q) (node n a cs) = elim (Option-cases (get_child y cs)) [
  | inl e ↦ rw (e, view, walk) refl
  | inr (c, e) ↦ rw (e, view, walk) (view-walk q c)
]

abbrev pub has_dir : Option Attrs → Bool
has_dir none = false
has_dir (some a) = kind_eq a.kind dir

-- The opaque marker: what was below the directory is gone.
pub view-clear :
    (p : List Bytes) (t : Node) (q : List Bytes)
    → view q (modify_at p clear_children t) ≡ (elim (position p q) [
      | below ↦ if has_dir (view p t) then none else view q t
      | _ ↦ view q t
    ])
unfolding modify_at view
view-clear [] (node n a cs) [] = ground arith
view-clear [] (node n a cs) (y ∷ q) = unfold get_child in ground arith
view-clear (s ∷ p) (node n a cs) [] = ground arith
view-clear (s ∷ p) (node n a cs) (y ∷ q) = elim (Option-cases (get_child s cs)) [
  | inl e ↦ ground (arith, bytes_eq_iff s y)
  | inr (c, e) ↦ ground (
    arith,
    e,
    bytes_eq_iff s y,
    get-put_child y s (modify_at p clear_children c) cs,
    view-clear p c q,
  )
]

remove_at-cons :
    (s t : Bytes) (ts : List Bytes) (n : Bytes) (a : Attrs) (cs : Children)
    → remove_at (s ∷ t ∷ ts) (node n a cs) ≡ (elim (get_child s cs) [
      | none ↦ node n a cs
      | some c ↦ node n a (put_child s (remove_at (t ∷ ts) c) cs)
    ])
unfolding remove_at split_last modify_at
remove_at-cons s t ts n a cs = refl

-- The whiteout: the path and what was below it are gone.
pub view-remove :
    (s : Bytes) (p : List Bytes) (t : Node) (q : List Bytes)
    → view q (remove_at (s ∷ p) t)
      ≡ (elim (position (s ∷ p) q) [ here ↦ none | below ↦ none | _ ↦ view q t ])
unfolding view
view-remove s [] (node n a cs) [] = unfold remove_at split_last modify_at in refl
view-remove s [] (node n a cs) (y ∷ []) =
    unfold remove_at split_last modify_at in ground (arith, get-delete_child y s cs)
view-remove s [] (node n a cs) (y ∷ z ∷ q) =
    unfold remove_at split_last modify_at in ground (arith, get-delete_child y s cs)
view-remove s (u ∷ p) (node n a cs) [] = rw (remove_at-cons s u p n a cs) (ground arith)
view-remove s (u ∷ p) (node n a cs) (y ∷ q) =
    rw (remove_at-cons s u p n a cs) (elim (Option-cases (get_child s cs)) [
      | inl e ↦ ground (arith, e, bytes_eq_iff s y)
      | inr (c, e) ↦ ground (
        arith,
        e,
        bytes_eq_iff s y,
        get-put_child y s (remove_at (u ∷ p) c) cs,
        view-remove u p c q,
      )
    ])

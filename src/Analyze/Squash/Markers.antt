-- ===== src/Analyze/Squash/Markers.antt =====
-- The markers of a layer: what they hide, in whatever order they come.
use layerlens.Base.{
  bytes_eq→eq, ◌≡◌, refl, Bool, true, false, none, List, [], ◌∷◌, ◌++◌, Bytes, arith, ◌&&◌, ◌||◌,
  if◌then◌else◌, bytes_eq, Bool-cases, inl, inr,
}
use layerlens.Domain.Entry.{Entry, whiteout, opaque, kind_eq}
use layerlens.Domain.Tree.{Node}
use layerlens.Analyze.Squash.{
  segments, modify_at, clear_children, remove_at, remove_subtree, apply_opaques, apply_whiteouts,
}
use layerlens.Analyze.Squash.View.{
  view, has_dir, Position, here, below, position, view-clear, view-remove,
}
use layerlens.Analyze.Squash.Trees.{IsTree, clear-IsTree, remove-IsTree}

position_below :
    (p q : List Bytes) → position p q ≡ below → (y : Bytes) × (r : List Bytes) × (q ≡ p ++ y ∷ r)
position_below [] [] h = absurd (ground arith)
position_below [] (y ∷ r) h = (y, r, refl)
position_below (x ∷ p) [] h = absurd (ground arith)
position_below (x ∷ p) (z ∷ q) h =
    let same : bytes_eq x z ≡ true = ground arith in
    let (y, r, e) = position_below p q (ground arith) in (y, r, cc (bytes_eq→eq x z same, e))

abbrev is_below : Position → Bool
is_below below = true
is_below _ = false

abbrev is_here_or_below : Position → Bool
is_here_or_below here = true
is_here_or_below below = true
is_here_or_below _ = false

-- An opaque marker hides what is below its directory, a whiteout its path and what is below it. No
-- whiteout names the root.
abbrev pub hides_opaque : List Bytes → Entry → Bool
hides_opaque q e = kind_eq e.kind opaque && is_below (position (segments e.path) q)

abbrev covers : List Bytes → List Bytes → Bool
covers [] q = false
covers (s ∷ p) q = is_here_or_below (position (s ∷ p) q)

abbrev pub hides_whiteout : List Bytes → Entry → Bool
hides_whiteout q e = kind_eq e.kind whiteout && covers (segments e.path) q

abbrev pub some_entry : (Entry → Bool) → List Entry → Bool
some_entry p [] = false
some_entry p (e ∷ es) = p e || some_entry p es

abbrev pub hidden : List Entry → List Bytes → Bool
hidden es q = some_entry (hides_opaque q) es || some_entry (hides_whiteout q) es

clear-view :
    (p : List Bytes) (t : Node) (q : List Bytes)
    → IsTree t
    → view q (modify_at p clear_children t) ≡ (if is_below (position p q) then none else view q t)
clear-view p t q h = elim (Bool-cases (is_below (position p q))) [
  | inl b ↦
      let (y, r, e) = position_below p q (ground arith) in
      let empty : has_dir (view p t) ≡ false → view q t ≡ none = λ d. rw e (h.tidy p y r d) in
      elim (Bool-cases (has_dir (view p t))) [
        | inl d ↦ ground (arith, view-clear p t q, d)
        | inr d ↦ ground (arith, view-clear p t q, empty d)
      ]
  | inr b ↦ ground (arith, view-clear p t q)
]

remove-view :
    (p : List Bytes) (t : Node) (q : List Bytes)
    → view q (remove_at p t) ≡ (if covers p q then none else view q t)
remove-view [] t q = unfold remove_at in refl
remove-view (s ∷ p) t q = ground (arith, view-remove s p t q)

-- The first loop.
opaques_lem :
    (es : List Entry) (t : Node)
    → IsTree t
    → IsTree (apply_opaques t es)
      × ((q : List Bytes)
          → view q (apply_opaques t es)
            ≡ (if some_entry (hides_opaque q) es then none else view q t))
unfolding apply_opaques
opaques_lem [] t h = (h, λ q. refl)
opaques_lem (e ∷ es) t h = elim (Bool-cases (kind_eq e.kind opaque)) [
  | inl k ↦
      let (h', v) = opaques_lem es _ (clear-IsTree (segments e.path) t h) in
      rw k (h', λ q. ground (arith, v q, clear-view (segments e.path) t q h))
  | inr k ↦ rw k (opaques_lem es t h)
]

-- The second loop.
whiteouts_lem :
    (es : List Entry) (t : Node)
    → IsTree t
    → IsTree (apply_whiteouts t es)
      × ((q : List Bytes)
          → view q (apply_whiteouts t es)
            ≡ (if some_entry (hides_whiteout q) es then none else view q t))
unfolding apply_whiteouts remove_subtree
whiteouts_lem [] t h = (h, λ q. refl)
whiteouts_lem (e ∷ es) t h = elim (Bool-cases (kind_eq e.kind whiteout)) [
  | inl k ↦
      let (h', v) = whiteouts_lem es _ (remove-IsTree (segments e.path) t h) in
      rw k (h', λ q. ground (arith, v q, remove-view (segments e.path) t q))
  | inr k ↦ rw k (whiteouts_lem es t h)
]

-- After both loops a path is hidden by some marker, or seen as before.
pub markers_lem :
    (es : List Entry) (t : Node)
    → IsTree t
    → IsTree (apply_whiteouts (apply_opaques t es) es)
      × ((q : List Bytes)
          → view q (apply_whiteouts (apply_opaques t es) es)
            ≡ (if hidden es q then none else view q t))
markers_lem es t h =
    let (h₁, v₁) = opaques_lem es t h in
    let (h₂, v₂) = whiteouts_lem es (apply_opaques t es) h₁ in (h₂, λ q. ground (arith, v₁ q, v₂ q))

-- ===== src/Analyze/Squash/Overlay.antt =====
-- A layer applied to a tree, against the overlay of the layer's entries on the paths of the tree.
use layerlens.Base.{
  ◌≡◌, refl, ap, ◌∙◌, false, Option, none, List, [], ◌∷◌, Bytes, if◌then◌else◌, Bool-cases, inl,
  inr, All,
}
use mathlib.Core.Path.{fun_ext}
use layerlens.Domain.Entry.{Entry}
use layerlens.Domain.Tree.{Attrs, Node}
use layerlens.Analyze.Squash.{
  segments, upsert, apply_opaques, apply_whiteouts, apply_objects, apply_layer, is_marker,
}
use layerlens.Analyze.Squash.View.{view, position}
use layerlens.Analyze.Squash.Markers.{hidden, markers_lem}
use layerlens.Analyze.Squash.Entries.{HasPath, segments-HasPath, upsert-HasPath}
use layerlens.Analyze.Squash.Trees.{IsTree, root-is_dir, ensure-IsTree}
use layerlens.Analyze.Squash.Upsert.{upserted, view-ensure_dirs}

-- What there is at each path.
abbrev pub Paths : Type 0
Paths = List Bytes → Option Attrs

-- One entry written over the paths.
abbrev pub write_over : Entry → Paths → Paths
write_over e v q = upserted e (v q) (v (segments e.path)) (position (segments e.path) q)

-- The objects among the entries, written in order.
abbrev pub objects_over : List Entry → Paths → Paths
objects_over [] v = v
objects_over (e ∷ es) v = objects_over es (if is_marker e then v else write_over e v)

-- A layer over the paths below it: its markers hide those, and then its objects are written.
abbrev pub layer_over : List Entry → Paths → Paths
layer_over es v = objects_over es (λ q. if hidden es q then none else v q)

-- The objects have clean paths.
abbrev pub HasPaths : List Entry → Type 0
HasPaths = All (λ e. is_marker e ≡ false → HasPath e)

upsert_lem :
    (t : Node) (e : Entry)
    → IsTree t
    → HasPath e
    → IsTree (upsert t e)
      × ((q : List Bytes) → view q (upsert t e) ≡ write_over e (λ r. view r t) q)
upsert_lem t e h p = (
  rw (upsert-HasPath t e p) (ensure-IsTree e p.parent p.name t h),
  λ q.
      ap (view q) (upsert-HasPath t e p)
      ∙ rw (segments-HasPath e p)
          (view-ensure_dirs e p.parent p.name t q h.tidy (root-is_dir t h.root)),
)

objects_lem :
    (es : List Entry) (t : Node)
    → IsTree t
    → HasPaths es
    → IsTree (apply_objects t es)
      × ((q : List Bytes) → view q (apply_objects t es) ≡ objects_over es (λ r. view r t) q)
unfolding apply_objects
objects_lem [] t h p = (h, λ q. refl)
objects_lem (e ∷ es) t h p = elim (Bool-cases (is_marker e)) [
  | inl k ↦ rw k (objects_lem es t h p.1)
  | inr k ↦
      let (h₁, v₁) = upsert_lem t e h (p.0 k) in
      let (h₂, v₂) = objects_lem es (upsert t e) h₁ p.1 in
      rw k (h₂, λ q. v₂ q ∙ ap (λ (v : Paths). objects_over es v q) (fun_ext v₁))
]

-- For a tree with a directory at its root and nothing below what is not a directory, and a layer whose
-- objects have clean paths: the tree after the layer is such a tree again, and shows at each path what
-- the layer leaves there when its markers hide and its objects are written over the paths before it.
pub apply_layer-layer_over :
    (es : List Entry) (t : Node)
    → IsTree t
    → HasPaths es
    → IsTree (apply_layer t es)
      × ((q : List Bytes) → view q (apply_layer t es) ≡ layer_over es (λ r. view r t) q)
unfolding apply_layer
apply_layer-layer_over es t h p =
    let (h₁, v₁) = markers_lem es t h in
    let (h₂, v₂) = objects_lem es (apply_whiteouts (apply_opaques t es) es) h₁ p in
    (h₂, λ q. v₂ q ∙ ap (λ (v : Paths). objects_over es v q) (fun_ext v₁))

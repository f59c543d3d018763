-- ===== src/Analyze/Squash/Layers.antt =====
-- What follows for whole layers and for the squashed image.
use layerlens.Base.{
  ◌≡◌, refl, sym, ap, ◌∙◌, Bool, true, false, none, some, List, [], ◌∷◌, ◌++◌, Bytes, arith, ◌||◌,
  if◌then◌else◌, Bool-cases, inl, inr, All, All-append,
}
use mathlib.Core.Path.{fun_ext}
use layerlens.Domain.Entry.{Entry, LayerIndex, whiteout, opaque, kind_eq}
use layerlens.Domain.Tree.{Attrs, Node}
use layerlens.Analyze.Squash.{
  root_path, squash_onto, squash, new_squasher, apply_layer, is_marker, dir_attrs,
}
use layerlens.Analyze.Squash.View.{view}
use layerlens.Analyze.Squash.Upsert.{view-leaf, IsTidy-leaf}
use layerlens.Analyze.Squash.Trees.{IsTree}
use layerlens.Analyze.Squash.Markers.{hidden, some_entry, hides_opaque, hides_whiteout}
use layerlens.Analyze.Squash.Overlay.{
  Paths, write_over, objects_over, layer_over, HasPaths, apply_layer-layer_over,
}

-- The empty filesystem: an implicit root and nothing else.
abbrev pub only_root : Paths
only_root [] = some (dir_attrs true)
only_root (y ∷ q) = none

abbrev pub layers_over : List LayerIndex → Paths → Paths
layers_over [] v = v
layers_over (l ∷ ls) v = layers_over ls (layer_over l.entries v)

pub new_squasher-IsTree : IsTree new_squasher
unfolding view
new_squasher-IsTree = record { root = refl; tidy = IsTidy-leaf _ _ }

view-new_squasher : (q : List Bytes) → view q new_squasher ≡ only_root q
unfolding view
view-new_squasher [] = refl
view-new_squasher (y ∷ q) = view-leaf root_path (dir_attrs true) y q

squash_onto_lem :
    (ls : List LayerIndex) (t : Node)
    → IsTree t
    → All (λ l. HasPaths l.entries) ls
    → IsTree (squash_onto t ls)
      × ((q : List Bytes) → view q (squash_onto t ls) ≡ layers_over ls (λ r. view r t) q)
unfolding squash_onto
squash_onto_lem [] t h p = (h, λ q. refl)
squash_onto_lem (l ∷ ls) t h p =
    let (h₁, v₁) = apply_layer-layer_over l.entries t h p.0 in
    let (h₂, v₂) = squash_onto_lem ls (apply_layer t l.entries) h₁ p.1 in
    (h₂, λ q. v₂ q ∙ ap (λ (v : Paths). layers_over ls v q) (fun_ext v₁))

-- For layers whose objects have clean paths: the squashed tree has a directory at its root and nothing
-- below what is not a directory, and shows at each path what the layers, laid one over the other on an
-- empty root, leave there.
pub squash-layers_over :
    (ls : List LayerIndex)
    → All (λ l. HasPaths l.entries) ls
    → IsTree (squash ls) × ((q : List Bytes) → view q (squash ls) ≡ layers_over ls only_root q)
unfolding squash
squash-layers_over ls p =
    let (h, v) = squash_onto_lem ls new_squasher new_squasher-IsTree p in
    (h, λ q. v q ∙ ap (λ (v : Paths). layers_over ls v q) (fun_ext view-new_squasher))

some_entry-append :
    (p : Entry → Bool) (xs ys : List Entry)
    → some_entry p (xs ++ ys) ≡ (some_entry p xs || some_entry p ys)
some_entry-append p [] ys = refl
some_entry-append p (x ∷ xs) ys = ground (arith, some_entry-append p xs ys)

some_entry-shift :
    (p : Entry → Bool) (xs ms ys : List Entry)
    → some_entry p (xs ++ (ms ++ ys)) ≡ some_entry p (ms ++ (xs ++ ys))
some_entry-shift p xs ms ys = ground (
  arith,
  some_entry-append p xs (ms ++ ys),
  some_entry-append p ms ys,
  some_entry-append p ms (xs ++ ys),
  some_entry-append p xs ys,
)

abbrev pub AllMarkers : List Entry → Type 0
AllMarkers = All (λ e. is_marker e ≡ true)

objects_over-markers :
    (ms es : List Entry) (v : Paths) → AllMarkers ms → objects_over (ms ++ es) v ≡ objects_over es v
objects_over-markers [] es v h = refl
objects_over-markers (m ∷ ms) es v h = rw (h.0, objects_over) (objects_over-markers ms es v h.1)

objects_over-shift :
    (xs ms ys : List Entry) (v : Paths)
    → AllMarkers ms
    → objects_over (xs ++ (ms ++ ys)) v ≡ objects_over (xs ++ ys) v
objects_over-shift [] ms ys v h = objects_over-markers ms ys v h
objects_over-shift (x ∷ xs) ms ys v h = objects_over-shift xs ms ys _ h

HasPaths-split : (xs ys : List Entry) → HasPaths (xs ++ ys) → HasPaths xs × HasPaths ys
HasPaths-split [] ys h = (tt, h)
HasPaths-split (x ∷ xs) ys h = let (l, r) = HasPaths-split xs ys h.1 in ((h.0, l), r)

HasPaths-shift : (xs ms ys : List Entry) → HasPaths (xs ++ (ms ++ ys)) → HasPaths (ms ++ (xs ++ ys))
HasPaths-shift xs ms ys h =
    let (hx, rest) = HasPaths-split xs (ms ++ ys) h in
    let (hm, hy) = HasPaths-split ms ys rest in
    All-append _ ms (xs ++ ys) hm (All-append _ xs ys hx hy)

hidden-shift :
    (xs ms ys : List Entry) (q : List Bytes)
    → hidden (xs ++ (ms ++ ys)) q ≡ hidden (ms ++ (xs ++ ys)) q
hidden-shift xs ms ys q = ground (
  arith,
  some_entry-shift (hides_opaque q) xs ms ys,
  some_entry-shift (hides_whiteout q) xs ms ys,
)

layer_over-shift :
    (xs ms ys : List Entry) (v : Paths)
    → AllMarkers ms
    → (q : List Bytes) → layer_over (xs ++ (ms ++ ys)) v q ≡ layer_over (ms ++ (xs ++ ys)) v q
layer_over-shift xs ms ys v h q =
    let left : Paths = λ r. if hidden (xs ++ (ms ++ ys)) r then none else v r in
    let right : Paths = λ r. if hidden (ms ++ (xs ++ ys)) r then none else v r in
    let same : left ≡ right =
      fun_ext (λ r. ap (λ b. if b then none else v r) (hidden-shift xs ms ys r)) in
    ap (λ f. f q) (objects_over-shift xs ms ys left h)
    ∙ (ap (λ f. f q) (sym (objects_over-markers ms (xs ++ ys) left h))
        ∙ ap (λ w. objects_over (ms ++ (xs ++ ys)) w q) same)

-- On a tree with a directory at its root and nothing below what is not a directory, for a layer whose
-- objects have clean paths: a run of markers may stand before or behind a run of entries, the layer
-- leaves the same at every path.
pub apply_layer-markers :
    (t : Node) (xs ms ys : List Entry)
    → IsTree t
    → AllMarkers ms
    → HasPaths (xs ++ (ms ++ ys))
    → (q : List Bytes)
    → view q (apply_layer t (xs ++ (ms ++ ys))) ≡ view q (apply_layer t (ms ++ (xs ++ ys)))
apply_layer-markers t xs ms ys h m p q =
    (apply_layer-layer_over (xs ++ (ms ++ ys)) t h p).1 q
    ∙ (layer_over-shift xs ms ys (λ r. view r t) m q
        ∙ sym ((apply_layer-layer_over (ms ++ (xs ++ ys)) t h (HasPaths-shift xs ms ys p)).1 q))

-- No path holds a marker.
abbrev pub HoldsObjects : Paths → Type 0
HoldsObjects v =
    (q : List Bytes) (a : Attrs)
    → v q ≡ some a
    → (kind_eq a.kind whiteout || kind_eq a.kind opaque) ≡ false

write_over-HoldsObjects :
    (e : Entry) (v : Paths) → is_marker e ≡ false → HoldsObjects v → HoldsObjects (write_over e v)
write_over-HoldsObjects e v k h q a s = ground (arith, h q a, s, k)

objects_over-HoldsObjects :
    (es : List Entry) (v : Paths) → HoldsObjects v → HoldsObjects (objects_over es v)
objects_over-HoldsObjects [] v h = h
objects_over-HoldsObjects (e ∷ es) v h = elim (Bool-cases (is_marker e)) [
  | inl k ↦ rw k (objects_over-HoldsObjects es v h)
  | inr k ↦ rw k (objects_over-HoldsObjects es (write_over e v) (write_over-HoldsObjects e v k h))
]

layers_over-HoldsObjects :
    (ls : List LayerIndex) (v : Paths) → HoldsObjects v → HoldsObjects (layers_over ls v)
layers_over-HoldsObjects [] v h = h
layers_over-HoldsObjects (l ∷ ls) v h =
    layers_over-HoldsObjects ls (layer_over l.entries v)
      (objects_over-HoldsObjects l.entries _ (λ q a s. ground (arith, h q a, s)))

only_root-HoldsObjects : HoldsObjects only_root
only_root-HoldsObjects [] a s = ground arith
only_root-HoldsObjects (y ∷ q) a s = absurd (ground arith)

-- The markers are consumed: for layers whose objects have clean paths, no node of the squashed tree is a
-- whiteout or an opaque marker.
pub squash-HoldsObjects :
    (ls : List LayerIndex)
    → All (λ l. HasPaths l.entries) ls
    → HoldsObjects (λ q. view q (squash ls))
squash-HoldsObjects ls p q a s =
    layers_over-HoldsObjects ls only_root only_root-HoldsObjects q a
      (sym ((squash-layers_over ls p).1 q) ∙ s)

-- ===== src/Cachestore/Lru/Rule.antt =====
-- A rule for eviction: what forgetting one image, or one layer that nothing depends on, keeps true
-- stays true however much is evicted.
use layerlens.Base.{
  ℕ, zero, suc, ◌+◌, ◌≡◌, false, Option, none, some, List, [], ◌∷◌, Bytes, Bool-cases, Option-cases,
  inl, inr, if_holds, Result, ok, err, lt64, add64,
}
use layerlens.Base.Dict.{find}
use layerlens.Domain.Image.{Layer}
use layerlens.Cachestore.State.{LayerEntry, ImageEntry, Store}
use layerlens.Cachestore.Layout.{LayoutError, layer_dir_for, image_path_for}
use layerlens.Cachestore.Lru.{
  Disk, layer_referenced, drop_layer, forget_layer, drop_layers, forget_image, evict_lru,
  unlink_layer, remove_image, evict_victim, make_room,
}
use layerlens.Cachestore.Lru.Victim.{IsKeyed, IsLru, victim-IsLru}

-- What dropping layers keeps true.
pub record SurvivesDrops (P : Store → Type 0) : Type 0 where
  pub moved : (s : Store) (n : ℕ) → P s → P (record s { trash_seq = n })
  pub forgets_layer :
      (d : Bytes) (e : LayerEntry) (s : Store)
      → find d s.layers ≡ some e
      → layer_referenced s d ≡ false
      → P s
      → P (forget_layer d e.bytes s)

pub record IsKept (P : Store → Type 0) : Type 0 where
  pub drops : SurvivesDrops P
  pub keyed : (s : Store) → P s → IsKeyed s.images
  pub forgets_image :
      (v : ImageEntry) (s : Store)
      → find v.rec.id s.images ≡ some v
      → v.rec.pinned ≡ false
      → P s
      → P (forget_image v s)

module _ (P : Store → Type 0) (drops : SurvivesDrops P) (disk : Disk) where
  unlink_layer-holds :
      (d : Bytes) (e : LayerEntry) (r : Result LayoutError Bytes) (s : Store)
      → find d s.layers ≡ some e
      → layer_referenced s d ≡ false
      → P s
      → P (unlink_layer disk d e.bytes r s)
  unfolding unlink_layer layer_referenced
  unlink_layer-holds d e (err x) s f u h = drops.forgets_layer d e s f u h
  unlink_layer-holds d e (ok dir) s f u h =
      let s' : Store = record s { trash_seq = s.trash_seq + 1 } in
      let h' = drops.moved s (s.trash_seq + 1) h in
      if_holds P (disk.unlinks_layer s' dir) _ s' (λ _. drops.forgets_layer d e s' f u h') (λ _. h')

  drop_layer-holds :
      (d : Bytes) (s : Store) → layer_referenced s d ≡ false → P s → P (drop_layer disk d s)
  unfolding drop_layer
  drop_layer-holds d s u h = elim (Option-cases (find d s.layers)) [
    | inl f ↦ rw (f, drop_layer) h
    | inr (e, f) ↦ rw (f, drop_layer) (unlink_layer-holds d e (layer_dir_for s.root d) s f u h)
  ]

  pub drop_layers-holds : (ls : List Layer) (s : Store) → P s → P (drop_layers disk ls s)
  unfolding drop_layers
  drop_layers-holds [] s h = h
  drop_layers-holds (l ∷ ls) s h = drop_layers-holds ls _ (
      if_holds P (layer_referenced s l.diff_id) s _ (λ _. h)
        (λ u. drop_layer-holds l.diff_id s u h))

module _ (P : Store → Type 0) (kept : IsKept P) (disk : Disk) where
  remove_image-holds :
      (v : ImageEntry) (r : Result LayoutError Bytes) (s : Store)
      → find v.rec.id s.images ≡ some v
      → v.rec.pinned ≡ false
      → P s
      → P (remove_image disk v r s).0
  unfolding remove_image
  remove_image-holds v (err x) s f u h = kept.forgets_image v s f u h
  remove_image-holds v (ok path) s f u h = elim (Bool-cases (disk.removes_record s path)) [
    | inl b ↦
        rw b (drop_layers-holds P kept.drops disk v.rec.layers _ (kept.forgets_image v s f u h))
    | inr b ↦ rw b h
  ]

  evict_victim-holds :
      (o : Option ImageEntry) (s : Store) → IsLru s.images o → P s → P (evict_victim disk o s).0
  unfolding evict_victim
  evict_victim-holds none s l h = h
  evict_victim-holds (some v) s l h =
      remove_image-holds v (image_path_for s.root v.rec.id) s l.0 l.1 h

  pub evict_lru-holds : (s : Store) → P s → P (evict_lru disk s).0
  unfolding evict_lru
  evict_lru-holds s h = evict_victim-holds _ s (victim-IsLru s.images (kept.keyed s h)) h

  pub make_room-holds : (fuel n : ℕ) (s : Store) → P s → P (make_room disk fuel n s)
  unfolding make_room
  make_room-holds zero n s h = h
  make_room-holds (suc fuel) n s h =
      let h' = evict_lru-holds s h in
      elim (Bool-cases (lt64 s.max (add64 s.accounted n))) [
        | inl b ↦
            rw (b, make_room)
              (if_holds P (evict_lru disk s).1 _ _
                (λ _. make_room-holds fuel n (evict_lru disk s).0 h') (λ _. h'))
        | inr b ↦ rw (b, make_room) h
      ]

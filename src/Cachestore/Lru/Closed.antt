-- ===== src/Cachestore/Lru/Closed.antt =====
-- Every layer that an image or an open transaction depends on is in the store, under eviction.
use layerlens.Base.{
  ℕ, ◌≡◌, true, false, [], ◌∷◌, Bytes, arith, Bool-cases, inl, inr, bytes_eq, bytes_eq→eq,
}
use layerlens.Base.Dict.{Dict, erase, find-erase}
use layerlens.Cachestore.State.{ImageEntry, Store}
use layerlens.Cachestore.Records.{has_layer}
use layerlens.Cachestore.Lru.{
  Disk, any_image_names, layer_referenced, forget_layer, forget_image, make_room,
}
use layerlens.Cachestore.Lru.Rule.{IsKept, make_room-holds}
use layerlens.Cachestore.Lru.Accounts.{
  IsAccounted, IsAccounted-IsKept, forget_image-IsAccounted, forget_layer-IsAccounted,
}

-- A layer that is depended on is there.
abbrev pub IsClosed : Store → Type 0
IsClosed s = (d : Bytes) → layer_referenced s d ≡ true → has_layer s d ≡ true

any_image_names-erase :
    (d k : Bytes) (es : Dict ImageEntry)
    → any_image_names d (erase k es) ≡ true
    → any_image_names d es ≡ true
unfolding any_image_names erase
any_image_names-erase d k [] h = h
any_image_names-erase d k ((j, e) ∷ es) h = ground (arith, any_image_names-erase d k es)

forget_image-IsClosed : (v : ImageEntry) (s : Store) → IsClosed s → IsClosed (forget_image v s)
unfolding forget_image layer_referenced has_layer
forget_image-IsClosed v s h d r = h d (ground (arith, r, any_image_names-erase d v.rec.id s.images))

module _ (p : ℕ) where
  forget_layer-IsClosed :
      (d : Bytes) (n : ℕ) (s : Store)
      → IsAccounted p s
      → layer_referenced s d ≡ false
      → IsClosed s
      → IsClosed (forget_layer d n s)
  unfolding forget_layer layer_referenced has_layer
  forget_layer-IsClosed d n s a u h j r = elim (Bool-cases (bytes_eq d j)) [
    | inl e ↦ absurd (cc (rw (bytes_eq→eq d j e) at u))
    | inr e ↦ rw (find-erase d j s.layers a.layers_distinct, e, has_layer) (h j r)
  ]

  IsAccounted-IsClosed-IsKept : IsKept (λ s. IsAccounted p s × IsClosed s)
  unfolding layer_referenced has_layer
  IsAccounted-IsClosed-IsKept = record {
    drops = record {
      moved = λ s n (a, h). ((IsAccounted-IsKept p).drops.moved s n a, h);
      forgets_layer = λ d e s f u (a, h).
          (forget_layer-IsAccounted p d e s f a, forget_layer-IsClosed d e.bytes s a u h);
    };
    keyed = λ s (a, h). a.images_keyed;
    forgets_image =
        λ v s f _ (a, h). (forget_image-IsAccounted p v s f a, forget_image-IsClosed v s h);
  }

  pub make_room-IsClosed :
      (disk : Disk) (fuel n : ℕ) (s : Store)
      → IsAccounted p s
      → IsClosed s
      → IsClosed (make_room disk fuel n s)
  make_room-IsClosed disk fuel n s a h =
      (make_room-holds (λ s. IsAccounted p s × IsClosed s) IsAccounted-IsClosed-IsKept disk fuel n s
        (a, h)).1

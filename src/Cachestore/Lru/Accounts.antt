-- ===== src/Cachestore/Lru/Accounts.antt =====
-- The byte accounting under eviction and under reservations.
use layerlens.Base.{
  ℕ, ◌+◌, ◌%◌, ◌^◌, ◌<◌, ◌≡◌, refl, true, false, Option, none, some, Bytes, arith, Bool-cases, inl,
  inr, if◌then◌else◌, if_holds, Result, ok, err, add64, lt64, bytes_eq, length,
}
use layerlens.Base.Dict.{Dict, find, erase, IsDict, total-erase, find-erase, erase-IsDict}
use layerlens.Cachestore.State.{CacheError, LayerEntry, ImageEntry, Store, held}
use layerlens.Cachestore.State.CacheError.{cache_full}
use layerlens.Cachestore.Lru.{
  Disk, forget_layer, forget_image, make_room, own, is_not_positive, refused, charge, reserve,
  release,
}
use layerlens.Cachestore.Lru.Victim.{IsKeyed}
use layerlens.Cachestore.Lru.Rule.{IsKept, make_room-holds}

-- The accounted bytes are those of the tables and those reserved for writes in progress.
pub record IsAccounted (pending : ℕ) (s : Store) : Type 0 where
  pub layers_distinct : IsDict s.layers
  pub images_keyed : IsKeyed s.images
  pub balance : s.accounted ≡ (held s + pending) % 2 ^ 64

pub erase-IsKeyed : (k : Bytes) (d : Dict ImageEntry) → IsKeyed d → IsKeyed (erase k d)
erase-IsKeyed k d h = record {
  distinct = erase-IsDict k d h.distinct;
  keyed = λ j e f. elim (Bool-cases (bytes_eq k j)) [
    | inl p ↦ absurd (cc (rw (find-erase k j d h.distinct, p) at f))
    | inr p ↦ h.keyed j e (rw (find-erase k j d h.distinct, p) at f)
  ];
}

module _ (p : ℕ) where
  pub forget_layer-IsAccounted :
      (d : Bytes) (e : LayerEntry) (s : Store)
      → find d s.layers ≡ some e
      → IsAccounted p s
      → IsAccounted p (forget_layer d e.bytes s)
  unfolding forget_layer
  forget_layer-IsAccounted d e s f h = record {
    layers_distinct = erase-IsDict d s.layers h.layers_distinct;
    images_keyed = h.images_keyed;
    balance = omega (arith, total-erase (λ x. x.bytes) d e s.layers f, h.balance);
  }

  pub forget_image-IsAccounted :
      (v : ImageEntry) (s : Store)
      → find v.rec.id s.images ≡ some v
      → IsAccounted p s
      → IsAccounted p (forget_image v s)
  unfolding forget_image
  forget_image-IsAccounted v s f h = record {
    layers_distinct = h.layers_distinct;
    images_keyed = erase-IsKeyed v.rec.id s.images h.images_keyed;
    balance = omega (arith, total-erase (λ x. x.bytes) v.rec.id v s.images f, h.balance);
  }

  pub IsAccounted-IsKept : IsKept (IsAccounted p)
  IsAccounted-IsKept = record {
    drops = record {
      moved = λ s n h. record {
        layers_distinct = h.layers_distinct;
        images_keyed = h.images_keyed;
        balance = h.balance;
      };
      forgets_layer = λ d e s f _ h. forget_layer-IsAccounted d e s f h;
    };
    keyed = λ s h. h.images_keyed;
    forgets_image = λ v s f _ h. forget_image-IsAccounted v s f h;
  }

  pub make_room-IsAccounted :
      (disk : Disk) (fuel n : ℕ) (s : Store)
      → IsAccounted p s
      → IsAccounted p (make_room disk fuel n s)
  make_room-IsAccounted disk fuel n s h =
      make_room-holds (IsAccounted p) IsAccounted-IsKept disk fuel n s h

  pub own-IsAccounted :
      (t : Option ℕ) (f : ℕ → ℕ) (s : Store) → IsAccounted p s → IsAccounted p (own t f s)
  own-IsAccounted none f s h = h
  own-IsAccounted (some i) f s h = record {
    layers_distinct = h.layers_distinct;
    images_keyed = h.images_keyed;
    balance = h.balance;
  }

pub charge-IsAccounted :
    (p : ℕ) (t : Option ℕ) (n : ℕ) (s : Store)
    → IsAccounted p s
    → IsAccounted (p + n) (charge t n s)
unfolding charge
charge-IsAccounted p t n s h = own-IsAccounted (p + n) t _ _ (record {
  layers_distinct = h.layers_distinct;
  images_keyed = h.images_keyed;
  balance = omega (arith, h.balance);
})

-- What a reservation leaves charged, and what a release gives back.
abbrev pub charged : ℕ → ℕ
charged n = if is_not_positive n then 0 else n

abbrev pub granted : Result CacheError (Unit {0}) → ℕ → ℕ
granted (ok _) n = charged n
granted (err _) n = 0

pub same_pending : (p q : ℕ) (s : Store) → p ≡ q → IsAccounted p s → IsAccounted q s
same_pending p q s e h = rw (← e) h

-- A count of bytes as the file system reports it: an int64 that is not negative.
pub charged_size : (n : ℕ) → n < 2 ^ 63 → charged n ≡ n
charged_size n z = ground arith

-- The four ways through `reserve`.
pub reserve_holds :
    (P : Store × Result CacheError (Unit {0}) → Type 0) (disk : Disk) (t : Option ℕ) (n : ℕ)
    (s : Store)
    → (is_not_positive n ≡ true → P (s, ok tt))
    → (refused t n s ≡ true → P (s, err cache_full))
    → P (make_room disk (length s.images) n s, err cache_full)
    → (is_not_positive n ≡ false
        → lt64
            (make_room disk (length s.images) n s).max
            (add64 (make_room disk (length s.images) n s).accounted n)
          ≡ false
        → P (charge t n (make_room disk (length s.images) n s), ok tt))
    → P (reserve disk t n s)
unfolding reserve
reserve_holds P disk t n s h k l m =
    if_holds P (is_not_positive n) _ _ h
      (λ z. if_holds P (refused t n s) _ _ k (λ _. if_holds P _ _ _ (λ _. l) (m z)))

pub reserve-IsAccounted :
    (p : ℕ) (disk : Disk) (t : Option ℕ) (n : ℕ) (s : Store)
    → IsAccounted p s
    → IsAccounted (p + granted (reserve disk t n s).1 n) (reserve disk t n s).0
reserve-IsAccounted p disk t n s h =
    let room = make_room-IsAccounted p disk (length s.images) n s h in
    reserve_holds (λ r. IsAccounted (p + granted r.1 n) r.0) disk t n s
      (λ b. same_pending p (p + charged n) s (rw b (omega arith)) h)
      (λ _. same_pending p (p + 0) s (omega arith) h) (same_pending p (p + 0) _ (omega arith) room)
      (λ z _. same_pending (p + n) (p + charged n) _ (rw z refl) (charge-IsAccounted p t n _ room))

pub release-IsAccounted :
    (p : ℕ) (t : Option ℕ) (n : ℕ) (s : Store)
    → IsAccounted (p + charged n) s
    → IsAccounted p (release t n s)
unfolding release
release-IsAccounted p t n s h =
    if_holds (IsAccounted p) (is_not_positive n) _ _
      (λ b. same_pending (p + charged n) p s (rw b (omega arith)) h)
      (λ b.
        let h' = same_pending (p + charged n) (p + n) s (rw b refl) h in
        own-IsAccounted p t _ _ (record {
          layers_distinct = h'.layers_distinct;
          images_keyed = h'.images_keyed;
          balance = omega (arith, h'.balance);
        }))

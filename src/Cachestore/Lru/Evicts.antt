-- ===== src/Cachestore/Lru/Evicts.antt =====
-- What one eviction removes, when eviction ends, and the bound that a reservation keeps.
use layerlens.Base.{
  ℕ, zero, suc, ◌≤◌, ◌≡◌, refl, sym, ap, ◌∙◌, ◌⊎◌, Bool, true, false, Option, none, some, [], ◌∷◌,
  Bytes, arith, length, Bool-cases, inl, inr, if_holds, Result, ok, err, lt64, add64,
}
use layerlens.Base.Dict.{Dict, find, erase}
use layerlens.Cachestore.State.{ImageEntry, Store}
use layerlens.Cachestore.Layout.{LayoutError, image_path_for}
use layerlens.Cachestore.Lru.{
  Disk, forget_image, forget_layer, evict_lru, remove_image, evict_victim, make_room, own, charge,
  reserve, is_not_positive,
}
use layerlens.Cachestore.Lru.Victim.{IsKeyed, IsLru, victim-IsLru}
use layerlens.Cachestore.Lru.Rule.{SurvivesDrops, IsKept, drop_layers-holds, make_room-holds}
use layerlens.Cachestore.Lru.Accounts.{erase-IsKeyed, reserve_holds}

HasImages-SurvivesDrops : (d : Dict ImageEntry) → SurvivesDrops (λ s. s.images ≡ d)
unfolding forget_layer
HasImages-SurvivesDrops d = record { moved = λ s n h. h; forgets_layer = λ k e s f u h. h }

-- Nothing was evicted and nothing has changed, or exactly the image that is due is gone.
abbrev pub Evicts : Store → Store × Bool → Type 0
Evicts s (s', false) = s' ≡ s
Evicts s (s', true) =
    (v : ImageEntry) × IsLru s.images (some v) × (s'.images ≡ erase v.rec.id s.images)

remove_image-Evicts :
    (disk : Disk) (v : ImageEntry) (r : Result LayoutError Bytes) (s : Store)
    → IsLru s.images (some v)
    → Evicts s (remove_image disk v r s)
unfolding remove_image forget_image
remove_image-Evicts disk v (err x) s l = (v, l, refl)
remove_image-Evicts disk v (ok path) s l = elim (Bool-cases (disk.removes_record s path)) [
  | inl b ↦ rw b (
    v,
    l,
    drop_layers-holds (λ t. t.images ≡ erase v.rec.id s.images)
        (HasImages-SurvivesDrops (erase v.rec.id s.images)) disk v.rec.layers (forget_image v s)
        refl,
  )
  | inr b ↦ rw b refl
]

evict_victim-Evicts :
    (disk : Disk) (o : Option ImageEntry) (s : Store)
    → IsLru s.images o
    → Evicts s (evict_victim disk o s)
unfolding evict_victim
evict_victim-Evicts disk none s l = refl
evict_victim-Evicts disk (some v) s l =
    remove_image-Evicts disk v (image_path_for s.root v.rec.id) s l

-- On a store whose images stand under their own ids, evictLRULocked either reports no eviction and
-- changes nothing, or removes exactly the least recently used image that is not pinned, the one of
-- the least id among equals, and no other image.
pub evict_lru-Evicts : (disk : Disk) (s : Store) → IsKeyed s.images → Evicts s (evict_lru disk s)
unfolding evict_lru
evict_lru-Evicts disk s k = evict_victim-Evicts disk _ s (victim-IsLru s.images k)

length-erase :
    (k : Bytes) (e : ImageEntry) (d : Dict ImageEntry)
    → find k d ≡ some e
    → suc (length (erase k d)) ≡ length d
unfolding find erase
length-erase k e [] f = absurd (ground (arith, f))
length-erase k e ((j, x) ∷ d) f = ground (arith, length-erase k e d)

-- There is room, or nothing can be evicted.
abbrev pub IsDone : Disk → ℕ → Store → Type 0
IsDone disk n s = (lt64 s.max (add64 s.accounted n) ≡ false) ⊎ ((evict_lru disk s).1 ≡ false)

evicted-IsKeyed :
    (s : Store) (r : Store × Bool) → IsKeyed s.images → Evicts s r → IsKeyed r.0.images
evicted-IsKeyed s (s', false) k e = rw e k
evicted-IsKeyed s (s', true) k (v, l, e) = rw e (erase-IsKeyed v.rec.id s.images k)

evicted-length :
    (s : Store) (r : Store × Bool)
    → Evicts s r
    → r.1 ≡ true
    → suc (length r.0.images) ≡ length s.images
evicted-length s (s', false) e t = absurd (cc)
evicted-length s (s', true) (v, l, e) t = rw e (length-erase v.rec.id v s.images l.0)

evicted_none : (s : Store) (r : Store × Bool) → Evicts s r → r.1 ≡ false → r.0 ≡ s
evicted_none s (s', false) e f = e
evicted_none s (s', true) e f = absurd (cc)

-- On a store whose images stand under their own ids, the loop that makes room ends by its own
-- tests within as many rounds as there are images: there is room then, or nothing can be evicted.
pub make_room-IsDone :
    (disk : Disk) (fuel n : ℕ) (s : Store)
    → IsKeyed s.images
    → length s.images ≤ fuel
    → IsDone disk n (make_room disk fuel n s)
unfolding make_room
make_room-IsDone disk zero n s k l =
    let e = evict_lru-Evicts disk s k in
    elim (Bool-cases (evict_lru disk s).1) [
      | inl b ↦ absurd (omega (arith, evicted-length s (evict_lru disk s) e b))
      | inr b ↦ inr b
    ]
make_room-IsDone disk (suc fuel) n s k l =
    let e = evict_lru-Evicts disk s k in
    elim (Bool-cases (lt64 s.max (add64 s.accounted n))) [
      | inr room ↦ rw (room, make_room) (inl room)
      | inl full ↦
          rw (full, make_room)
            (if_holds (IsDone disk n) (evict_lru disk s).1 _ _
              (λ b.
                make_room-IsDone disk fuel n (evict_lru disk s).0
                  (evicted-IsKeyed s (evict_lru disk s) k e)
                  (omega (arith, evicted-length s (evict_lru disk s) e b)))
              (λ b.
                inr (ap (λ t. (evict_lru disk t).1) (evicted_none s (evict_lru disk s) e b) ∙ b)))
    ]

HasMax-IsKept : (m : ℕ) → IsKept (λ s. IsKeyed s.images × (s.max ≡ m))
unfolding forget_layer forget_image
HasMax-IsKept m = record {
  drops = record { moved = λ s n h. h; forgets_layer = λ k e s f u h. h };
  keyed = λ s h. h.0;
  forgets_image = λ v s f u h. (erase-IsKeyed v.rec.id s.images h.0, h.1);
}

-- The accounted bytes are within the cap, as signed numbers.
abbrev pub IsWithin : ℕ → Store → Type 0
IsWithin max s = lt64 max s.accounted ≡ false

own-IsWithin :
    (m : ℕ) (t : Option ℕ) (f : ℕ → ℕ) (s : Store) → IsWithin m s → IsWithin m (own t f s)
own-IsWithin m none f s h = h
own-IsWithin m (some i) f s h = h

charge-IsWithin :
    (m : ℕ) (t : Option ℕ) (n : ℕ) (s : Store)
    → lt64 m (add64 s.accounted n) ≡ false
    → IsWithin m (charge t n s)
unfolding charge
charge-IsWithin m t n s h =
    own-IsWithin m t (λ b. add64 b n) (record s { accounted = add64 s.accounted n }) h

-- On a store whose images stand under their own ids, a reservation of a positive number of bytes
-- that is granted leaves the accounted bytes, the new ones included, within the cap.
pub reserve-IsWithin :
    (disk : Disk) (t : Option ℕ) (n : ℕ) (s : Store)
    → IsKeyed s.images
    → is_not_positive n ≡ false
    → (reserve disk t n s).1 ≡ ok tt
    → IsWithin s.max (reserve disk t n s).0
reserve-IsWithin disk t n s k positive =
    let room = make_room disk (length s.images) n s in
    let same : room.max ≡ s.max =
      (make_room-holds (λ x. IsKeyed x.images × (x.max ≡ s.max)) (HasMax-IsKept s.max) disk
        (length s.images) n s (k, refl)).1 in
    reserve_holds (λ r. r.1 ≡ ok tt → IsWithin s.max r.0) disk t n s (λ z _. absurd (cc))
      (λ _ e. absurd (cc)) (λ e. absurd (cc))
      (λ _ fits _.
        charge-IsWithin s.max t n room
          (ap (λ m. lt64 m (add64 room.accounted n)) (sym same) ∙ fits))

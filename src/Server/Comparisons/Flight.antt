-- ===== src/Server/Comparisons/Flight.antt =====
-- One assembly for a key at a time, and none for a key that is cached.
use layerlens.Base.{
  ℕ, zero, suc, ◌≤◌, ◌≡◌, refl, ap, ◌∙◌, true, false, Option, none, some, List, [], ◌∷◌, arith,
  length, take, All, AllPairs, All-imp, All-zip, Bool-cases, inl, inr, All-Permᴰ, AllPairs-Permᴰ,
  length-Permᴰ, Result, ok, err, ltb,
}
use mathlib.Core.List.{Permᴰ}
use layerlens.Server.Comparisons.{
  ComparisonKey, key_eq, Comparison, ComparisonCache, new_comparison_cache, pull, lookup_locked,
  insert_locked, has_key, delete_key, promote, insert_after, enter_after, enter, finish,
}
use layerlens.Server.Comparisons.Lookup.{key_eq→eq, key_eq_comm, Pulled, pull-Pulled}

-- Both keys differ.
abbrev pub KeysDiffer : Comparison → Comparison → Type 0
KeysDiffer x y = key_eq x.key y.key ≡ false

KeysDiffer-symm : (x y : Comparison) → KeysDiffer x y → KeysDiffer y x
KeysDiffer-symm x y h = key_eq_comm y.key x.key ∙ h

-- The capacity holds, no key is cached twice or in flight twice, and none is both.
pub record IsSingle (c : ComparisonCache) : Type 0 where
  pub bounded : length c.entries ≤ c.capacity
  pub cached : AllPairs KeysDiffer c.entries
  pub flying : AllPairs (λ j k. key_eq j k ≡ false) c.inflight
  pub apart : All (λ e. has_key e.key c.inflight ≡ false) c.entries

new_comparison_cache-IsSingle : (n : ℕ) → IsSingle (new_comparison_cache n)
new_comparison_cache-IsSingle n = record {
  bounded = omega arith;
  cached = tt;
  flying = tt;
  apart = tt;
}

has_key-congr :
    (j k : ComparisonKey) (ks : List ComparisonKey)
    → key_eq j k ≡ true
    → has_key j ks ≡ has_key k ks
has_key-congr j k ks h = ap (λ i. has_key i ks) (key_eq→eq j k h)

has_key-All :
    (key : ComparisonKey) (ks : List ComparisonKey)
    → has_key key ks ≡ false
    → All (λ k. key_eq key k ≡ false) ks
unfolding has_key
has_key-All key [] h = tt
has_key-All key (k ∷ ks) h = (key_eq_comm key k ∙ ground arith, has_key-All key ks (ground arith))

-- The entry goes to the front.
promoted :
    (c : ComparisonCache) (cmp : Comparison) (others : List Comparison)
    → Permᴰ c.entries (cmp ∷ others)
    → IsSingle c
    → IsSingle (record c { entries = cmp ∷ others })
promoted c cmp others perm h = record {
  bounded = omega (arith, length-Permᴰ perm, h.bounded);
  cached = AllPairs-Permᴰ KeysDiffer KeysDiffer-symm perm h.cached;
  flying = h.flying;
  apart = All-Permᴰ _ perm h.apart;
}

led :
    (key : ComparisonKey) (c : ComparisonCache)
    → All (λ e. key_eq e.key key ≡ false) c.entries
    → has_key key c.inflight ≡ false
    → IsSingle c
    → IsSingle (record c { inflight = key ∷ c.inflight })
unfolding has_key
led key c absent free h = record {
  bounded = h.bounded;
  cached = h.cached;
  flying = (has_key-All key c.inflight free, h.flying);
  apart = All-zip c.entries (λ e a b. ground (arith, key_eq_comm key e.key, a, b)) absent h.apart;
}

enter_after-IsSingle :
    (key : ComparisonKey) (c : ComparisonCache) (o : Option (Comparison × List Comparison))
    → Pulled key c.entries o
    → IsSingle c
    → IsSingle (enter_after key c (promote c.entries o)).1
enter_after-IsSingle key c none p h = elim (Bool-cases (has_key key c.inflight)) [
  | inl q ↦ rw q h
  | inr q ↦ rw q (led key c p q h)
]
enter_after-IsSingle key c (some (cmp, others)) p h = promoted c cmp others p.1 h

pub enter-IsSingle :
    (key : ComparisonKey) (c : ComparisonCache) → IsSingle c → IsSingle (enter key c).1
unfolding enter lookup_locked
enter-IsSingle key c h =
    enter_after-IsSingle key c (pull key c.entries) (pull-Pulled key c.entries) h

delete_key-All {κ} :
    (P : ComparisonKey → Type κ) (key : ComparisonKey) (ks : List ComparisonKey)
    → All P ks
    → All P (delete_key key ks)
unfolding delete_key
delete_key-All P key [] h = tt
delete_key-All P key (k ∷ ks) h = elim (Bool-cases (key_eq k key)) [
  | inl p ↦ rw p (delete_key-All P key ks h.1)
  | inr p ↦ rw p (h.0, delete_key-All P key ks h.1)
]

delete_key-AllPairs :
    (key : ComparisonKey) (ks : List ComparisonKey)
    → AllPairs (λ j k. key_eq j k ≡ false) ks
    → AllPairs (λ j k. key_eq j k ≡ false) (delete_key key ks)
unfolding delete_key
delete_key-AllPairs key [] h = tt
delete_key-AllPairs key (k ∷ ks) h = elim (Bool-cases (key_eq k key)) [
  | inl p ↦ rw p (delete_key-AllPairs key ks h.1)
  | inr p ↦
      rw p (delete_key-All (λ j. key_eq k j ≡ false) key ks h.0, delete_key-AllPairs key ks h.1)
]

has-delete_key :
    (j key : ComparisonKey) (ks : List ComparisonKey)
    → has_key j ks ≡ false
    → has_key j (delete_key key ks) ≡ false
unfolding has_key delete_key
has-delete_key j key [] h = refl
has-delete_key j key (k ∷ ks) h = ground (arith, has-delete_key j key ks)

-- The key that landed is not in flight.
has-deleted :
    (key : ComparisonKey) (ks : List ComparisonKey) → has_key key (delete_key key ks) ≡ false
unfolding has_key delete_key
has-deleted key [] = refl
has-deleted key (k ∷ ks) = ground (arith, has-deleted key ks)

landed :
    (key : ComparisonKey) (c : ComparisonCache)
    → IsSingle c
    → IsSingle (record c { inflight = delete_key key c.inflight })
landed key c h = record {
  bounded = h.bounded;
  cached = h.cached;
  flying = delete_key-AllPairs key c.inflight h.flying;
  apart = All-imp c.entries (λ e a. has-delete_key e.key key c.inflight a) h.apart;
}

take-All {κ} :
    (P : Comparison → Type κ) (n : ℕ) (es : List Comparison) → All P es → All P (take n es)
take-All P zero es h = tt
take-All P (suc n) [] h = tt
take-All P (suc n) (e ∷ es) h = (h.0, take-All P n es h.1)

take-AllPairs :
    (n : ℕ) (es : List Comparison) → AllPairs KeysDiffer es → AllPairs KeysDiffer (take n es)
take-AllPairs zero es h = tt
take-AllPairs (suc n) [] h = tt
take-AllPairs (suc n) (e ∷ es) h = (take-All (KeysDiffer e) n es h.0, take-AllPairs n es h.1)

length-take_le : (n : ℕ) (es : List Comparison) → length (take n es) ≤ n
length-take_le zero es = omega arith
length-take_le (suc n) [] = omega arith
length-take_le (suc n) (e ∷ es) = omega (arith, length-take_le n es)

insert_after-IsSingle :
    (cmp : Comparison) (c : ComparisonCache) (o : Option (Comparison × List Comparison))
    → Pulled cmp.key c.entries o
    → has_key cmp.key c.inflight ≡ false
    → IsSingle c
    → IsSingle (record c { entries = insert_after c.capacity cmp (promote c.entries o) })
insert_after-IsSingle cmp c (some (e, others)) p f h = promoted c e others p.1 h
insert_after-IsSingle cmp c none p f h =
    let fresh : AllPairs KeysDiffer (cmp ∷ c.entries) =
      (All-imp c.entries (λ e a. key_eq_comm cmp.key e.key ∙ a) p, h.cached) in
    let free : All (λ e. has_key e.key c.inflight ≡ false) (cmp ∷ c.entries) = (f, h.apart) in
    elim (Bool-cases (ltb c.capacity (suc (length c.entries)))) [
      | inl q ↦ rw q (record {
        bounded = length-take_le c.capacity (cmp ∷ c.entries);
        cached = take-AllPairs c.capacity (cmp ∷ c.entries) fresh;
        flying = h.flying;
        apart = take-All _ c.capacity (cmp ∷ c.entries) free;
      })
      | inr q ↦
          rw q (record { bounded = ground arith; cached = fresh; flying = h.flying; apart = free })
    ]

-- An assembly makes the comparison of the key that it is for.
abbrev pub IsFor {ℓ} : {E : Type ℓ} → ComparisonKey → Result E Comparison → Type 0
IsFor key (ok cmp) = cmp.key ≡ key
IsFor key (err e) = Unit

pub finish-IsSingle {ℓ} :
    {E : Type ℓ} (key : ComparisonKey) (r : Result E Comparison) (c : ComparisonCache)
    → IsFor key r
    → IsSingle c
    → IsSingle (finish key r c)
unfolding finish insert_locked lookup_locked
finish-IsSingle key (ok cmp) c f h =
    insert_after-IsSingle cmp (record c { inflight = delete_key key c.inflight })
      (pull cmp.key c.entries) (pull-Pulled cmp.key c.entries)
      (ap (λ k. has_key k (delete_key key c.inflight)) f ∙ has-deleted key c.inflight)
      (landed key c h)
finish-IsSingle key (err e) c f h = landed key c h

-- The states that callers can bring the cache to, whatever the order in which they take the lock.
pub data Reached {ℓ} (E : Type ℓ) (capacity : ℕ) : ComparisonCache → Type ℓ where
  start : Reached E capacity (new_comparison_cache capacity)
  entered :
      {c : ComparisonCache} (key : ComparisonKey)
      → Reached E capacity c
      → Reached E capacity (enter key c).1
  finished :
      {c : ComparisonCache} (key : ComparisonKey) (r : Result E Comparison)
      → has_key key c.inflight ≡ true
      → IsFor key r
      → Reached E capacity c
      → Reached E capacity (finish key r c)

-- In every state that callers can bring it to, the cache holds no more than its capacity, no key is
-- cached twice or assembled twice at once, and none that is cached is being assembled.
pub Reached-IsSingle {ℓ} :
    {E : Type ℓ} {capacity : ℕ} {c : ComparisonCache} → Reached E capacity c → IsSingle c
Reached-IsSingle {capacity} start = new_comparison_cache-IsSingle capacity
Reached-IsSingle (entered {c} key r) = enter-IsSingle key c (Reached-IsSingle r)
Reached-IsSingle (finished {c} key r k f h) = finish-IsSingle key r c f (Reached-IsSingle h)

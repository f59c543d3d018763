-- ===== src/Server/Comparisons/Uses.antt =====
-- The cache of comparisons over all that callers have used.
use layerlens.Base.{
  ℕ, zero, suc, ◌≡◌, refl, ap, ◌∙◌, true, false, Option, none, some, List, [], ◌∷◌, arith,
  All-Permᴰ, Bool-cases, inl, inr, ok, err,
}
use layerlens.Server.Comparisons.{
  ComparisonKey, Comparison, ComparisonCache, new_comparison_cache, pull, promote, lookup_locked,
  insert_locked, has_key, Entered, enter_after, enter, finish, hit, waiter, leader,
}
use layerlens.Server.Comparisons.Lookup.{key_eq→eq, Pulled, pull-Pulled}
use layerlens.Server.Comparisons.Flight.{
  IsSingle, Reached, start, entered, finished, Reached-IsSingle,
}
use layerlens.Server.Comparisons.Recent.{recent, Recalls, used_hit, used_insert}

-- A hit is a use.
abbrev pub noted : Entered → List Comparison → List Comparison
noted (hit cmp) h = cmp ∷ h
noted waiter h = h
noted leader h = h

-- The states that callers bring the cache to, with what they have used.
pub data Used {ℓ} (E : Type ℓ) (n : ℕ) : List Comparison → ComparisonCache → Type ℓ where
  opened : Used E n [] (new_comparison_cache n)
  called :
      {h : List Comparison} {c : ComparisonCache} (key : ComparisonKey)
      → Used E n h c
      → Used E n (noted (enter key c).0 h) (enter key c).1
  landed :
      {h : List Comparison} {c : ComparisonCache} (key : ComparisonKey) (cmp : Comparison)
      → has_key key c.inflight ≡ true
      → cmp.key ≡ key
      → Used E n h c
      → Used E n (cmp ∷ h) (finish {E = E} key (ok cmp) c)
  failed :
      {h : List Comparison} {c : ComparisonCache} (key : ComparisonKey) (e : E)
      → has_key key c.inflight ≡ true
      → Used E n h c
      → Used E n h (finish key (err e) c)

Used-Reached {ℓ} :
    {E : Type ℓ} {n : ℕ} {h : List Comparison} {c : ComparisonCache} → Used E n h c → Reached E n c
Used-Reached opened = start
Used-Reached (called key u) = entered key (Used-Reached u)
Used-Reached (landed key cmp k f u) = finished key (ok cmp) k f (Used-Reached u)
Used-Reached (failed key e k u) = finished key (err e) k tt (Used-Reached u)

-- The capacity stays, and the entries are the most recent ones.
abbrev Holds : ℕ → List Comparison → ComparisonCache → Type 0
Holds n h c = (c.capacity ≡ n) × Recalls n h c.entries

enter_after-Holds :
    (n : ℕ) (key : ComparisonKey) (h : List Comparison) (c : ComparisonCache)
    (o : Option (Comparison × List Comparison))
    → pull key c.entries ≡ o
    → Holds n h c
    → Holds n
        (noted (enter_after key c (promote c.entries o)).0 h)
        (enter_after key c (promote c.entries o)).1
enter_after-Holds n key h c none e (k, r) = elim (Bool-cases (has_key key c.inflight)) [
  | inl p ↦ rw p (k, r)
  | inr p ↦ rw p (k, r)
]
enter_after-Holds n key h c (some (cmp, others)) e (k, r) =
    (k, used_hit n key h c.entries cmp others r e)

not_cached :
    (key : ComparisonKey) (c : ComparisonCache) (o : Option (Comparison × List Comparison))
    → Pulled key c.entries o
    → IsSingle c
    → has_key key c.inflight ≡ true
    → o ≡ none
not_cached key c none p s f = refl
not_cached key c (some (e, others)) (k, perm) s f =
    let free : has_key e.key c.inflight ≡ false = (All-Permᴰ _ perm s.apart).0 in
    absurd (ground (arith, ap (λ i. has_key i c.inflight) (key_eq→eq e.key key k)))

nothing_recent : (n : ℕ) → Recalls n [] []
unfolding recent
nothing_recent zero = refl
nothing_recent (suc n) = refl

Used-Holds {ℓ} :
    {E : Type ℓ} {n : ℕ} {h : List Comparison} {c : ComparisonCache} → Used E n h c → Holds n h c
unfolding enter finish lookup_locked
Used-Holds {n} opened = (refl, nothing_recent n)
Used-Holds {n} (called {h} {c} key u) =
    enter_after-Holds n key h c (pull key c.entries) refl (Used-Holds u)
Used-Holds {n} (landed {h} {c} key cmp k f u) =
    let (cap, r) = Used-Holds u in
    let absent =
      not_cached cmp.key c (pull cmp.key c.entries) (pull-Pulled cmp.key c.entries)
        (Reached-IsSingle (Used-Reached u)) (ap (λ i. has_key i c.inflight) f ∙ k) in
    (cap, ap (λ i. insert_locked i cmp c.entries) cap ∙ used_insert n h c.entries cmp r absent)
Used-Holds (failed key e k u) = Used-Holds u

-- Whatever callers do in whatever order: the cached comparisons are the most recently used ones, as
-- many as the capacity allows, in the order of their last use.
pub Used-Recalls {ℓ} :
    {E : Type ℓ} {n : ℕ} {h : List Comparison} {c : ComparisonCache}
    → Used E n h c
    → Recalls n h c.entries
Used-Recalls u = (Used-Holds u).1

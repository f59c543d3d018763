-- ===== src/Server/Comparisons/Recent.antt =====
-- The cache holds the most recently used comparisons.
use layerlens.Base.{
  ℕ, zero, suc, ◌≤◌, ◌≡◌, refl, ap, ◌∙◌, sym, true, false, Option, none, some, List, [], ◌∷◌, arith,
  length, take, All, AllPairs, All-imp, take_all, Bool-cases, inl, inr, ltb, if◌then◌else◌,
}
use layerlens.Server.Comparisons.{
  ComparisonKey, key_eq, Comparison, pull, lookup_locked, insert_locked,
}
use layerlens.Server.Comparisons.Lookup.{key_eq→eq, key_eq_comm}
use layerlens.Server.Comparisons.Flight.{KeysDiffer}

-- Without the comparisons of a key.
unfoldable pub without : ComparisonKey → List Comparison → List Comparison
without key [] = []
without key (e ∷ es) = let rest = without key es in if key_eq e.key key then rest else e ∷ rest

-- What was used, most recent first, each key once.
unfoldable pub recent : List Comparison → List Comparison
unfolding without
recent [] = []
recent (c ∷ h) = c ∷ without c.key (recent h)

without-All {κ} :
    (P : Comparison → Type κ) (key : ComparisonKey) (es : List Comparison)
    → All P es
    → All P (without key es)
unfolding without
without-All P key [] h = tt
without-All P key (e ∷ es) h = elim (Bool-cases (key_eq e.key key)) [
  | inl p ↦ rw p (without-All P key es h.1)
  | inr p ↦ rw p (h.0, without-All P key es h.1)
]

without-AllPairs :
    (key : ComparisonKey) (es : List Comparison)
    → AllPairs KeysDiffer es
    → AllPairs KeysDiffer (without key es)
unfolding without
without-AllPairs key [] h = tt
without-AllPairs key (e ∷ es) h = elim (Bool-cases (key_eq e.key key)) [
  | inl p ↦ rw p (without-AllPairs key es h.1)
  | inr p ↦ rw p (without-All (KeysDiffer e) key es h.0, without-AllPairs key es h.1)
]

without_differs :
    (key : ComparisonKey) (es : List Comparison)
    → All (λ e. key_eq key e.key ≡ false) (without key es)
unfolding without
without_differs key [] = tt
without_differs key (e ∷ es) = elim (Bool-cases (key_eq e.key key)) [
  | inl p ↦ rw p (without_differs key es)
  | inr p ↦ rw p (key_eq_comm key e.key ∙ p, without_differs key es)
]

recent-AllPairs : (h : List Comparison) → AllPairs KeysDiffer (recent h)
unfolding recent
recent-AllPairs [] = tt
recent-AllPairs (c ∷ h) =
    (without_differs c.key (recent h), without-AllPairs c.key (recent h) (recent-AllPairs h))

without_absent :
    (key : ComparisonKey) (es : List Comparison)
    → All (λ e. key_eq e.key key ≡ false) es
    → without key es ≡ es
unfolding without
without_absent key [] h = refl
without_absent key (e ∷ es) h = rw (h.0, without_absent key es h.1) refl

-- What the lookup of a key finds in the first `n` of `u`.
abbrev Found : ComparisonKey → ℕ → List Comparison → Option (Comparison × List Comparison) → Type 0
Found key n u none = (m : ℕ) → suc m ≡ n → take m (take n u) ≡ take m (without key u)
Found key n u (some (c, others)) =
    (key_eq c.key key ≡ true) × (1 ≤ n) × ((m : ℕ) → suc m ≡ n → others ≡ take m (without key u))

cons-miss :
    (key : ComparisonKey) (n : ℕ) (e : Comparison) (u : List Comparison)
    → key_eq e.key key ≡ false
    → ((m : ℕ) → suc m ≡ n → take m (take n u) ≡ take m (without key u))
    → (m : ℕ) → suc m ≡ suc n
    → take m (e ∷ take n u) ≡ take m (without key (e ∷ u))
unfolding without
cons-miss key n e u p h zero q = refl
cons-miss key n e u p h (suc m) q = rw p (ap (λ l. e ∷ l) (h m (omega arith)))

cons-hit :
    (key : ComparisonKey) (n : ℕ) (e : Comparison) (u others : List Comparison)
    → key_eq e.key key ≡ false
    → 1 ≤ n
    → ((m : ℕ) → suc m ≡ n → others ≡ take m (without key u))
    → (m : ℕ) → suc m ≡ suc n
    → e ∷ others ≡ take m (without key (e ∷ u))
unfolding without
cons-hit key n e u others p l h zero q = absurd (omega arith)
cons-hit key n e u others p l h (suc m) q = rw p (ap (λ t. e ∷ t) (h m (omega arith)))

cons-Found :
    (key : ComparisonKey) (n : ℕ) (e : Comparison) (u : List Comparison)
    (o : Option (Comparison × List Comparison))
    → key_eq e.key key ≡ false
    → Found key n u o
    → Found key (suc n) (e ∷ u) (elim o [ none ↦ none | some (c, others) ↦ some (c, e ∷ others) ])
cons-Found key n e u none p h = cons-miss key n e u p h
cons-Found key n e u (some (c, others)) p (k, l, h) =
    (k, omega arith, cons-hit key n e u others p l h)

-- The entry of the key is the first, and no other has it.
first-Found :
    (key : ComparisonKey) (n : ℕ) (e : Comparison) (u : List Comparison)
    → key_eq e.key key ≡ true
    → All (KeysDiffer e) u
    → (m : ℕ) → suc m ≡ suc n
    → take n u ≡ take m (without key (e ∷ u))
unfolding without
first-Found key n e u p h m q =
    let absent : All (λ y. key_eq y.key key ≡ false) u =
      All-imp u
        (λ y d. ap (key_eq y.key) (sym (key_eq→eq e.key key p)) ∙ (key_eq_comm y.key e.key ∙ d))
        h in
    let same : n ≡ m = omega arith in
    rw p (rw (without_absent key u absent) (ap (λ i. take i u) same))

take-Found :
    (key : ComparisonKey) (n : ℕ) (u : List Comparison)
    → AllPairs KeysDiffer u
    → Found key n u (pull key (take n u))
unfolding pull
take-Found key zero u h = λ m q. absurd (omega arith)
take-Found key (suc n) [] h = λ m q. unfold without in refl
take-Found key (suc n) (e ∷ u) h = elim (Bool-cases (key_eq e.key key)) [
  | inl p ↦ rw p (p, omega arith, first-Found key n e u p h.0)
  | inr p ↦ rw p (cons-Found key n e u (pull key (take n u)) p (take-Found key n u h.1))
]

-- The entries are the `n` most recently used.
abbrev pub Recalls : ℕ → List Comparison → List Comparison → Type 0
Recalls n h es = es ≡ take n (recent h)

take_behind :
    (c : Comparison) (n : ℕ) (key : ComparisonKey) (u others : List Comparison)
    → key_eq c.key key ≡ true
    → 1 ≤ n
    → ((m : ℕ) → suc m ≡ n → others ≡ take m (without key u))
    → c ∷ others ≡ take n (c ∷ without c.key u)
take_behind c zero key u others k l h = absurd (omega arith)
take_behind c (suc n) key u others k l h =
    ap (λ t. c ∷ t) (h n refl ∙ ap (λ i. take n (without i u)) (sym (key_eq→eq c.key key k)))

-- After a hit, and after an assembly that was not cached.
pub used_hit :
    (n : ℕ) (key : ComparisonKey) (h es : List Comparison) (c : Comparison)
    (others : List Comparison)
    → Recalls n h es
    → pull key es ≡ some (c, others)
    → Recalls n (c ∷ h) (c ∷ others)
unfolding recent
used_hit n key h es c others r e =
    let (k, l, f) = rw (sym r, e) at (take-Found key n (recent h) (recent-AllPairs h)) in
    take_behind c n key (recent h) others k l f

take_fresh :
    (n : ℕ) (cmp : Comparison) (u es : List Comparison)
    → es ≡ take n u
    → ((m : ℕ) → suc m ≡ n → take m (take n u) ≡ take m (without cmp.key u))
    → take n (cmp ∷ es) ≡ take n (cmp ∷ without cmp.key u)
take_fresh zero cmp u es r f = refl
take_fresh (suc n) cmp u es r f = ap (λ t. cmp ∷ t) (ap (take n) r ∙ f n refl)

pub used_insert :
    (n : ℕ) (h es : List Comparison) (cmp : Comparison)
    → Recalls n h es
    → pull cmp.key es ≡ none
    → Recalls n (cmp ∷ h) (insert_locked n cmp es)
unfolding recent insert_locked lookup_locked
used_insert n h es cmp r e =
    let f = rw (sym r, e) at (take-Found cmp.key n (recent h) (recent-AllPairs h)) in
    let fresh = take_fresh n cmp (recent h) es r f in
    rw e (elim (Bool-cases (ltb n (suc (length es)))) [
      | inl p ↦ rw p fresh
      | inr p ↦ rw p (sym (take_all n (cmp ∷ es) (ground arith)) ∙ fresh)
    ])

-- ===== src/Server/Paging/Search.antt =====
-- The binary search finds the place where its test turns true.
use layerlens.Base.{
  ℕ, suc, zero, ◌+◌, ◌/◌, ◌≤◌, ◌<◌, ◌≡◌, ◌∙◌, length-append, Bool, true, false, List, [], ◌∷◌, ◌++◌,
  arith, leb, length, All, Bool-cases, inl, inr, ltb,
}
use layerlens.Server.Paging.{search_loop, search, test_at}

search_loop_lem :
    (fuel n k : ℕ) (f : ℕ → Bool) (i j : ℕ)
    → ((h : ℕ) → h < n → f h ≡ leb k h)
    → i ≤ k
    → k ≤ j
    → j ≤ n
    → j ≤ i + fuel
    → search_loop fuel f i j ≡ k
unfolding search_loop
search_loop_lem zero n k f i j t a b c d = omega arith
search_loop_lem (suc fuel) n k f i j t a b c d = elim (Bool-cases (ltb i j)) [
  | inl p ↦
      let h = (i + j) / 2 in
      let e = t h (ground arith) in
      elim (Bool-cases (leb k h)) [
        | inl q ↦
            ground (
              arith,
              search_loop_lem fuel n k f i h t a (ground arith) (ground arith) (ground arith),
            )
        | inr q ↦
            ground (arith, search_loop_lem fuel n k f (suc h) j t (ground arith) b c (ground arith))
      ]
  | inr p ↦ ground arith
]

-- A test that is false on the first elements and true on the others.
split_test {ℓ} :
    {A : Type ℓ} (p : A → Bool) (xs ys : List A)
    → All (λ x. p x ≡ false) xs
    → All (λ y. p y ≡ true) ys
    → (h : ℕ) → h < length (xs ++ ys)
    → test_at p (xs ++ ys) h ≡ leb (length xs) h
split_test p [] [] a b h l = absurd (omega arith)
split_test p [] (y ∷ ys) a b zero l = b.0 ∙ ground arith
split_test p [] (y ∷ ys) a b (suc h) l = split_test p [] ys tt b.1 h (omega arith) ∙ ground arith
split_test p (x ∷ xs) ys a b zero l = a.0 ∙ ground arith
split_test p (x ∷ xs) ys a b (suc h) l = split_test p xs ys a.1 b h (omega arith) ∙ ground arith

pub search-test_at {ℓ} :
    {A : Type ℓ} (p : A → Bool) (xs ys : List A)
    → All (λ x. p x ≡ false) xs
    → All (λ y. p y ≡ true) ys
    → search (length (xs ++ ys)) (test_at p (xs ++ ys)) ≡ length xs
unfolding search
search-test_at p xs ys a b =
    search_loop_lem (length (xs ++ ys)) (length (xs ++ ys)) (length xs) (test_at p (xs ++ ys)) 0
      (length (xs ++ ys)) (split_test p xs ys a b) (omega arith)
      (omega (arith, length-append xs ys)) (omega arith) (omega arith)

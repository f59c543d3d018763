-- ===== src/Base/Sort/Order.antt =====
-- What a sort does under a strict weak order: its result ascends, and does not depend on the
-- order of its input where all elements are apart.
use Prim.Native.Nat.{suc}
use mathlib.Core.Path.{◌≡◌, refl, ap, subst, ◌∙◌}
use mathlib.Core.Logic.{◌⊎◌, inl, inr, ∥∥₁_elim}
use mathlib.Core.Bool.{Bool, true, false}
use mathlib.Core.List.{List, [], ◌∷◌, map, Perm, Permᴰ}
use native.Mathlib.Omega.{arith}
use layerlens.Base.Tests.{Bool-cases}
use layerlens.Base.Lists.{All, In, AllPairs, length}
use layerlens.Base.Sort.Defs.{sort_insert, sort}

pub record IsWeakOrder {ℓ} {A : Type ℓ} (less : A → A → Bool) : Type ℓ where
  pub asymm : (x y : A) → less x y ≡ true → less y x ≡ false
  pub chain : (x y z : A) → less y x ≡ false → less z y ≡ false → less z x ≡ false

-- Permutation keeps a predicate of all elements, and a symmetric relation of all pairs.
module _ {ℓ κ} {A : Type ℓ} where
  pub All-Permᴰ : (P : A → Type κ) {l m : List A} → Permᴰ l m → All P l → All P m
  All-Permᴰ P Permᴰ.nil h = h
  All-Permᴰ P (Permᴰ.cons e p) h = (rw e at h.0, All-Permᴰ P p h.1)
  All-Permᴰ P (Permᴰ.swap e f) h = (rw f at h.1.0, (rw e at h.0, h.1.1))
  All-Permᴰ P (Permᴰ.trans p q) h = All-Permᴰ P q (All-Permᴰ P p h)

  pub All-imp : {P Q : A → Type κ} (l : List A) → ((x : A) → P x → Q x) → All P l → All Q l
  All-imp [] f h = tt
  All-imp (x ∷ l) f h = (f x h.0, All-imp l f h.1)

  pub AllPairs-Permᴰ :
      (R : A → A → Type κ)
      → ((x y : A) → R x y → R y x)
      → {l m : List A} → Permᴰ l m
      → AllPairs R l
      → AllPairs R m
  AllPairs-Permᴰ R symm Permᴰ.nil h = h
  AllPairs-Permᴰ R symm (Permᴰ.cons {l₂ = m} e p) h =
      (subst (λ x. All (R x) m) e (All-Permᴰ (R _) p h.0), AllPairs-Permᴰ R symm p h.1)
  AllPairs-Permᴰ R symm (Permᴰ.swap {a} {b} {l = l} e f) h = (
    (rw (← e, ← f) (symm a b h.0.0), subst (λ x. All (R x) l) f h.1.0),
    (subst (λ x. All (R x) l) e h.0.1, h.1.1),
  )
  AllPairs-Permᴰ R symm (Permᴰ.trans p q) h = AllPairs-Permᴰ R symm q (AllPairs-Permᴰ R symm p h)

pub length-Permᴰ {ℓ} : {A : Type ℓ} {l m : List A} → Permᴰ l m → length l ≡ length m
length-Permᴰ Permᴰ.nil = refl
length-Permᴰ (Permᴰ.cons e p) = ap suc (length-Permᴰ p)
length-Permᴰ (Permᴰ.swap e f) = refl
length-Permᴰ (Permᴰ.trans p q) = length-Permᴰ p ∙ length-Permᴰ q

module _ {ℓ} {A : Type ℓ} (less : A → A → Bool) where
  -- Each later element is not less than an earlier one.
  abbrev pub IsSorted : List A → Type 0
  IsSorted = AllPairs (λ x y. less y x ≡ false)

  -- One of the two is less than the other.
  abbrev pub Apart : A → A → Type 0
  Apart x y = (less x y ≡ true) ⊎ (less y x ≡ true)

  pub Apart-symm : (x y : A) → Apart x y → Apart y x
  Apart-symm x y (inl h) = inr h
  Apart-symm x y (inr h) = inl h

  sort_insert-All {κ} :
      (P : A → Type κ) (x : A) (l : List A) → P x → All P l → All P (sort_insert less x l)
  unfolding sort_insert
  sort_insert-All P x [] h hs = (h, hs)
  sort_insert-All P x (y ∷ l) h hs = elim (Bool-cases (less y x)) [
    | inl p ↦ rw p (hs.0, sort_insert-All P x l h hs.1)
    | inr p ↦ rw p (h, hs)
  ]

  pub sort-All {κ} : (P : A → Type κ) (l : List A) → All P l → All P (sort less l)
  unfolding sort
  sort-All P [] h = tt
  sort-All P (x ∷ l) h = sort_insert-All P x (sort less l) h.0 (sort-All P l h.1)

  sort_insert-AllPairs {κ} :
      (R : A → A → Type κ)
      → ((x y : A) → R x y → R y x)
      → (x : A) (l : List A) → All (R x) l
      → AllPairs R l
      → AllPairs R (sort_insert less x l)
  unfolding sort_insert
  sort_insert-AllPairs R symm x [] h k = (tt, tt)
  sort_insert-AllPairs R symm x (y ∷ l) h k = elim (Bool-cases (less y x)) [
    | inl p ↦
        rw p (sort_insert-All (R y) x l (symm x y h.0) k.0, sort_insert-AllPairs R symm x l h.1 k.1)
    | inr p ↦ rw p (h, k)
  ]

  -- A symmetric relation of all pairs stays.
  pub sort-AllPairs {κ} :
      (R : A → A → Type κ)
      → ((x y : A) → R x y → R y x)
      → (l : List A) → AllPairs R l
      → AllPairs R (sort less l)
  unfolding sort
  sort-AllPairs R symm [] h = tt
  sort-AllPairs R symm (x ∷ l) h =
      sort_insert-AllPairs R symm x (sort less l) (sort-All (R x) l h.0)
        (sort-AllPairs R symm l h.1)

  module _ (w : IsWeakOrder less) where
    less_trans : (x y z : A) → less x y ≡ true → less y z ≡ true → less x z ≡ true
    less_trans x y z h k = ground (arith, w.asymm y z k, w.chain y z x)

    insert_comm :
        (x y : A) (l : List A)
        → Apart x y
        → sort_insert less x (sort_insert less y l) ≡ sort_insert less y (sort_insert less x l)
    unfolding sort_insert
    insert_comm x y [] a = ground (arith, w.asymm x y, w.asymm y x)
    insert_comm x y (z ∷ l) a =
        ground
          (arith, w.asymm x y, w.asymm y x, less_trans z x y, less_trans z y x, insert_comm x y l a)

    pub sort-Permᴰ : {l m : List A} → Permᴰ l m → AllPairs Apart l → sort less l ≡ sort less m
    unfolding sort
    sort-Permᴰ Permᴰ.nil h = refl
    sort-Permᴰ (Permᴰ.cons {b = b} e p) h = rw (e, sort-Permᴰ p h.1)
    sort-Permᴰ (Permᴰ.swap {a} {b} {l = l} e f) h =
        rw (← e, ← f) (insert_comm a b (sort less l) h.0.0)
    sort-Permᴰ (Permᴰ.trans p q) h =
        sort-Permᴰ p h ∙ sort-Permᴰ q (AllPairs-Permᴰ Apart Apart-symm p h)

    -- On a list of elements that are apart, the result depends on the elements alone.
    pub sort-eq_of_perm :
        IsSet A → {l m : List A} → Perm l m → AllPairs Apart l → sort less l ≡ sort less m
    sort-eq_of_perm sA {l} {m} p h = ∥∥₁_elim p (hlevel sA) (λ q. sort-Permᴰ q h)

    sort_insert-IsSorted : (x : A) (l : List A) → IsSorted l → IsSorted (sort_insert less x l)
    unfolding sort_insert
    sort_insert-IsSorted x [] s = (tt, tt)
    sort_insert-IsSorted x (y ∷ l) s = elim (Bool-cases (less y x)) [
      | inl p ↦ rw p (
        sort_insert-All (λ z. less z y ≡ false) x l (w.asymm y x p) s.0,
        sort_insert-IsSorted x l s.1,
      )
      | inr p ↦ rw p ((p, All-imp l (λ z q. w.chain x y z p q) s.0), s)
    ]

    -- The result ascends.
    pub sort-IsSorted : (l : List A) → IsSorted (sort less l)
    unfolding sort
    sort-IsSorted [] = tt
    sort-IsSorted (x ∷ l) = sort_insert-IsSorted x (sort less l) (sort-IsSorted l)

    -- A list that ascends is left alone.
    pub sort-eq_of_sorted : (l : List A) → IsSorted l → sort less l ≡ l
    unfolding sort sort_insert
    sort-eq_of_sorted [] s = refl
    sort-eq_of_sorted (x ∷ []) s = refl
    sort-eq_of_sorted (x ∷ y ∷ l) s = rw (sort-eq_of_sorted (y ∷ l) s.1) (rw s.0.0)

-- A map that keeps the order commutes with the sort.
module _ {ℓ} {A : Type ℓ} (less : A → A → Bool) (g : A → A)
    (keeps : (x y : A) → less (g x) (g y) ≡ less x y) where
  sort_insert-map :
      (x : A) (l : List A) → sort_insert less (g x) (map g l) ≡ map g (sort_insert less x l)
  unfolding sort_insert
  sort_insert-map x [] = refl
  sort_insert-map x (y ∷ l) = ground (arith, keeps y x, sort_insert-map x l)

  pub sort-map : (l : List A) → sort less (map g l) ≡ map g (sort less l)
  unfolding sort
  sort-map [] = refl
  sort-map (x ∷ l) = rw (sort-map l) (sort_insert-map x (sort less l))

module _ {A : Type 0} (less : A → A → Bool) where
  sort_insert-In : (a x : A) (l : List A) → (x ≡ a) ⊎ In a l → In a (sort_insert less x l)
  unfolding sort_insert
  sort_insert-In a x [] h = h
  sort_insert-In a x (y ∷ l) h = elim (Bool-cases (less y x)) [
    | inr p ↦ rw p h
    | inl p ↦ rw p (elim h [
      | inl e ↦ inr (sort_insert-In a x l (inl e))
      | inr (inl e) ↦ inl e
      | inr (inr i) ↦ inr (sort_insert-In a x l (inr i))
    ])
  ]

  -- A sort loses no element.
  pub sort-In : (a : A) (l : List A) → In a l → In a (sort less l)
  unfolding sort
  sort-In a [] h = absurd h
  sort-In a (x ∷ l) (inl e) = sort_insert-In a x (sort less l) (inl e)
  sort-In a (x ∷ l) (inr h) = sort_insert-In a x (sort less l) (inr (sort-In a l h))

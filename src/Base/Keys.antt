-- ===== src/Base/Keys.antt =====
-- Lists of distinct strings: the keys of a Go map.
use mathlib.Core.Path.{◌≡◌, refl, ap, sym, ◌∙◌}
use mathlib.Core.Logic.{inl, inr}
use mathlib.Core.Bool.{Bool, true, false, ◌||◌}
use mathlib.Core.List.{List, [], ◌∷◌, Permᴰ}
use mathlib.Core.List.Permᴰ
use native.Mathlib.Omega.{arith}
use layerlens.Base.Tests.{Bool-cases}
use layerlens.Base.Lists.{All, AllPairs, length}
use layerlens.Base.Text.{
  Bytes, bytes_eq, bytes_lt, bytes_eq→eq, bytes_eq_iff, bytes_lt_total, bytes_lt_asymm,
  bytes_lt_trans,
}
use layerlens.Base.Sort.{sort, sort_insert, Apart, IsWeakOrder, All-imp, length-Permᴰ}

unfoldable pub contains : Bytes → List Bytes → Bool
contains k [] = false
contains k (j ∷ l) = bytes_eq j k || contains k l

abbrev pub Distinct : List Bytes → Type 0
Distinct = AllPairs (λ j k. bytes_eq j k ≡ false)

pub bytes_lt-IsWeakOrder : IsWeakOrder bytes_lt
bytes_lt-IsWeakOrder = record {
  asymm = bytes_lt_asymm;
  chain = λ x y z h k. ground (
    arith,
    bytes_lt_trans z x y,
    bytes_lt_total y x,
    bytes_lt_asymm z y,
    bytes_lt_total x y,
    bytes_lt_total y z,
  );
}

pub bytes-Apart : (j k : Bytes) → bytes_eq j k ≡ false → Apart bytes_lt j k
bytes-Apart j k h = elim (Bool-cases (bytes_lt j k)) [
  | inl p ↦ inl p
  | inr p ↦ elim (Bool-cases (bytes_lt k j)) [
    | inl q ↦ inr q
    | inr q ↦ absurd (ground (arith, bytes_eq_iff j k, bytes_lt_total j k p q))
  ]
]

contains-Permᴰ : (k : Bytes) {l m : List Bytes} → Permᴰ l m → contains k l ≡ contains k m
unfolding contains
contains-Permᴰ k Permᴰ.nil = refl
contains-Permᴰ k (Permᴰ.cons e p) = cc (contains-Permᴰ k p)
contains-Permᴰ k (Permᴰ.swap {a} {b} e f) = ground arith
contains-Permᴰ k (Permᴰ.trans p q) = contains-Permᴰ k p ∙ contains-Permᴰ k q

-- A list with a key is a permutation of the key and the rest.
split_key : (k : Bytes) (l : List Bytes) → contains k l ≡ true → (m : List Bytes) × Permᴰ l (k ∷ m)
unfolding contains
split_key k [] h = absurd (ground arith)
split_key k (j ∷ l) h = elim (Bool-cases (bytes_eq j k)) [
  | inl p ↦ (l, Permᴰ.cons (bytes_eq→eq j k p) (Permᴰ.refl l))
  | inr p ↦
      let (m, q) = split_key k l (ground arith) in
      (j ∷ m, Permᴰ.trans (Permᴰ.cons refl q) (Permᴰ.swap refl refl))
]

contains_rest :
    (k : Bytes) (m a : List Bytes)
    → All (λ j. bytes_eq k j ≡ false) a
    → All (λ j. contains j (k ∷ m) ≡ true) a
    → All (λ j. contains j m ≡ true) a
unfolding contains
contains_rest k m [] d h = tt
contains_rest k m (j ∷ a) d h = (ground arith, contains_rest k m a d.1 h.1)

-- Distinct keys that all occur among as many keys are those keys, in another order.
pub perm_of_subset :
    (a b : List Bytes)
    → Distinct a
    → All (λ j. contains j b ≡ true) a
    → length a ≡ length b
    → Permᴰ a b
perm_of_subset [] [] d h l = Permᴰ.nil
perm_of_subset [] (k ∷ b) d h l = absurd (omega arith)
perm_of_subset (k ∷ a) b d h l =
    let (m, p) = split_key k b h.0 in
    let h' : All (λ j. contains j (k ∷ m) ≡ true) a =
      All-imp a (λ j e. sym (contains-Permᴰ j p) ∙ e) h.1 in
    let q : Permᴰ a m =
      perm_of_subset a m d.1 (contains_rest k m a d.0 h') (omega (arith, length-Permᴰ p)) in
    Permᴰ.trans (Permᴰ.cons refl q) (Permᴰ.symm p)

contains-sort_insert :
    (k j : Bytes) (less : Bytes → Bytes → Bool) (l : List Bytes)
    → contains k (sort_insert less j l) ≡ contains k (j ∷ l)
unfolding contains sort_insert
contains-sort_insert k j less [] = refl
contains-sort_insert k j less (i ∷ l) = ground (arith, contains-sort_insert k j less l)

pub contains-sort :
    (k : Bytes) (less : Bytes → Bytes → Bool) (l : List Bytes)
    → contains k (sort less l) ≡ contains k l
unfolding contains sort
contains-sort k less [] = refl
contains-sort k less (j ∷ l) =
    contains-sort_insert k j less (sort less l)
    ∙ ap (λ b. bytes_eq j k || b) (contains-sort k less l)

-- ===== src/Base/Lists.antt =====
-- Lists measured, indexed and tested by native numbers and Booleans.
use mathlib.Core.Logic.{◌⊎◌, inl, inr}
use Prim.Native.Nat.{ℕ, zero, suc, ◌+◌, ◌≤◌}
use mathlib.Core.Path.{◌≡◌, refl, ap}
use mathlib.Core.Bool.{Bool, true, ◌&&◌}
use mathlib.Core.List.{List, [], ◌∷◌, ◌++◌, map}
use mathlib.Core.Option.{Option, none, some}
use native.Mathlib.Omega.{arith}
use layerlens.Base.Tests.{if◌then◌else◌}

module _ {ℓ} {A : Type ℓ} where
  abbrev pub length : List A → ℕ
  length [] = 0
  length (x ∷ xs) = suc (length xs)

  abbrev pub get_elem? : List A → ℕ → Option A
  get_elem? [] i = none
  get_elem? (x ∷ xs) zero = some x
  get_elem? (x ∷ xs) (suc i) = get_elem? xs i

  abbrev pub take : ℕ → List A → List A
  take zero xs = []
  take (suc n) [] = []
  take (suc n) (x ∷ xs) = x ∷ take n xs

  abbrev pub drop : ℕ → List A → List A
  drop zero xs = xs
  drop (suc n) [] = []
  drop (suc n) (x ∷ xs) = drop n xs

  -- The elements that pass a Boolean test.
  abbrev pub select : (A → Bool) → List A → List A
  select p [] = []
  select p (x ∷ xs) = if p x then x ∷ select p xs else select p xs

  abbrev pub every : (A → Bool) → List A → Bool
  every p [] = true
  every p (x ∷ xs) = p x && every p xs

module _ {ℓ} {A : Type ℓ} where
  pub length-append : (xs ys : List A) → length (xs ++ ys) ≡ length xs + length ys
  length-append [] ys = omega arith
  length-append (x ∷ xs) ys = omega (arith, length-append xs ys)

  pub take-append-drop : (n : ℕ) (xs : List A) → take n xs ++ drop n xs ≡ xs
  take-append-drop zero xs = refl
  take-append-drop (suc n) [] = refl
  take-append-drop (suc n) (x ∷ xs) = ap (◌∷◌ x) (take-append-drop n xs)

  pub length-map {κ} : {B : Type κ} (f : A → B) (xs : List A) → length (map f xs) ≡ length xs
  length-map f [] = refl
  length-map f (x ∷ xs) = ap suc (length-map f xs)

-- A predicate at every element, by recursion: tactics read and build the tuples.
abbrev pub All {ℓ κ} : {A : Type ℓ} → (A → Type κ) → List A → Type κ
All P [] = Unit
All P (x ∷ xs) = P x × All P xs

pub All-append {ℓ κ} :
    {A : Type ℓ} (P : A → Type κ) (xs ys : List A) → All P xs → All P ys → All P (xs ++ ys)
All-append P [] ys hx hy = hy
All-append P (x ∷ xs) ys hx hy = (hx.0, All-append P xs ys hx.1 hy)

-- All elements differ from the given ones, pairwise, by a relation.
abbrev pub AllPairs {ℓ κ} : {A : Type ℓ} → (A → A → Type κ) → List A → Type κ
AllPairs R [] = Unit
AllPairs R (x ∷ xs) = All (R x) xs × AllPairs R xs

pub map-congr {ℓ κ} :
    {A : Type ℓ} {B : Type κ} (f g : A → B) (l : List A)
    → All (λ x. f x ≡ g x) l
    → map f l ≡ map g l
map-congr f g [] h = refl
map-congr f g (x ∷ l) h = cc (h.0, map-congr f g l h.1)

pub every→All {ℓ} :
    {A : Type ℓ} (p : A → Bool) (l : List A) → every p l ≡ true → All (λ x. p x ≡ true) l
every→All p [] h = tt
every→All p (x ∷ l) h = (ground arith, every→All p l (ground arith))

pub All→every {ℓ} :
    {A : Type ℓ} (p : A → Bool) (l : List A) → All (λ x. p x ≡ true) l → every p l ≡ true
All→every p [] h = refl
All→every p (x ∷ l) h = rw h.0 (All→every p l h.1)

pub All-map {ℓ κ μ} :
    {A : Type ℓ} {B : Type κ} (P : B → Type μ) (f : A → B) (l : List A)
    → All (λ x. P (f x)) l
    → All P (map f l)
All-map P f [] h = tt
All-map P f (x ∷ l) h = (h.0, All-map P f l h.1)

pub All-zip {ℓ κ μ ν} :
    {A : Type ℓ} {P : A → Type κ} {Q : A → Type μ} {R : A → Type ν} (l : List A)
    → ((x : A) → P x → Q x → R x)
    → All P l
    → All Q l
    → All R l
All-zip [] f h k = tt
All-zip (x ∷ l) f h k = (f x h.0 k.0, All-zip l f h.1 k.1)

pub All-unmap {ℓ κ μ} :
    {A : Type ℓ} {B : Type κ} (P : B → Type μ) (f : A → B) (l : List A)
    → All P (map f l)
    → All (λ x. P (f x)) l
All-unmap P f [] h = tt
All-unmap P f (x ∷ l) h = (h.0, All-unmap P f l h.1)

pub AllPairs-imp {ℓ κ μ} :
    {A : Type ℓ} {R : A → A → Type κ} {S : A → A → Type μ} (l : List A)
    → ((x y : A) → R x y → S x y)
    → AllPairs R l
    → AllPairs S l
AllPairs-imp [] f h = tt
AllPairs-imp (x ∷ l) f h = (All-zip l (λ y r _. f x y r) h.0 h.0, AllPairs-imp l f h.1)

-- Two lists of one length, related element by element.
abbrev pub AllTwo {ℓ κ} : {A : Type ℓ} {B : Type κ} → (A → B → Type 0) → List A → List B → Type 0
AllTwo R [] [] = Unit
AllTwo R (x ∷ xs) (y ∷ ys) = R x y × AllTwo R xs ys
AllTwo R _ _ = ⊥

abbrev pub replicate {ℓ} : {A : Type ℓ} → ℕ → A → List A
replicate zero a = []
replicate (suc n) a = a ∷ replicate n a

-- A write; out of bounds it changes nothing.
abbrev pub set {ℓ} : {A : Type ℓ} → List A → ℕ → A → List A
set [] i v = []
set (x ∷ xs) zero v = v ∷ xs
set (x ∷ xs) (suc i) v = x ∷ set xs i v

pub drop_all {ℓ} : {A : Type ℓ} (n : ℕ) (xs : List A) → length xs ≤ n → drop n xs ≡ []
drop_all zero [] h = refl
drop_all zero (x ∷ xs) h = absurd (omega arith)
drop_all (suc n) [] h = refl
drop_all (suc n) (x ∷ xs) h = drop_all n xs (omega arith)

pub set-append {ℓ} :
    {A : Type ℓ} (xs ys : List A) (y v : A) → set (xs ++ y ∷ ys) (length xs) v ≡ xs ++ v ∷ ys
set-append [] ys y v = refl
set-append (x ∷ xs) ys y v = ap (◌∷◌ x) (set-append xs ys y v)

pub take_all {ℓ} : {A : Type ℓ} (n : ℕ) (xs : List A) → length xs ≤ n → take n xs ≡ xs
take_all zero [] h = refl
take_all zero (x ∷ xs) h = absurd (omega arith)
take_all (suc n) [] h = refl
take_all (suc n) (x ∷ xs) h = ap (λ l. x ∷ l) (take_all n xs (omega arith))

-- A relation of all pairs, from another and what holds of each element.
pub AllPairs-zip {ℓ κ μ ν} :
    {A : Type ℓ} {P : A → Type κ} {R : A → A → Type μ} {S : A → A → Type ν} (l : List A)
    → ((x y : A) → P x → P y → R x y → S x y)
    → All P l
    → AllPairs R l
    → AllPairs S l
AllPairs-zip [] f h k = tt
AllPairs-zip (x ∷ l) f h k = (All-zip l (λ y. f x y h.0) h.1 k.0, AllPairs-zip l f h.1 k.1)

pub AllPairs-map {ℓ κ μ} :
    {A : Type ℓ} {B : Type κ} (R : B → B → Type μ) (f : A → B) (l : List A)
    → AllPairs (λ x y. R (f x) (f y)) l
    → AllPairs R (map f l)
AllPairs-map R f [] h = tt
AllPairs-map R f (x ∷ l) h = (All-map (R (f x)) f l h.0, AllPairs-map R f l h.1)

pub AllPairs-append {ℓ κ} :
    {A : Type ℓ} (R : A → A → Type κ) (xs ys : List A)
    → AllPairs R xs
    → AllPairs R ys
    → All (λ x. All (R x) ys) xs
    → AllPairs R (xs ++ ys)
AllPairs-append R [] ys hx hy h = hy
AllPairs-append R (x ∷ xs) ys hx hy h =
    (All-append (R x) xs ys hx.0 h.0, AllPairs-append R xs ys hx.1 hy h.1)

-- Two lists, each element of the one with each of the other.
pub All-pairs {ℓ κ μ ν} :
    {A : Type ℓ} {P : A → Type κ} {Q : A → Type μ} (R : A → A → Type ν) (xs ys : List A)
    → ((x y : A) → P x → Q y → R x y)
    → All P xs
    → All Q ys
    → All (λ x. All (R x) ys) xs
All-pairs R [] ys f hx hy = tt
All-pairs R (x ∷ xs) ys f hx hy =
    (All-zip ys (λ y q _. f x y hx.0 q) hy hy, All-pairs R xs ys f hx.1 hy)

-- Among the elements.
abbrev pub In : {A : Type 0} → A → List A → Type 0
In a [] = ⊥
In a (x ∷ xs) = (x ≡ a) ⊎ In a xs

pub In-append : {A : Type 0} (a : A) (xs ys : List A) → In a xs → In a (xs ++ ys)
In-append a [] ys h = absurd h
In-append a (x ∷ xs) ys (inl e) = inl e
In-append a (x ∷ xs) ys (inr h) = inr (In-append a xs ys h)

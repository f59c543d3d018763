-- ===== src/Base/Dict.antt =====
-- A Go map keyed by strings, as an association list; its order stands for none in particular.
use Prim.Native.Nat.{ℕ, ◌+◌}
use mathlib.Core.Path.{◌≡◌, refl}
use mathlib.Core.Logic.{inl, inr}
use mathlib.Core.Option.{Option, none, some}
use mathlib.Core.List.{List, [], ◌∷◌}
use native.Mathlib.Omega.{arith}
use layerlens.Base.Tests.{if◌then◌else◌, Bool-cases}
use layerlens.Base.Lists.{All, AllPairs, length}
use layerlens.Base.Text.{Bytes, bytes_eq, bytes_eq→eq, bytes_eq_iff}

abbrev pub Dict {ℓ} : Type ℓ → Type ℓ
Dict V = List (Bytes × V)

module _ {ℓ} {V : Type ℓ} where
  -- `v, ok := d[k]`
  unfoldable pub find : Bytes → Dict V → Option V
  find k [] = none
  find k ((j, v) ∷ d) = if bytes_eq j k then some v else find k d

  -- `d[k] = v`
  unfoldable pub insert : Bytes → V → Dict V → Dict V
  insert k v [] = (k, v) ∷ []
  insert k v ((j, w) ∷ d) = if bytes_eq j k then (k, v) ∷ d else (j, w) ∷ insert k v d

  -- `delete(d, k)`
  unfoldable pub erase : Bytes → Dict V → Dict V
  erase k [] = []
  erase k ((j, w) ∷ d) = if bytes_eq j k then d else (j, w) ∷ erase k d

  -- The sum of a measure of the values.
  abbrev pub total : (V → ℕ) → Dict V → ℕ
  total f [] = 0
  total f ((_, v) ∷ d) = f v + total f d

  -- No key is listed twice.
  abbrev pub IsDict : Dict V → Type ℓ
  IsDict [] = Unit
  IsDict ((k, _) ∷ d) = (find k d ≡ none) × IsDict d

  pub find-insert :
      (k j : Bytes) (v : V) (d : Dict V)
      → find j (insert k v d) ≡ (if bytes_eq k j then some v else find j d)
  unfolding find insert
  find-insert k j v [] = refl
  find-insert k j v ((i, w) ∷ d) =
      ground (arith, bytes_eq_iff k j, bytes_eq_iff i k, bytes_eq_iff i j, find-insert k j v d)

  pub find-erase :
      (k j : Bytes) (d : Dict V)
      → IsDict d
      → find j (erase k d) ≡ (if bytes_eq k j then none else find j d)
  unfolding find erase
  find-erase k j [] h = ground arith
  find-erase k j ((i, w) ∷ d) h =
      ground (arith, bytes_eq_iff k j, bytes_eq_iff i k, bytes_eq_iff i j, find-erase k j d h.1)

  pub insert-IsDict : (k : Bytes) (v : V) (d : Dict V) → IsDict d → IsDict (insert k v d)
  unfolding find insert
  insert-IsDict k v [] h = (refl, tt)
  insert-IsDict k v ((i, w) ∷ d) h =
      ground
        (arith, bytes_eq_iff i k, bytes_eq_iff k i, insert-IsDict k v d h.1, find-insert k i v d)

  pub erase-IsDict : (k : Bytes) (d : Dict V) → IsDict d → IsDict (erase k d)
  unfolding find erase
  erase-IsDict k [] h = tt
  erase-IsDict k ((i, w) ∷ d) h =
      ground (arith, bytes_eq_iff k i, erase-IsDict k d h.1, find-erase k i d h.1)

  pub total-insert_new :
      (f : V → ℕ) (k : Bytes) (v : V) (d : Dict V)
      → find k d ≡ none
      → total f (insert k v d) ≡ total f d + f v
  unfolding find insert
  total-insert_new f k v [] e = omega arith
  total-insert_new f k v ((i, w) ∷ d) e = ground (arith, total-insert_new f k v d)

  pub total-insert_old :
      (f : V → ℕ) (k : Bytes) (u v : V) (d : Dict V)
      → find k d ≡ some u
      → total f (insert k v d) + f u ≡ total f d + f v
  unfolding find insert
  total-insert_old f k u v [] e = cc
  total-insert_old f k u v ((i, w) ∷ d) e = ground (arith, total-insert_old f k u v d)

  pub total-erase :
      (f : V → ℕ) (k : Bytes) (u : V) (d : Dict V)
      → find k d ≡ some u
      → total f (erase k d) + f u ≡ total f d
  unfolding find erase
  total-erase f k u [] e = cc
  total-erase f k u ((i, w) ∷ d) e = ground (arith, total-erase f k u d)

  -- What holds of every listed entry holds of a found one.
  pub find-All {κ} :
      (P : Bytes → V → Type κ) (k : Bytes) (v : V) (d : Dict V)
      → All (λ p. P p.0 p.1) d
      → find k d ≡ some v
      → P k v
  unfolding find
  find-All P k v [] h e = absurd (ground (arith, e))
  find-All P k v ((j, w) ∷ d) h e = elim (Bool-cases (bytes_eq j k)) [
    | inl p ↦ let q : w ≡ v = ground (arith, rw p at e) in rw (← bytes_eq→eq j k p) (rw (← q) h.0)
    | inr p ↦ find-All P k v d h.1 (rw p at e)
  ]

  pub insert-All {κ} :
      (P : Bytes × V → Type κ) (k : Bytes) (v : V) (d : Dict V)
      → P (k, v)
      → All P d
      → All P (insert k v d)
  unfolding insert
  insert-All P k v [] p h = (p, tt)
  insert-All P k v ((i, w) ∷ d) p h = elim (Bool-cases (bytes_eq i k)) [
    | inl e ↦ rw e (p, h.1)
    | inr e ↦ rw e (h.0, insert-All P k v d p h.1)
  ]

  pub length-insert_new :
      (k : Bytes) (v : V) (d : Dict V) → find k d ≡ none → length (insert k v d) ≡ length d + 1
  unfolding find insert
  length-insert_new k v [] e = omega arith
  length-insert_new k v ((i, w) ∷ d) e = ground (arith, length-insert_new k v d)

  pub length-insert_old :
      (k : Bytes) (u v : V) (d : Dict V) → find k d ≡ some u → length (insert k v d) ≡ length d
  unfolding find insert
  length-insert_old k u v [] e = cc
  length-insert_old k u v ((i, w) ∷ d) e = ground (arith, length-insert_old k u v d)

  find_later :
      (k : Bytes) (v : V) (d l : Dict V)
      → find k d ≡ none
      → All (λ p. find p.0 d ≡ some p.1) l
      → All (λ p. find p.0 ((k, v) ∷ d) ≡ some p.1) l
  unfolding find
  find_later k v d [] h a = tt
  find_later k v d ((j, w) ∷ l) h a =
      (ground (arith, bytes_eq_iff k j, a.0, h), find_later k v d l h a.1)

  -- In a map without repeated keys every listed entry is found.
  pub IsDict-find : (d : Dict V) → IsDict d → All (λ p. find p.0 d ≡ some p.1) d
  unfolding find
  IsDict-find [] h = tt
  IsDict-find ((k, v) ∷ d) h =
      (ground (arith, bytes_eq_iff k k), find_later k v d d h.0 (IsDict-find d h.1))

  find-none : (k : Bytes) (d : Dict V) → find k d ≡ none → All (λ p. ¬ (k ≡ p.0)) d
  unfolding find
  find-none k [] h = tt
  find-none k ((j, v) ∷ d) h = elim (Bool-cases (bytes_eq j k)) [
    | inl e ↦ absurd (ground (arith, h))
    | inr e ↦ (λ q. absurd (ground (arith, bytes_eq_iff j k, q)), find-none k d (rw e at h))
  ]

  pub IsDict-AllPairs : (d : Dict V) → IsDict d → AllPairs (λ p q. ¬ (p.0 ≡ q.0)) d
  IsDict-AllPairs [] h = tt
  IsDict-AllPairs ((k, v) ∷ d) h = (find-none k d h.0, IsDict-AllPairs d h.1)

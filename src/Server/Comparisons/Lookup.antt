-- ===== src/Server/Comparisons/Lookup.antt =====
-- Keys of comparisons, and what the lookup of one finds.
use layerlens.Base.{
  ◌≡◌, refl, true, false, Option, none, some, List, [], ◌∷◌, arith, All, Bool-cases, inl, inr,
  bytes_eq_iff, bytes_eq_refl,
}
use mathlib.Core.List.{Permᴰ}
use mathlib.Core.List.Permᴰ
use layerlens.Server.Comparisons.{ComparisonKey, key_eq, Comparison, pull}

pub key_eq→eq : (j k : ComparisonKey) → key_eq j k ≡ true → j ≡ k
unfolding key_eq
key_eq→eq j k h =
    let left : j.left ≡ k.left = ground (arith, bytes_eq_iff j.left k.left) in
    let right : j.right ≡ k.right = ground (arith, bytes_eq_iff j.right k.right) in
    let left_layers : j.left_layers ≡ k.left_layers = ground arith in
    let right_layers : j.right_layers ≡ k.right_layers = ground arith in
    λ i. record {
      left = left i;
      right = right i;
      left_layers = left_layers i;
      right_layers = right_layers i;
    }

pub key_eq_refl : (k : ComparisonKey) → key_eq k k ≡ true
unfolding key_eq
key_eq_refl k = ground (arith, bytes_eq_refl k.left, bytes_eq_refl k.right)

pub key_eq_comm : (j k : ComparisonKey) → key_eq j k ≡ key_eq k j
unfolding key_eq
key_eq_comm j k = ground (
  arith,
  bytes_eq_iff j.left k.left,
  bytes_eq_iff k.left j.left,
  bytes_eq_iff j.right k.right,
  bytes_eq_iff k.right j.right,
)

-- What `pull` finds: nothing, when no entry has the key, or an entry that has it, and the others.
abbrev pub Pulled : ComparisonKey → List Comparison → Option (Comparison × List Comparison) → Type 0
Pulled key es none = All (λ e. key_eq e.key key ≡ false) es
Pulled key es (some (c, others)) = (key_eq c.key key ≡ true) × Permᴰ es (c ∷ others)

cons-Pulled :
    (key : ComparisonKey) (e : Comparison) (es : List Comparison)
    (o : Option (Comparison × List Comparison))
    → key_eq e.key key ≡ false
    → Pulled key es o
    → Pulled key (e ∷ es) (elim o [ none ↦ none | some (c, others) ↦ some (c, e ∷ others) ])
cons-Pulled key e es none p h = (p, h)
cons-Pulled key e es (some (c, others)) p (k, perm) =
    (k, Permᴰ.trans (Permᴰ.cons refl perm) (Permᴰ.swap refl refl))

pub pull-Pulled : (key : ComparisonKey) (es : List Comparison) → Pulled key es (pull key es)
unfolding pull
pull-Pulled key [] = tt
pull-Pulled key (e ∷ es) = elim (Bool-cases (key_eq e.key key)) [
  | inl p ↦ rw p (p, Permᴰ.refl (e ∷ es))
  | inr p ↦ rw p (cons-Pulled key e es (pull key es) p (pull-Pulled key es))
]

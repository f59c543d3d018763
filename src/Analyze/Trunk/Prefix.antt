-- ===== src/Analyze/Trunk/Prefix.antt =====
-- The trunk is the longest common prefix of well-formed layers.
use layerlens.Base.{
  ℕ, zero, suc, sym, inl, inr, ◌+◌, ◌≤◌, ◌≡◌, true, false, List, [], ◌∷◌, arith, bytes_eq_iff,
  length, take, AllTwo, Bool-cases,
}
use layerlens.Domain.Digest.{is_valid}
use layerlens.Domain.Image.{Layer}
use layerlens.Analyze.Trunk.{forks, trunk_loop, trunk_lcp}

-- Two layers are one cached layer: well formed, and of one DiffID.
abbrev pub SameLayer : Layer → Layer → Type 0
SameLayer x y = (is_valid x.diff_id ≡ true) × (x.diff_id ≡ y.diff_id)

-- The first `k` layers of both images are shared.
abbrev pub SharesPrefix : ℕ → List Layer → List Layer → Type 0
SharesPrefix k a b = (k ≤ length a) × (k ≤ length b) × AllTwo SameLayer (take k a) (take k b)

not-forks : (x y : Layer) → forks x y ≡ false → SameLayer x y
not-forks x y h = (ground arith, ground (arith, bytes_eq_iff x.diff_id y.diff_id))

forks-not : (x y : Layer) → forks x y ≡ true → ¬ SameLayer x y
forks-not x y h s = ground (arith, bytes_eq_iff x.diff_id y.diff_id, s.0, s.1)

trunk_loop-shift : (i : ℕ) (a b : List Layer) → trunk_loop i a b ≡ i + trunk_loop 0 a b
unfolding trunk_loop
trunk_loop-shift i [] b = omega arith
trunk_loop-shift i (x ∷ a) [] = omega arith
trunk_loop-shift i (x ∷ a) (y ∷ b) =
    ground (arith, trunk_loop-shift (suc i) a b, trunk_loop-shift 1 a b)

trunk_lcp-cons :
    (x y : Layer) (a b : List Layer)
    → forks x y ≡ false
    → trunk_lcp (x ∷ a) (y ∷ b) ≡ suc (trunk_lcp a b)
unfolding trunk_lcp
trunk_lcp-cons x y a b h = ground (arith, trunk_loop-shift 1 a b)

trunk_lcp-stop : (x y : Layer) (a b : List Layer) → forks x y ≡ true → trunk_lcp (x ∷ a) (y ∷ b) ≡ 0
unfolding trunk_lcp
trunk_lcp-stop x y a b h = ground arith

trunk_shared : (a b : List Layer) → SharesPrefix (trunk_lcp a b) a b
trunk_shared [] b = unfold trunk_lcp in (omega arith, omega arith, tt)
trunk_shared (x ∷ a) [] = unfold trunk_lcp in (omega arith, omega arith, tt)
trunk_shared (x ∷ a) (y ∷ b) = elim (Bool-cases (forks x y)) [
  | inl p ↦ rw (trunk_lcp-stop x y a b p) (omega arith, omega arith, tt)
  | inr p ↦
      let (la, lb, same) = trunk_shared a b in
      rw (trunk_lcp-cons x y a b p) (omega arith, omega arith, (not-forks x y p, same))
]

trunk_longest : (k : ℕ) (a b : List Layer) → SharesPrefix k a b → k ≤ trunk_lcp a b
trunk_longest zero a b h = omega arith
trunk_longest (suc k) [] b h = absurd (omega arith)
trunk_longest (suc k) (x ∷ a) [] h = absurd (omega arith)
trunk_longest (suc k) (x ∷ a) (y ∷ b) (la, lb, (same, rest)) = elim (Bool-cases (forks x y)) [
  | inl p ↦ absurd (forks-not x y p same)
  | inr p ↦
      rw (trunk_lcp-cons x y a b p)
        (omega (arith, trunk_longest k a b (omega arith, omega arith, rest)))
]

-- So many layers are in both images, pairwise well formed and of one DiffID, and no longer prefix of
-- both is like that.
pub trunk_lcp-IsLongest :
    (a b : List Layer)
    → SharesPrefix (trunk_lcp a b) a b × ((k : ℕ) → SharesPrefix k a b → k ≤ trunk_lcp a b)
trunk_lcp-IsLongest a b = (trunk_shared a b, λ k. trunk_longest k a b)

AllTwo-symm : (a b : List Layer) → AllTwo SameLayer a b → AllTwo SameLayer b a
AllTwo-symm [] [] h = tt
AllTwo-symm [] (y ∷ b) h = absurd h
AllTwo-symm (x ∷ a) [] h = absurd h
AllTwo-symm (x ∷ a) (y ∷ b) h = ((rw h.0.1 at h.0.0, sym h.0.1), AllTwo-symm a b h.1)

SharesPrefix-symm : (k : ℕ) (a b : List Layer) → SharesPrefix k a b → SharesPrefix k b a
SharesPrefix-symm k a b (la, lb, h) = (lb, la, AllTwo-symm (take k a) (take k b) h)

-- The length of the trunk is the same with the images swapped.
pub trunk_lcp_comm : (a b : List Layer) → trunk_lcp a b ≡ trunk_lcp b a
trunk_lcp_comm a b = omega (
  arith,
  trunk_longest (trunk_lcp a b) b a (SharesPrefix-symm _ a b (trunk_shared a b)),
  trunk_longest (trunk_lcp b a) a b (SharesPrefix-symm _ b a (trunk_shared b a)),
)

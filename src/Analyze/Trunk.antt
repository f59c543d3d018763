-- ===== src/Analyze/Trunk.antt =====
-- internal/analyze/trunk.go and chainid.go: the shared trunk, and the chain identities.
pub mod Prefix
pub mod Chain
use layerlens.Base.{
  ℕ, zero, suc, ◌+◌, Bool, not, ◌||◌, Option, none, some, List, [], ◌∷◌, ◌++◌, Bytes, codes, Result,
  ok, err, ◌>>=◌, ◌==◌, if◌then◌else◌, bytes_eq,
}
use layerlens.Domain.Digest.{DigestError, validate, is_valid, digest_from_bytes}
use layerlens.Domain.Image.{Layer}

-- The test that ends the loop.
abbrev pub forks : Layer → Layer → Bool
forks x y = not (is_valid x.diff_id) || not (bytes_eq x.diff_id y.diff_id)

-- The loop at index `i`, over `a[i:]` and `b[i:]`.
unfoldable pub trunk_loop : ℕ → List Layer → List Layer → ℕ
trunk_loop i [] b = i
trunk_loop i (x ∷ a) [] = i
trunk_loop i (x ∷ a) (y ∷ b) = if forks x y then i else trunk_loop (suc i) a b

unfoldable pub trunk_lcp : List Layer → List Layer → ℕ
unfolding trunk_loop
trunk_lcp a b = trunk_loop 0 a b

-- `diff_ids[i]` is malformed.
pub record ChainError : Type 0 where
  pub at : ℕ
  pub cause : DigestError

module _ (sha256 : Bytes → Bytes) where
  unfoldable pub next_chain : ℕ → Bytes → Bytes → Bytes
  next_chain i prev d = if i == 0 then d else digest_from_bytes (sha256 (prev ++ (codes " " ++ d)))

  -- The loop at index `i`: the identities from there on.
  unfoldable pub chain_loop : ℕ → Bytes → List Bytes → Result ChainError (List Bytes)
  unfolding next_chain
  chain_loop i prev [] = ok []
  chain_loop i prev (d ∷ ds) =
      let rest = chain_loop (suc i) (next_chain i prev d) ds in
      elim (validate d) [
        | some e ↦ err (record { at = i; cause = e })
        | none ↦ rest >>= λ out. ok (next_chain i prev d ∷ out)
      ]

  unfoldable pub chain_ids : List Bytes → Result ChainError (List Bytes)
  unfolding chain_loop
  chain_ids diff_ids = chain_loop 0 [] diff_ids

-- ===== src/Base/Integer.antt =====
-- A Go `int` where its sign is tested. `negsuc n` is -(n + 1).
use Prim.Native.Nat.{ℕ}

pub data ℤ : Type 0 where
  pos : ℕ → ℤ
  negsuc : ℕ → ℤ

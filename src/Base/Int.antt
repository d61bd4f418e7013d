-- ===== src/Base/Int.antt =====
-- A Go integer that may be negative and is only carried along, compared or read in decimal.
use Prim.Native.Nat.{ℕ}

-- `negsuc n` is -(n + 1).
pub data ℤ : Type 0 where
  pos : ℕ → ℤ
  negsuc : ℕ → ℤ

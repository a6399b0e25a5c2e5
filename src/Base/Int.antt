-- ===== src/Base/Int.antt =====
-- Signed integers, as the times that may lie before 1970. `negsuc n` is -(n + 1).
use Prim.Native.Nat.{ℕ}

pub data ℤ : Type 0 where
  pos : ℕ → ℤ
  negsuc : ℕ → ℤ

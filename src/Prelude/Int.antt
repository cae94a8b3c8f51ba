-- ===== src/Prelude/Int.antt =====
-- Python integers that may be negative: only the sign and the size are ever looked at.
use Prim.Native.Nat.{ℕ}

-- `negsuc n` is -(n + 1).
pub data ℤ : Type 0 where
  pos : ℕ → ℤ
  negsuc : ℕ → ℤ

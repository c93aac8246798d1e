-- ===== src/Common/Integers.antt =====
-- Signed integers of C that are read from a text: only their sign and size matter here.
use Prim.Native.Nat.{ℕ}

-- `negsuc n` is `- (n + 1)`.
pub data ℤ : Type 0 where
  pos : ℕ → ℤ
  negsuc : ℕ → ℤ

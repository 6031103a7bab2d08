-- ===== src/Base/Ints.antt =====
-- Go's signed numbers, over the native ones.
use Prim.Native.Nat.{ℕ}

pub data ℤ : Type 0 where
  pos negsuc : ℕ → ℤ

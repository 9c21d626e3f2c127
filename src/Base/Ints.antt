-- ===== src/Base/Ints.antt =====
-- The integers on the native numbers, as far as a message can hold a negative one.
use Prim.Native.Nat.{ℕ}

-- `negsuc n` is minus (n + 1).
pub data ℤ : Type 0 where
  pos : ℕ → ℤ
  negsuc : ℕ → ℤ

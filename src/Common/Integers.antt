-- ===== src/Common/Integers.antt =====
-- Integers over the native numbers, for the program's `int` where a negative value is an input.
use Prim.Native.Nat.{ℕ}
use mathlib.Core.Bool.{Bool, true, false, ◌&&◌}
use iskele.Common.Tests.{leb, eqb}

-- `negsuc n` is -(n + 1).
pub data ℤ : Type 0 where
  pos negsuc : ℕ → ℤ

abbrev pub is_negative : ℤ → Bool
is_negative (pos n) = false
is_negative (negsuc n) = true

abbrev pub is_nought : ℤ → Bool
is_nought (pos n) = eqb n 0
is_nought (negsuc n) = false

-- lo <= i && i <= hi
abbrev pub within : ℕ → ℕ → ℤ → Bool
within lo hi (pos n) = leb lo n && leb n hi
within lo hi (negsuc n) = false

-- ===== src/Prelude/Int.antt =====
-- Signed integers over the native numbers, under the library's names, and `cf_int32`.
use Prim.Native.Nat.{ℕ, suc, ◌+◌, ◌-◌, ◌%◌, ◌^◌}
use mathlib.Core.Bool.{Bool}
use cppfastdevelop.Prelude.Tests.{ltb, leb, if◌then◌else◌}

-- `negsuc n` is -(n + 1).
pub data ℤ : Type 0 where
  pos : ℕ → ℤ
  negsuc : ℕ → ℤ

abbrev pub pos_part : ℤ → ℕ
pos_part (pos n) = n
pos_part (negsuc n) = 0

abbrev pub neg_part : ℤ → ℕ
neg_part (pos n) = 0
neg_part (negsuc n) = suc n

-- a - b, as an integer.
abbrev pub sub_ℕ : ℕ → ℕ → ℤ
sub_ℕ a b = if leb b a then pos (a - b) else negsuc (b - a - 1)

infixl 65 ◌-ℤ◌
unfoldable pub ◌-ℤ◌ : ℤ → ℤ → ℤ
a -ℤ b = sub_ℕ (pos_part a + neg_part b) (neg_part a + pos_part b)

abbrev pub ltb_ℤ : ℤ → ℤ → Bool
ltb_ℤ a b = ltb (pos_part a + neg_part b) (pos_part b + neg_part a)

-- The `cf_int32` of the same low 32 bits.
abbrev pub from_bits32 : ℕ → ℤ
from_bits32 r = if ltb r (2 ^ 31) then pos r else negsuc (2 ^ 32 - r - 1)

unfoldable pub to_int32 : ℤ → ℤ
to_int32 (pos n) = from_bits32 (n % 2 ^ 32)
to_int32 (negsuc n) = from_bits32 (2 ^ 32 - 1 - n % 2 ^ 32)

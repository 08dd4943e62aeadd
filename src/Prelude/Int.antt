-- ===== src/Prelude/Int.antt =====
-- Signed results of the C functions, over the native numbers.
use Prim.Native.Nat.{ℕ, ◌+◌, ◌-◌, ◌%◌, ◌^◌}
use mathlib.Core.Bool.{Bool, true, false}
use freecore.Prelude.Tests.{leb, if◌then◌else◌}

-- `negsuc n` is -(n + 1).
pub data ℤ : Type 0 where
  pos : ℕ → ℤ
  negsuc : ℕ → ℤ

-- a - b, as an integer.
abbrev pub sub_ℕ : ℕ → ℕ → ℤ
sub_ℕ a b = if leb b a then pos (a - b) else negsuc (b - a - 1)

-- The error result -1 of the C functions.
abbrev pub minus_one : ℤ
minus_one = negsuc 0

-- x < 0
abbrev pub is_negative : ℤ → Bool
is_negative (pos n) = false
is_negative (negsuc n) = true

abbrev pub neg_ℤ : ℤ → ℤ
neg_ℤ (pos n) = sub_ℕ 0 n
neg_ℤ (negsuc n) = pos (n + 1)

infixl 60 ◌+ℤ◌
abbrev pub ◌+ℤ◌ : ℤ → ℤ → ℤ
pos a +ℤ pos b = pos (a + b)
pos a +ℤ negsuc b = sub_ℕ a (b + 1)
negsuc a +ℤ pos b = sub_ℕ b (a + 1)
negsuc a +ℤ negsuc b = negsuc (a + b + 1)

-- The byte `b` as an `int8_t`.
abbrev pub int8 : ℕ → ℤ
int8 b = if leb 128 b then sub_ℕ b 256 else pos b

-- The word of 32 bits as an `int`, and what is left of a number in an `int`.
abbrev pub int32 : ℕ → ℤ
int32 w = if leb (2 ^ 31) w then sub_ℕ w (2 ^ 32) else pos w

abbrev pub to_int32 : ℤ → ℤ
to_int32 (pos n) = int32 (n % 2 ^ 32)
to_int32 (negsuc n) = int32 (2 ^ 32 - 1 - n % 2 ^ 32)

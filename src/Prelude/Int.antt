-- ===== src/Prelude/Int.antt =====
-- C's signed integers, over the native numbers and under the library's names.
use Prim.Native.Nat.{ℕ, suc, ◌+◌, ◌-◌, ◌%◌, ◌^◌, ◌<◌}
use mathlib.Core.Path.{◌≡◌}
use mathlib.Core.Bool.{Bool, true, false}
use native.Mathlib.Omega.{arith}
use traccoon.Prelude.Tests.{ltb, leb, if◌then◌else◌}

-- `negsuc n` is -(n + 1).
pub data ℤ : Type 0 where
  pos : ℕ → ℤ
  negsuc : ℕ → ℤ

abbrev pub minus_one : ℤ
minus_one = negsuc 0

abbrev pub pos_part : ℤ → ℕ
pos_part (pos n) = n
pos_part (negsuc n) = 0

abbrev pub neg_part : ℤ → ℕ
neg_part (pos n) = 0
neg_part (negsuc n) = suc n

-- a - b, as an integer.
abbrev pub sub_ℕ : ℕ → ℕ → ℤ
sub_ℕ a b = if leb b a then pos (a - b) else negsuc (b - a - 1)

infixl 65 ◌+ℤ◌ ◌-ℤ◌
unfoldable pub ◌+ℤ◌ : ℤ → ℤ → ℤ
a +ℤ b = sub_ℕ (pos_part a + pos_part b) (neg_part a + neg_part b)

unfoldable pub ◌-ℤ◌ : ℤ → ℤ → ℤ
a -ℤ b = sub_ℕ (pos_part a + neg_part b) (neg_part a + pos_part b)

pub +ℤ-pos : (a b : ℕ) → pos a +ℤ pos b ≡ pos (a + b)
unfolding ◌+ℤ◌
+ℤ-pos a b = ground arith

abbrev pub ltb_ℤ : ℤ → ℤ → Bool
ltb_ℤ a b = ltb (pos_part a + neg_part b) (pos_part b + neg_part a)

abbrev pub ==ℤ : ℤ → ℤ → Bool
==ℤ a b = if ltb_ℤ a b then false else if ltb_ℤ b a then false else true

-- The conversion of a wider integer to `int`: its low 32 bits, read in two's complement.
abbrev pub int_of_bits : ℕ → ℤ
int_of_bits w = if ltb w (2 ^ 31) then pos w else negsuc (2 ^ 32 - w - 1)

unfoldable pub to_int : ℤ → ℤ
to_int (pos n) = int_of_bits (n % 2 ^ 32)
to_int (negsuc n) = int_of_bits (2 ^ 32 - 1 - n % 2 ^ 32)

pub to_int-small : (n : ℕ) → n < 2 ^ 31 → to_int (pos n) ≡ pos n
unfolding to_int
to_int-small n h = ground arith

-- The conversion of a natural number to `unsigned`.
unfoldable pub unsigned : ℕ → ℕ
unsigned n = n % 2 ^ 32

pub unsigned-small : (n : ℕ) → n < 2 ^ 32 → unsigned n ≡ n
unfolding unsigned
unsigned-small n h = ground arith

-- The conversion of an `int` to `uint16_t`.
unfoldable pub uint16 : ℤ → ℕ
uint16 (pos n) = n % 2 ^ 16
uint16 (negsuc n) = 2 ^ 16 - 1 - n % 2 ^ 16

pub uint16-small : (z : ℤ) → uint16 z < 2 ^ 16
unfolding uint16
uint16-small (pos n) = omega arith
uint16-small (negsuc n) = omega arith

-- the conversion of an `int` to `size_t`
abbrev pub size_of_int : ℤ → ℕ
size_of_int (pos n) = n
size_of_int (negsuc n) = 2 ^ 64 - 1 - n

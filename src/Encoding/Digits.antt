-- ===== src/Encoding/Digits.antt =====
-- encoding.c: a byte as two hex digits, as the decoders read it and the encoders write it.
use traccoon.Encoding.CharIndex.{digit_value, index_or_minus_one, hexdict}
use traccoon.Memory.{returns, read}
use traccoon.Prelude.{
  ℕ, ◌+◌, ◌-◌, ◌*◌, ◌/◌, ◌%◌, ◌<◌, ◌≡◌, ◌≢◌, Option, none, some, ◌∷◌, Bytes, ltb, if◌then◌else◌, ℤ,
  pos, arith,
}

-- `first!=-1&&second!=-1`, and then `first*16+second` in an unsigned char. `charIndex` returns an
-- index or -1, so the negative numbers are the -1.
pub hex_pair : ℤ → ℤ → Option ℕ
hex_pair (pos a) (pos b) = some ((a * 16 + b) % 256)
hex_pair _ _ = none

-- the byte that two digits stand for
unfoldable pub escape_value : ℕ → ℕ → Option ℕ
escape_value a b = elim (digit_value a) [
  | none ↦ none
  | some x ↦ elim (digit_value b) [ none ↦ none | some y ↦ some (x * 16 + y) ]
]

abbrev pub cons_some : ℕ → Option Bytes → Option Bytes
cons_some v none = none
cons_some v (some d) = some (v ∷ d)

pub hex_pair-escape_value :
    (a b : ℕ)
    → hex_pair (index_or_minus_one (digit_value a)) (index_or_minus_one (digit_value b))
      ≡ escape_value a b
unfolding hex_pair escape_value digit_value
hex_pair-escape_value a b = ground arith

-- the digit that the encoders write for a number below 16
unfoldable pub hex_char : ℕ → ℕ
hex_char v = if ltb v 10 then b'0' + v else b'a' + (v - 10)

pub read-hexdict : (v : ℕ) → v < 16 → read hexdict v ≡ returns (hex_char v)
unfolding read hex_char
read-hexdict v h = ground arith

pub digit_value-hex_char : (v : ℕ) → v < 16 → digit_value (hex_char v) ≡ some v
unfolding digit_value hex_char
digit_value-hex_char v h = ground arith

-- The two digits of a byte stand for the byte.
pub escape_value-hex_char :
    (d : ℕ) → d < 256 → escape_value (hex_char (d / 16)) (hex_char (d % 16)) ≡ some d
unfolding escape_value
escape_value-hex_char d h =
    ground (arith, digit_value-hex_char (d / 16), digit_value-hex_char (d % 16))

pub hex_char-nonzero : (v : ℕ) → hex_char v ≢ 0
unfolding hex_char
hex_char-nonzero v = ground arith

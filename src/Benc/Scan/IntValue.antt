-- ===== src/Benc/Scan/IntValue.antt =====
-- Which integers `benc_int_value` reads.
use traccoon.Benc.Scan.Shape.{int_value-print_int}
use traccoon.Benc.Scan.{int_value}
use traccoon.Benc.Value.{num, encode}
use traccoon.CLib.Decimal.{
  print_int, IsInt, decimal-Digits, length-decimal_small, length-decimal_large,
}
use traccoon.Memory.{returns}
use traccoon.Prelude.{
  suc, ◌≡◌, ap, ◌∙◌, inl, inr, Bool, false, Bool-cases, [], ◌∷◌, ◌++◌, Bytes, length, ltb, leb,
  if◌then◌else◌, ℤ, pos, negsuc, arith, append_assoc,
}

abbrev pub has_one_digit : ℤ → Bool
has_one_digit (pos n) = ltb n 10
has_one_digit (negsuc n) = false

leb-print_int : (z : ℤ) → leb (length (print_int z)) 1 ≡ has_one_digit z
unfolding print_int
leb-print_int (pos n) = elim (Bool-cases (ltb n 10)) [
  | inl small ↦ rw small (ground (arith, length-decimal_small n (ground arith)))
  | inr large ↦ rw large (ground (arith, length-decimal_large n (ground arith)))
]
leb-print_int (negsuc n) = let (c, t, e, _, _) = decimal-Digits (suc n) in rw e (ground arith)

-- `benc_int_value` at an encoded `int`, whatever follows it, returns the integer, but for 0 to 9,
-- where it returns the default: its test for an empty text also refuses a text of one digit.
pub int_value-encode :
    (z : ℤ) (rest : Bytes) (defval : ℤ)
    → IsInt z
    → int_value (encode (num z) ++ rest) defval ≡ returns (if has_one_digit z then defval else z)
int_value-encode z rest defval fits =
    let text : encode (num z) ++ rest ≡ b'i' ∷ (print_int z ++ b'e' ∷ rest) =
      unfold encode in ap (◌∷◌ b'i') (append_assoc (print_int z) (b'e' ∷ []) rest) in
    rw text (
      int_value-print_int z rest defval fits
      ∙ ap (λ b. returns (if b then defval else z)) (leb-print_int z))

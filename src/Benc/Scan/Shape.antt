-- ===== src/Benc/Scan/Shape.antt =====
-- What the scanning functions find in front of an encoded integer or string.
use traccoon.Benc.Scan.{
  t_int, t_string, peek, skip_digits, string_or_fail, entity_type, string_length, find_colon,
  string_data_offset, skip_minus, skip_int, behind_first, int_text_value, int_value,
  int_entity_length, string_entity_length,
}
use traccoon.Benc.Value.{encode_string}
use traccoon.CLib.Decimal.{
  decimal, print_int, IsDigit, Digits, IsInt, decimal-Digits, value-decimal, is_digit_iff,
  strtoul-value, strtol-value, strtol-print_int,
}
use traccoon.CLib.Number.{strtol}
use traccoon.CLib.{is_digit}
use traccoon.Memory.{returns}
use traccoon.Prelude.{
  ℕ, suc, ◌+◌, ◌<◌, ◌≡◌, refl, ap, ◌∙◌, inl, inr, true, false, Bool-cases, ltb, leb, [], ◌∷◌, ◌++◌,
  Bytes, length, All, if◌then◌else◌, ℤ, pos, negsuc, to_int, to_int-small, ◌+ℤ◌, +ℤ-pos, arith,
  append_assoc, length-append,
}

not_digit_colon : is_digit b':' ≡ false
unfolding is_digit
not_digit_colon = refl

not_digit_e : is_digit b'e' ≡ false
unfolding is_digit
not_digit_e = refl

pub skip_digits_lem :
    (s rest : Bytes) (i c : ℕ)
    → All IsDigit s
    → is_digit c ≡ false
    → skip_digits i (s ++ c ∷ rest) ≡ returns (i + length s, c ∷ rest)
unfolding skip_digits
skip_digits_lem [] rest i c _ h = rw h (ap (λ n. returns (n, c ∷ rest)) (omega arith))
skip_digits_lem (d ∷ s) rest i c (hd, hs) h =
    rw (is_digit_iff d hd)
      (skip_digits_lem s rest (i + 1) c hs h ∙ ap (λ n. returns (n, c ∷ rest)) (omega arith))

Digits-All : (s : Bytes) → Digits s → All IsDigit s × (0 < length s)
Digits-All s (c, t, e, hc, ht) = rw e ((hc, ht), omega arith)

-- Digits and a colon.
module _ (s rest : Bytes) (digits : Digits s) where
  skipped : skip_digits 0 (s ++ b':' ∷ rest) ≡ returns (length s, b':' ∷ rest)
  skipped =
      skip_digits_lem s rest 0 b':' (Digits-All s digits).0 not_digit_colon
      ∙ ap (λ n. returns (n, b':' ∷ rest)) (omega arith)

  string_or_fail_lem : string_or_fail (s ++ b':' ∷ rest) ≡ returns t_string
  unfolding string_or_fail peek
  string_or_fail_lem = rw skipped (ground (arith, (Digits-All s digits).1))

  entity_type_digits : entity_type (s ++ b':' ∷ rest) ≡ returns t_string
  unfolding entity_type peek
  entity_type_digits =
      let (c, t, e, hc, ht) = digits in
      let shape = rw e at string_or_fail_lem in rw e (ground (arith, shape))

module _ (k rest : Bytes) where
  split : encode_string k ++ rest ≡ decimal (length k) ++ b':' ∷ (k ++ rest)
  unfolding encode_string
  split = append_assoc (decimal (length k)) (b':' ∷ k) rest

  pub entity_type-encode_string : entity_type (encode_string k ++ rest) ≡ returns t_string
  entity_type-encode_string =
      rw split (entity_type_digits (decimal (length k)) (k ++ rest) (decimal-Digits (length k)))

  pub string_length-encode_string :
      length k < 2147483648 → string_length (encode_string k ++ rest) ≡ returns (pos (length k))
  unfolding string_length
  string_length-encode_string fits =
      rw
        (
          entity_type-encode_string,
          split,
          strtoul-value (decimal (length k)) (k ++ rest) b':' (decimal-Digits (length k))
              not_digit_colon (omega (arith, value-decimal (length k))),
          value-decimal (length k),
        )
        (ap returns (to_int-small (length k) (omega arith)))

  pub string_entity_length-encode_string :
      length (encode_string k) < 2147483648
      → string_entity_length (encode_string k ++ rest) ≡ returns (pos (length (encode_string k)))
  unfolding string_entity_length peek
  string_entity_length-encode_string fits =
      let ds : Bytes = decimal (length k) in
      let digits = decimal-Digits (length k) in
      let len : length (encode_string k) ≡ length ds + suc (length k) =
        unfold encode_string in length-append ds (b':' ∷ k) in
      let some_digit : ltb 0 (length ds) ≡ true = ground (arith, (Digits-All ds digits).1) in
      let conv : strtol (ds ++ b':' ∷ (k ++ rest)) ≡ returns (pos (length k)) =
        strtol-value ds (k ++ rest) b':' digits not_digit_colon
          (omega (arith, value-decimal (length k)))
        ∙ ap (λ n. returns (pos n)) (value-decimal (length k)) in
      let sum : pos (length ds) +ℤ pos (length k) +ℤ pos 1 ≡ pos (length (encode_string k)) =
        rw (+ℤ-pos, +ℤ-pos) (ap pos (omega arith)) in
      rw (split, skipped ds (k ++ rest) digits, some_digit, split, conv, sum)
        (ap returns (to_int-small (length (encode_string k)) (omega arith)))

find_colon_lem :
    (s rest : Bytes) (i : ℕ)
    → All IsDigit s
    → find_colon i (s ++ b':' ∷ rest) ≡ returns (i + length s)
unfolding find_colon
find_colon_lem [] rest i _ = ap returns (omega arith)
find_colon_lem (d ∷ s) rest i (hd, hs) = ground (arith, find_colon_lem s rest (i + 1) hs)

-- The data starts behind the colon.
pub string_data_offset-encode_string :
    (k rest : Bytes)
    → string_data_offset (encode_string k ++ rest) ≡ returns (pos (length (decimal (length k)) + 1))
unfolding string_data_offset
string_data_offset-encode_string k rest =
    let ds : Bytes = decimal (length k) in
    let colon : find_colon 0 (ds ++ b':' ∷ (k ++ rest)) ≡ returns (length ds) =
      find_colon_lem ds (k ++ rest) 0 (Digits-All ds (decimal-Digits (length k))).0
      ∙ ap returns (omega arith) in
    rw (entity_type-encode_string, split, colon)

to_int-IsInt : (z : ℤ) → IsInt z → to_int z ≡ z
unfolding to_int
to_int-IsInt (pos n) h = ground arith
to_int-IsInt (negsuc n) h = ground arith

-- The loop of `benc_int_value` and of the case `T_INT`: it walks over the sign and the digits.
skip_minus-Digits :
    (s rest : Bytes) (i : ℕ) → Digits s → skip_minus i (s ++ rest) ≡ returns (i, s ++ rest)
unfolding skip_minus
skip_minus-Digits s rest i (c, t, e, hc, _) = rw e (ground arith)

skip_int-print_int :
    (z : ℤ) (rest : Bytes) (i : ℕ)
    → skip_int i (print_int z ++ b'e' ∷ rest) ≡ returns (i + length (print_int z), b'e' ∷ rest)
unfolding print_int skip_int
skip_int-print_int (pos n) rest i =
    let digits = decimal-Digits n in
    rw (skip_minus-Digits (decimal n) (b'e' ∷ rest) i digits)
      (skip_digits_lem (decimal n) rest i b'e' (Digits-All _ digits).0 not_digit_e)
skip_int-print_int (negsuc n) rest i =
    unfold skip_minus in
    (skip_digits_lem (decimal (suc n)) rest (i + 1) b'e' (Digits-All _ (decimal-Digits (suc n))).0
        not_digit_e
      ∙ ap (λ m. returns (m, b'e' ∷ rest)) (omega arith))

module _ (z : ℤ) (rest : Bytes) where
  abbrev int_text : Bytes
  int_text = print_int z ++ b'e' ∷ rest

  pub int_entity_length-print_int :
      int_entity_length (b'i' ∷ int_text) ≡ returns (pos (length (print_int z) + 2))
  unfolding int_entity_length behind_first peek
  int_entity_length-print_int =
      rw (skip_int-print_int z rest 1) (ap (λ n. returns (pos n)) (omega arith))

  pub entity_type_int : entity_type (b'i' ∷ int_text) ≡ returns t_int
  unfolding entity_type peek
  entity_type_int = refl

  -- `benc_int_value` gives the integer if its text has two bytes or more, and the default if not.
  pub int_value-print_int :
      (defval : ℤ)
      → IsInt z
      → int_value (b'i' ∷ int_text) defval
        ≡ returns (if leb (length (print_int z)) 1 then defval else z)
  unfolding int_value int_text_value behind_first peek
  int_value-print_int defval fits =
      let len : 0 + length (print_int z) ≡ length (print_int z) = omega arith in
      rw (entity_type_int, skip_int-print_int z rest 0, len)
        (elim (Bool-cases (leb (length (print_int z)) 1)) [
          | inl short ↦ rw short
          | inr long ↦
              rw (long, strtol-print_int z rest b'e' fits not_digit_e)
                (ap returns (to_int-IsInt z fits))
        ])

-- ===== src/Encoding/Url/Plain.antt =====
-- The bytes of an encoding can stand in a parameter of a request.
use traccoon.Encoding.CharIndex.{has}
use traccoon.Encoding.Digits.{hex_char}
use traccoon.Encoding.Url.RoundTrip.{has_All, All-append}
use traccoon.Encoding.Url.{unreserved, encode_byte, url_encode}
use traccoon.Prelude.{ℕ, ◌/◌, ◌%◌, ◌≢◌, inl, inr, Bool-cases, [], ◌∷◌, Bytes, All, ltb, arith}

-- a byte of a parameter's value
abbrev pub IsValueByte : ℕ → Type 0
IsValueByte x = (x ≢ 0) × (x ≢ b'=') × (x ≢ b'&') × (x ≢ b' ')

hex_char-IsValueByte : (v : ℕ) → IsValueByte (hex_char v)
unfolding hex_char
hex_char-IsValueByte v = elim (Bool-cases (ltb v 10)) [
  | inl digit ↦ rw digit (ground arith, ground arith, ground arith, ground arith)
  | inr letter ↦ rw letter (ground arith, ground arith, ground arith, ground arith)
]

encode_byte-IsValueByte : (d : ℕ) → All IsValueByte (encode_byte d)
unfolding encode_byte
encode_byte-IsValueByte d = elim (Bool-cases (has unreserved d)) [
  | inl plain ↦ rw plain (has_All IsValueByte unreserved d (omega arith) plain, tt)
  | inr escaped ↦ rw escaped (
    (omega arith, omega arith, omega arith, omega arith),
    (hex_char-IsValueByte (d / 16), (hex_char-IsValueByte (d % 16), tt)),
  )
]

pub url_encode-IsValueByte : (h : Bytes) → All IsValueByte (url_encode h)
unfolding url_encode
url_encode-IsValueByte [] = tt
url_encode-IsValueByte (d ∷ h) =
    All-append _ (encode_byte d) (url_encode h) (encode_byte-IsValueByte d)
      (url_encode-IsValueByte h)

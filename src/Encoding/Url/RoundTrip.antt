-- ===== src/Encoding/Url/RoundTrip.antt =====
-- The decoder reads back what the encoder writes.
use traccoon.Encoding.CharIndex.{has}
use traccoon.Encoding.Digits.{cons_some, escape_value-hex_char, hex_char-nonzero}
use traccoon.Encoding.Hex.Encode.{IsByte}
use traccoon.Encoding.Url.{unreserved, encode_byte, url_encode, url_decode}
use traccoon.Prelude.{
  ℕ, ◌*◌, ◌/◌, ◌%◌, ◌<◌, ◌≤◌, ◌≡◌, ◌≢◌, refl, ap, ◌∙◌, inl, inr, true, Bool-cases, some, [], ◌∷◌,
  ◌++◌, Bytes, length, All, ◌==◌, arith, length-append,
}

pub has_All : (P : ℕ → Type 0) (s : Bytes) (c : ℕ) → All P s → has s c ≡ true → P c
has_All P [] c _ h = absurd (cc)
has_All P (x ∷ s) c (px, ps) h = elim (Bool-cases (x == c)) [
  | inl e ↦ let same : x ≡ c = ground arith in rw (← same) px
  | inr e ↦ has_All P s c ps (ground arith)
]

pub unreserved-ne : (d : ℕ) → has unreserved d ≡ true → (d ≢ b'%') × (d ≢ 0)
unreserved-ne d h = (
  has_All (λ x. x ≢ b'%') unreserved d (omega arith) h,
  has_All (λ x. x ≢ 0) unreserved d (omega arith) h,
)

url_decode_plain : (d : ℕ) (s : Bytes) → d ≢ b'%' → url_decode (d ∷ s) ≡ cons_some d (url_decode s)
unfolding url_decode
url_decode_plain d [] h = refl
url_decode_plain d (a ∷ []) h = refl
url_decode_plain d (a ∷ b ∷ s) h = ground arith

url_decode-encode_byte :
    (d : ℕ) (s : Bytes) → d < 256 → url_decode (encode_byte d ++ s) ≡ cons_some d (url_decode s)
unfolding encode_byte
url_decode-encode_byte d s byte = elim (Bool-cases (has unreserved d)) [
  | inl plain ↦ rw plain (url_decode_plain d s (unreserved-ne d plain).0)
  | inr escaped ↦ rw escaped (unfold url_decode in ground (arith, escape_value-hex_char d byte))
]

-- Decoding what the encoder writes for bytes gives the bytes.
pub url_decode-url_encode : (h : Bytes) → All IsByte h → url_decode (url_encode h) ≡ some h
unfolding url_encode
url_decode-url_encode [] _ = unfold url_decode in refl
url_decode-url_encode (d ∷ h) (byte, bytes) =
    url_decode-encode_byte d (url_encode h) byte ∙ ap (cons_some d) (url_decode-url_encode h bytes)

pub All-append : (P : ℕ → Type 0) (xs ys : Bytes) → All P xs → All P ys → All P (xs ++ ys)
All-append P [] ys _ h = h
All-append P (x ∷ xs) ys (px, pxs) h = (px, All-append P xs ys pxs h)

encode_byte-NonZero : (d : ℕ) → All (λ x. x ≢ 0) (encode_byte d)
unfolding encode_byte
encode_byte-NonZero d = elim (Bool-cases (has unreserved d)) [
  | inl plain ↦ rw plain ((unreserved-ne d plain).1, tt)
  | inr escaped ↦
      rw escaped (omega arith, (hex_char-nonzero (d / 16), (hex_char-nonzero (d % 16), tt)))
]

pub url_encode-NonZero : (h : Bytes) → All (λ x. x ≢ 0) (url_encode h)
unfolding url_encode
url_encode-NonZero [] = tt
url_encode-NonZero (d ∷ h) =
    All-append _ (encode_byte d) (url_encode h) (encode_byte-NonZero d) (url_encode-NonZero h)

pub length-encode_byte : (d : ℕ) → length (encode_byte d) ≤ 3
unfolding encode_byte
length-encode_byte d = elim (Bool-cases (has unreserved d)) [
  | inl plain ↦ rw plain (omega arith)
  | inr escaped ↦ rw escaped (omega arith)
]

-- Each byte takes three at most, so that 20 bytes fit the 61 of the buffers.
pub length-url_encode : (h : Bytes) → length (url_encode h) ≤ length h * 3
unfolding url_encode
length-url_encode [] = omega arith
length-url_encode (d ∷ h) =
    omega (
      arith,
      length-append (encode_byte d) (url_encode h),
      length-encode_byte d,
      length-url_encode h,
    )

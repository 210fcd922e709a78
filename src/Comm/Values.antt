-- ===== src/Comm/Values.antt =====
-- comm.c: what is kept of the values of an announce that are written as getpeers writes them.
use traccoon.CLib.Decimal.{Digits, value, strtoul-value}
use traccoon.CLib.Number.{ulong_max}
use traccoon.CLib.{is_digit}
use traccoon.Comm.Request.{cut_at_space, hash_length, copy_param, parse_number}
use traccoon.Encoding.CharIndex.{has, char_index-here}
use traccoon.Encoding.Digits.{hex_char-nonzero}
use traccoon.Encoding.Hex.{max_hash_len}
use traccoon.Encoding.Url.RoundTrip.{unreserved-ne, url_encode-NonZero, length-url_encode}
use traccoon.Encoding.Url.{unreserved, encode_byte, url_encode, max_urlenc_hash_len}
use traccoon.Memory.{returns}
use traccoon.Neth.{decoded_strlen_from, decoded_strlen, http_param_length}
use traccoon.NetLib.Merge.{strncpy_bytes-text}
use traccoon.NetLib.Splits.{write-append}
use traccoon.Track.Hash.{text_in-append}
use traccoon.Prelude.{
  ℕ, suc, ◌+◌, ◌-◌, ◌/◌, ◌%◌, ◌<◌, ◌≤◌, ◌≡◌, ◌≢◌, refl, ap, ◌∙◌, inl, inr, true, false, Bool-cases,
  some, [], ◌∷◌, ◌++◌, Bytes, length, replicate, All, leb, pos, to_int, arith, append_assoc,
  length-append,
}

-- The buffer of a request is cut behind its text.
pub cut_at_space-text :
    (s rest : Bytes)
    → All (λ x. (x ≢ 0) × (x ≢ b' ')) s
    → cut_at_space (s ++ b' ' ∷ rest) ≡ returns (some (s ++ 0 ∷ rest))
unfolding cut_at_space
cut_at_space-text s rest others =
    rw (char_index-here s rest b' ' (omega arith) others, write-append s rest b' ' 0) refl

-- One step of `decodedStrlen` at a byte that is no escape.
decoded_strlen_plain :
    (m x : ℕ) (t : Bytes) (i c : ℕ)
    → x ≢ 0
    → x ≢ b'%'
    → i < m
    → 0 < length t
    → decoded_strlen_from (pos m) (x ∷ t) i c ≡ decoded_strlen_from (pos m) t (i + 1) (c + 1)
unfolding decoded_strlen_from
decoded_strlen_plain m x [] i c nz ne inside more = absurd (omega (arith, more))
decoded_strlen_plain m x (a ∷ []) i c nz ne inside more = ground (arith, nz, ne, inside)
decoded_strlen_plain m x (a ∷ b ∷ t) i c nz ne inside more = ground (arith, nz, ne, inside)

decoded_strlen_escape :
    (m a b : ℕ) (t : Bytes) (i c : ℕ)
    → a ≢ 0
    → b ≢ 0
    → i < m
    → decoded_strlen_from (pos m) (b'%' ∷ a ∷ b ∷ t) i c
      ≡ decoded_strlen_from (pos m) t (i + 3) (c + 1)
unfolding decoded_strlen_from
decoded_strlen_escape m a b t i c a_nz b_nz inside = ground (arith, a_nz, b_nz, inside)

decoded_strlen_stop :
    (m e : ℕ) (t : Bytes) (c : ℕ) → decoded_strlen_from (pos m) (e ∷ t) m c ≡ returns c
unfolding decoded_strlen_from
decoded_strlen_stop m e [] c = ground arith
decoded_strlen_stop m e (a ∷ []) c = ground arith
decoded_strlen_stop m e (a ∷ b ∷ t) c = ground arith

-- Over one encoded byte it counts one.
decoded_strlen-encode_byte :
    (d m : ℕ) (t : Bytes) (i c : ℕ)
    → i < m
    → 0 < length t
    → decoded_strlen_from (pos m) (encode_byte d ++ t) i c
      ≡ decoded_strlen_from (pos m) t (length (encode_byte d) + i) (c + 1)
unfolding encode_byte
decoded_strlen-encode_byte d m t i c inside more = elim (Bool-cases (has unreserved d)) [
  | inl plain ↦
      let (ne, nz) = unreserved-ne d plain in
      let one : 1 + i ≡ i + 1 = omega arith in
      rw (plain, one) (decoded_strlen_plain m d t i c nz ne inside more)
  | inr escaped ↦
      let three : 3 + i ≡ i + 3 = omega arith in
      rw (escaped, three)
        (decoded_strlen_escape m _ _ t i c (hex_char-nonzero (d / 16)) (hex_char-nonzero (d % 16))
          inside)
]

encode_byte-nonempty : (d : ℕ) → 0 < length (encode_byte d)
unfolding encode_byte
encode_byte-nonempty d = elim (Bool-cases (has unreserved d)) [
  | inl plain ↦ rw plain (omega arith)
  | inr escaped ↦ rw escaped (omega arith)
]

-- `decodedStrlen` counts the bytes that were encoded.
decoded_strlen_from-url_encode :
    (h t : Bytes) (m e i c : ℕ)
    → m ≡ length (url_encode h) + i
    → decoded_strlen_from (pos m) (url_encode h ++ e ∷ t) i c ≡ returns (length h + c)
unfolding url_encode
decoded_strlen_from-url_encode [] t m e i c ends =
    let here : i ≡ m = omega (arith, ends) in
    rw here (decoded_strlen_stop m e t c ∙ ap returns (omega arith))
decoded_strlen_from-url_encode (d ∷ h) t m e i c ends =
    let size = length-append (encode_byte d) (url_encode h) in
    let inside : i < m = omega (arith, ends, size, encode_byte-nonempty d) in
    let later : m ≡ length (url_encode h) + (length (encode_byte d) + i) =
      omega (arith, ends, size) in
    let more : 0 < length (url_encode h ++ e ∷ t) =
      omega (arith, length-append (url_encode h) (e ∷ t)) in
    ap (λ s. decoded_strlen_from (pos m) s i c)
      (append_assoc (encode_byte d) (url_encode h) (e ∷ t))
    ∙ decoded_strlen-encode_byte d m (url_encode h ++ e ∷ t) i c inside more
    ∙ decoded_strlen_from-url_encode h t m e (length (encode_byte d) + i) (c + 1) later
    ∙ ap returns (omega arith)

-- The encoding of 20 bytes is taken for a hash.
pub hash_length-url_encode :
    (h t : Bytes) (e : ℕ)
    → length h ≡ max_hash_len
    → http_param_length (url_encode h ++ e ∷ t) ≡ returns (length (url_encode h))
    → hash_length (url_encode h ++ e ∷ t) ≡ returns (some (length (url_encode h)))
unfolding hash_length decoded_strlen
hash_length-url_encode h t e size measured =
    let counted = decoded_strlen_from-url_encode h t (length (url_encode h)) e 0 0 (omega arith) in
    let twenty : length h + 0 ≡ 20 = omega (arith, size) in rw (measured, counted, twenty) refl

-- It fits an array of 61 bytes with a terminator.
pub copy_param-url_encode :
    (h t : Bytes)
    → length h ≡ max_hash_len
    → copy_param (url_encode h ++ t) (length (url_encode h)) ≡ returns (url_encode h)
unfolding copy_param
copy_param-url_encode h t size =
    let fits : length (url_encode h) ≤ max_urlenc_hash_len =
      omega (arith, size, length-url_encode h) in
    let room : leb (length (url_encode h)) (max_urlenc_hash_len + 1) ≡ true =
      ground (arith, fits) in
    let cleared : max_urlenc_hash_len + 1 - length (url_encode h)
        ≡ suc (max_urlenc_hash_len - length (url_encode h)) =
      omega (arith, fits) in
    rw (room, strncpy_bytes-text (url_encode h) t (url_encode-NonZero h), cleared)
      (ap returns (
        text_in-append (url_encode h) (replicate (max_urlenc_hash_len - length (url_encode h)) 0)
          (url_encode-NonZero h)))

pub parse_number-value :
    (s rest : Bytes) (c : ℕ)
    → Digits s
    → is_digit c ≡ false
    → value 0 s ≤ ulong_max
    → parse_number (some (s ++ c ∷ rest)) ≡ returns (to_int (pos (value 0 s)))
unfolding parse_number
parse_number-value s rest c d h fits = rw (strtoul-value s rest c d h fits) refl

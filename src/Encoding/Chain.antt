-- ===== src/Encoding/Chain.antt =====
-- The decoders undo the encoders in memory, as the callers compose them.
use traccoon.Encoding.Hex.Decode.{destructive_hex_decode-hex_decode}
use traccoon.Encoding.Hex.Encode.{
  length-hex_encode, IsByte, hex_decode-hex_encode, hex_encode-NonZero, hash_encode_hex-hex_encode,
}
use traccoon.Encoding.Hex.{
  max_hash_len, max_hexenc_hash_len, hash_encode_hex, hex_encode, destructive_hex_decode,
}
use traccoon.Encoding.Url.Decode.{destructive_url_decode-url_decode}
use traccoon.Encoding.Url.Encode.{hash_encode_url-url_encode}
use traccoon.Encoding.Url.RoundTrip.{url_decode-url_encode, url_encode-NonZero, length-url_encode}
use traccoon.Encoding.Url.{max_urlenc_hash_len, hash_encode_url, url_encode, destructive_url_decode}
use traccoon.Memory.{Run, returns, ◌>>=◌}
use traccoon.Prelude.{
  ◌^◌, ℕ, suc, ◌+◌, ◌-◌, ◌<◌, ◌≡◌, [], ◌∷◌, ◌++◌, Bytes, length, ℤ, pos, take, drop, replicate, All,
  arith,
}

-- A string and its terminator at the start of the object that a call left behind.
abbrev pub Leaves : Run (ℤ × Bytes) → Bytes → Type 0
Leaves r h =
    (buf : Bytes) × (r ≡ returns (pos (length h), buf)) × (take (suc (length h)) buf ≡ h ++ 0 ∷ [])

module _ (buffer h rest : Bytes) (len : length h ≡ max_hash_len) (bytes : All IsByte h)
    (room : max_urlenc_hash_len < length (h ++ rest)) where
  -- `hashEncodeURL` into a buffer of 61 bytes and then `destructiveURLDecode`: the hash is back.
  pub destructive_url_decode-hash_encode_url :
      length buffer ≡ max_urlenc_hash_len + 1
      → Leaves
          (hash_encode_url buffer (h ++ rest) (max_urlenc_hash_len + 1) >>= λ r.
            destructive_url_decode r.1)
          h
  destructive_url_decode-hash_encode_url size =
      let fits = length-url_encode h in
      let short : length (url_encode h) < 2 ^ 31 = omega (arith, fits, len) in
      let k : ℕ = max_urlenc_hash_len - length (url_encode h) in
      let one : max_urlenc_hash_len + 1 - length (url_encode h) ≡ suc k = omega arith in
      let encoded =
        hash_encode_url-url_encode buffer h rest (max_urlenc_hash_len + 1) size len bytes
          (omega arith) (omega arith) in
      let tail : Bytes = replicate k 0 ++ drop (max_urlenc_hash_len + 1) (h ++ rest) in
      let decoded =
        destructive_url_decode-url_decode (url_encode h) tail (url_encode-NonZero h) short in
      let (buf, e, text, _) = rw (url_decode-url_encode h bytes) at decoded in
      (buf, rw (encoded, one) e, text)

  -- `hashEncodeHex` and then `destructiveHexDecode`: the hash is back.
  pub destructive_hex_decode-hash_encode_hex :
      length buffer ≡ max_hexenc_hash_len + 1
      → Leaves
          (hash_encode_hex buffer (h ++ rest) (pos max_urlenc_hash_len) >>= λ r.
            destructive_hex_decode r.1)
          h
  destructive_hex_decode-hash_encode_hex size =
      let encoded =
        hash_encode_hex-hex_encode buffer h rest max_urlenc_hash_len size len bytes (omega arith)
          (omega arith) in
      let decoded =
        destructive_hex_decode-hex_decode (hex_encode h)
          (drop (max_hexenc_hash_len + 1) (h ++ rest)) (hex_encode-NonZero h)
          (omega (arith, length-hex_encode h, len)) in
      let (buf, e, text, _) = rw (hex_decode-hex_encode h bytes) at decoded in
      (buf, rw encoded e, text)

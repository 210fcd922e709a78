-- ===== src/Encoding/Tests.antt =====
-- Runs of encoding.c on concrete data, and its theorems at concrete data.
use traccoon.Encoding.Chain.{
  Leaves, destructive_url_decode-hash_encode_url, destructive_hex_decode-hash_encode_hex,
}
use traccoon.Encoding.CharIndex.{digit_value}
use traccoon.Encoding.Digits.{escape_value}
use traccoon.Encoding.Url.RoundTrip.{length-url_encode}
use traccoon.Encoding.Hex.Decode.{destructive_hex_decode-hex_decode}
use traccoon.Encoding.Hex.Encode.{hash_encode_hex-hex_encode}
use traccoon.Encoding.Hex.{
  max_hexenc_hash_len, destructive_hex_decode, hex_decode, hash_encode_hex, hex_encode,
}
use traccoon.Encoding.InPlace.{Outcome}
use traccoon.Encoding.Url.Decode.{destructive_url_decode-url_decode}
use traccoon.Encoding.Url.Encode.{hash_encode_url-url_encode}
use traccoon.Encoding.Url.{
  max_urlenc_hash_len, destructive_url_decode, url_decode, hash_encode_url, url_encode,
}
use traccoon.Memory.{returns, ◌>>=◌}
use traccoon.Prelude.{
  ◌+◌, ◌-◌, ◌≤◌, ◌≡◌, refl, some, none, [], ◌∷◌, ◌++◌, Bytes, codes, replicate, length, drop, pos,
  arith,
}

-- A hash with bytes that are escaped and bytes that are not.
abbrev hash : Bytes
hash = codes "abcdefghij" ++ (0 ∷ 1 ∷ 37 ∷ 200 ∷ 255 ∷ codes "-_.~z")

abbrev room : Bytes
room = replicate 41 7

decodes : url_decode (codes "a%20%2fb") ≡ some (codes "a /b")
unfolding url_decode escape_value digit_value
decodes = refl

upper_case : url_decode (codes "a%2F") ≡ none
unfolding url_decode escape_value digit_value
upper_case = refl

destructive_url_decode-url_decode_example :
    Outcome 12 []
      (url_decode (codes "a%20%2fb"))
      (destructive_url_decode (codes "a%20%2fb" ++ 0 ∷ 9 ∷ 9 ∷ 9 ∷ []))
destructive_url_decode-url_decode_example =
    destructive_url_decode-url_decode (codes "a%20%2fb") (9 ∷ 9 ∷ 9 ∷ []) (omega arith)
      (omega arith)

destructive_hex_decode-hex_decode_example :
    Outcome 5 [] (hex_decode (codes "0aff")) (destructive_hex_decode (codes "0aff" ++ 0 ∷ []))
destructive_hex_decode-hex_decode_example =
    destructive_hex_decode-hex_decode (codes "0aff") [] (omega arith) (omega arith)

destructive_url_decode-hash_encode_url_example :
    Leaves
      (hash_encode_url (replicate 61 7) (hash ++ room) (max_urlenc_hash_len + 1) >>= λ r.
        destructive_url_decode r.1)
      hash
destructive_url_decode-hash_encode_url_example =
    destructive_url_decode-hash_encode_url (replicate 61 7) hash room refl (omega arith)
      (omega arith) refl

destructive_hex_decode-hash_encode_hex_example :
    Leaves
      (hash_encode_hex (replicate 41 7) (hash ++ room) (pos max_urlenc_hash_len) >>= λ r.
        destructive_hex_decode r.1)
      hash
destructive_hex_decode-hash_encode_hex_example =
    destructive_hex_decode-hash_encode_hex (replicate 41 7) hash room refl (omega arith)
      (omega arith) refl

hash_encode_hex-hex_encode_example :
    hash_encode_hex (replicate 41 7) (hash ++ room) (pos 60)
    ≡ returns (pos 0, hex_encode hash ++ 0 ∷ drop (max_hexenc_hash_len + 1) (hash ++ room))
hash_encode_hex-hex_encode_example =
    hash_encode_hex-hex_encode (replicate 41 7) hash room 60 refl refl (omega arith) (omega arith)
      (omega arith)

hash_encode_url-url_encode_example :
    hash_encode_url (replicate 61 7) (hash ++ room) 61
    ≡ returns (
      pos 0,
      url_encode hash ++ (replicate (61 - length (url_encode hash)) 0 ++ drop 61 (hash ++ room)),
    )
hash_encode_url-url_encode_example =
    let fits : length (url_encode hash) ≤ 60 = length-url_encode hash in
    hash_encode_url-url_encode (replicate 61 7) hash room 61 refl refl (omega arith)
      (omega (arith, fits)) (omega arith)

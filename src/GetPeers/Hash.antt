-- ===== src/GetPeers/Hash.antt =====
-- The hash that the program reads is the hash that it asks for.
use traccoon.Encoding.Hex.Decode.{destructive_hex_decode-hex_decode}
use traccoon.Encoding.Hex.Encode.{
  length-hex_encode, IsByte, hex_encode-NonZero, hex_decode-hex_encode,
}
use traccoon.Encoding.Hex.{hex_encode, max_hash_len}
use traccoon.Encoding.Url.Encode.{hash_encode_url-url_encode}
use traccoon.Encoding.Url.RoundTrip.{url_encode-NonZero}
use traccoon.Encoding.Url.{hash_encode_url, url_encode, max_urlenc_hash_len}
use traccoon.GetPeers.Options.{encode_hash}
use traccoon.Memory.{returns, Fills, Fills-split}
use traccoon.Track.Announce.{text_in}
use traccoon.Track.Hash.{text_in-append}
use traccoon.Prelude.{
  take-append-drop, ℕ, suc, ◌+◌, ◌-◌, ◌<◌, ◌≤◌, ◌≡◌, ap, sym, ◌∙◌, [], ◌∷◌, ◌++◌, Bytes, length,
  take, drop, replicate, All, arith, append_assoc,
}

-- A buffer that begins with a text and a terminator.
whole_lem :
    (s buf : Bytes)
    → take (suc (length s)) buf ≡ s ++ 0 ∷ []
    → buf ≡ s ++ 0 ∷ drop (suc (length s)) buf
whole_lem s buf front =
    sym (take-append-drop (suc (length s)) buf)
    ∙ ap (λ t. t ++ drop (suc (length s)) buf) front
    ∙ append_assoc s (0 ∷ []) (drop (suc (length s)) buf)

-- For an array of 61 bytes that begins with the hex digits of 20 bytes and a terminator, as
-- `read_torrentfile` leaves it, whose encoding for a URL is shorter than 60, the array holds this
-- encoding after the two conversions, whatever the local array of the encoder holds.
pub encode_hash-url_encode :
    (local array h : Bytes)
    → length local ≡ max_urlenc_hash_len + 1
    → Fills (max_urlenc_hash_len + 1) array (hex_encode h ++ 0 ∷ [])
    → length h ≡ max_hash_len
    → All IsByte h
    → length (url_encode h) < max_urlenc_hash_len
    → (result : Bytes) × (encode_hash local array ≡ returns result)
      × (text_in result ≡ url_encode h)
unfolding encode_hash
encode_hash-url_encode local array h size f len bytes short =
    let (rest, split) = Fills-split f in
    let start : array ≡ hex_encode h ++ 0 ∷ rest =
      split ∙ append_assoc (hex_encode h) (0 ∷ []) rest in
    let decoded =
      destructive_hex_decode-hex_decode (hex_encode h) rest (hex_encode-NonZero h)
        (omega (arith, length-hex_encode h, len)) in
    let (buf, e, front, total) = rw (hex_decode-hex_encode h bytes) at decoded in
    let behind : Bytes = drop (suc (length h)) buf in
    let whole : buf ≡ h ++ 0 ∷ behind = whole_lem h buf front in
    let room : max_urlenc_hash_len ≤ length (h ++ 0 ∷ behind) =
      omega (arith, ap length whole, total, ap length start, f.total) in
    let encoded =
      hash_encode_url-url_encode local h (0 ∷ behind) max_urlenc_hash_len size len bytes short
        room in
    let k : ℕ = max_urlenc_hash_len - length (url_encode h) - 1 in
    let one : max_urlenc_hash_len - length (url_encode h) ≡ suc k = omega (arith, short) in
    let tail : Bytes = replicate k 0 ++ drop max_urlenc_hash_len (h ++ 0 ∷ behind) in
    (
      url_encode h ++ 0 ∷ tail,
      rw (start, e, ap (λ b. hash_encode_url local b max_urlenc_hash_len) whole ∙ encoded)
          (ap
            (λ n.
              returns
                (url_encode h ++ (replicate n 0 ++ drop max_urlenc_hash_len (h ++ 0 ∷ behind))))
            one),
      text_in-append (url_encode h) tail (url_encode-NonZero h),
    )

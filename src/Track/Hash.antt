-- ===== src/Track/Hash.antt =====
-- The conversion of the hash of a request composes the two codings.
use traccoon.Encoding.Hex.Encode.{IsByte, hex_encode-NonZero, hash_encode_hex-hex_encode}
use traccoon.Encoding.Hex.{hash_encode_hex, hex_encode, max_hash_len, max_hexenc_hash_len}
use traccoon.Encoding.Url.Decode.{destructive_url_decode-url_decode}
use traccoon.Encoding.Url.{url_decode, max_urlenc_hash_len}
use traccoon.Memory.{returns}
use traccoon.Track.{hex_hash}
use traccoon.Track.Announce.{hash_array, text_in}
use traccoon.Prelude.{
  length-replicate, take-append-drop, ℕ, suc, ◌+◌, ◌-◌, ◌≤◌, ◌≡◌, ◌≢◌, refl, ap, sym, ◌∙◌, some, [],
  ◌∷◌, ◌++◌, Bytes, length, drop, replicate, All, pos, arith, append_assoc, length-append,
}

pub text_in-append : (s rest : Bytes) → All (λ x. x ≢ 0) s → text_in (s ++ 0 ∷ rest) ≡ s
text_in-append [] rest nz = refl
text_in-append (x ∷ s) rest (x_nz, nz) = ground (arith, text_in-append s rest nz)

hash_array_lem :
    (s : Bytes)
    → length s ≤ max_urlenc_hash_len
    → hash_array s ≡ s ++ 0 ∷ replicate (max_urlenc_hash_len - length s) 0
hash_array_lem s fits =
    let more : max_urlenc_hash_len + 1 - length s ≡ suc (max_urlenc_hash_len - length s) =
      omega (arith, fits) in
    ap (λ k. s ++ replicate k 0) more

-- For a text of at most 60 bytes without a zero byte that decodes to 20 bytes, `track` finds the 40
-- hex digits of these in the array, whatever the local array of the encoder holds at first.
pub hex_hash-hex_encode :
    (local s h : Bytes)
    → length local ≡ max_hexenc_hash_len + 1
    → All (λ x. x ≢ 0) s
    → length s ≤ max_urlenc_hash_len
    → url_decode s ≡ some h
    → length h ≡ max_hash_len
    → All IsByte h
    → (array : Bytes) × (hex_hash local (hash_array s) ≡ returns array)
      × (text_in array ≡ hex_encode h)
unfolding hex_hash
hex_hash-hex_encode local s h size nz fits decodes len bytes =
    let behind : Bytes = replicate (max_urlenc_hash_len - length s) 0 in
    let outcome = destructive_url_decode-url_decode s behind nz (omega (arith, fits)) in
    let (buf, decoded, front, total) = rw decodes at outcome in
    let rest : Bytes = drop (suc (length h)) buf in
    let whole : buf ≡ h ++ 0 ∷ rest =
      sym (take-append-drop (suc (length h)) buf)
      ∙ ap (λ t. t ++ rest) front
      ∙ append_assoc h (0 ∷ []) rest in
    let room : max_urlenc_hash_len ≤ length (h ++ 0 ∷ rest) = omega (
      arith,
      fits,
      ap length whole,
      total,
      length-append s (0 ∷ behind),
      length-replicate {A = ℕ} (max_urlenc_hash_len - length s) 0,
    ) in
    let encoded =
      hash_encode_hex-hex_encode local h (0 ∷ rest) max_urlenc_hash_len size len bytes (omega arith)
        room in
    (
      hex_encode h ++ 0 ∷ drop (max_hexenc_hash_len + 1) (h ++ 0 ∷ rest),
      rw
          (
            hash_array_lem s fits,
            decoded,
            ap (λ b. hash_encode_hex local b (pos max_urlenc_hash_len)) whole ∙ encoded,
          )
          refl,
      text_in-append (hex_encode h) (drop (max_hexenc_hash_len + 1) (h ++ 0 ∷ rest))
          (hex_encode-NonZero h),
    )

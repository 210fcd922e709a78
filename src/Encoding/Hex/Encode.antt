-- ===== src/Encoding/Hex/Encode.antt =====
-- `hashEncodeHex` writes the hex digits of a hash, and the decoder reads the hash back.
use native.Mathlib.Numerals.{add-one}
use traccoon.CLib.Laws.{memcpy-fits}
use traccoon.Encoding.Digits.{hex_char, read-hexdict, escape_value-hex_char, hex_char-nonzero}
use traccoon.Encoding.Hex.{
  write, write_hex, max_hash_len, max_hexenc_hash_len, hex_encode_loop, hash_encode_hex, hex_encode,
  hex_decode,
}
use traccoon.Memory.{returns, read-drop, Fills, write-Fills, Fills-push, Fills-nil}
use traccoon.Prelude.{
  drop_tail, set, ℕ, suc, ◌+◌, ◌*◌, ◌/◌, ◌%◌, ◌<◌, ◌≤◌, ◌≡◌, ◌≢◌, refl, ap, sym, subst, ◌∙◌, Bool,
  true, ◌&&◌, some, [], ◌∷◌, ◌++◌, Bytes, length, take, drop, All, ltb, pos, minus_one, arith,
  append_assoc, append-nil, length-append,
}

abbrev pub IsByte : ℕ → Type 0
IsByte d = d < 256

abbrev pub are_bytes : Bytes → Bool
are_bytes [] = true
are_bytes (d ∷ s) = ltb d 256 && are_bytes s

pub are_bytes-IsByte : (s : Bytes) → are_bytes s ≡ true → All IsByte s
are_bytes-IsByte [] h = tt
are_bytes-IsByte (d ∷ s) h = (ground arith, are_bytes-IsByte s (ground arith))

-- Decoding the digits of bytes gives the bytes.
pub hex_decode-hex_encode : (h : Bytes) → All IsByte h → hex_decode (hex_encode h) ≡ some h
unfolding hex_decode hex_encode
hex_decode-hex_encode [] _ = refl
hex_decode-hex_encode (d ∷ h) (lt, more) =
    ground (arith, escape_value-hex_char d lt, hex_decode-hex_encode h more)

pub length-hex_encode : (h : Bytes) → length (hex_encode h) ≡ length h * 2
unfolding hex_encode
length-hex_encode [] = omega arith
length-hex_encode (d ∷ h) = omega (arith, length-hex_encode h)

pub hex_encode-NonZero : (h : Bytes) → All (λ x. x ≢ 0) (hex_encode h)
unfolding hex_encode
hex_encode-NonZero [] = tt
hex_encode-NonZero (d ∷ h) =
    (hex_char-nonzero (d / 16), (hex_char-nonzero (d % 16), hex_encode-NonZero h))

-- One round: the digits of the byte at `i` go behind those that are written.
hex_encode_round :
    (n : ℕ) (hash buffer : Bytes) (i d : ℕ) {m : ℕ} {h out : Bytes}
    → drop i hash ≡ d ∷ h
    → d < 256
    → Fills m buffer out
    → length out ≡ i * 2
    → length out + 1 < m
    → (both : Bytes) × (hex_encode_loop (suc n) hash buffer i ≡ hex_encode_loop n hash both (i + 1))
      × Fills m both (out ++ hex_char (d / 16) ∷ hex_char (d % 16) ∷ [])
unfolding hex_encode_loop
hex_encode_round n hash buffer i d {m} {h} {out} here byte f len room =
    let high : ℕ = hex_char (d / 16) in
    let low : ℕ = hex_char (d % 16) in
    let half : Bytes = set buffer (length out) high in
    let f₁ = Fills-push buffer out high f (omega arith) in
    let len₁ : length (out ++ high ∷ []) ≡ i * 2 + 1 =
      length-append out (high ∷ []) ∙ omega arith in
    let f₂ = Fills-push half (out ++ high ∷ []) low f₁ (omega arith) in
    (
      set half (length (out ++ high ∷ [])) low,
      ground (
        arith,
        read-drop hash i here,
        read-hexdict (d / 16),
        read-hexdict (d % 16),
        len,
        len₁,
        write-Fills buffer out high f (omega arith),
        write-Fills half (out ++ high ∷ []) low f₁ (omega arith),
      ),
      rw append_assoc at f₂,
    )

-- All rounds.
hex_encode_loop_lem :
    (h rest : Bytes) (hash buffer : Bytes) (i : ℕ) {m : ℕ} {out : Bytes}
    → drop i hash ≡ h ++ rest
    → All IsByte h
    → Fills m buffer out
    → length out ≡ i * 2
    → length out + length h * 2 < m
    → (full : Bytes) × (hex_encode_loop (length h) hash buffer i ≡ returns full)
      × Fills m full (out ++ hex_encode h)
unfolding hex_encode
hex_encode_loop_lem [] rest hash buffer i {m} {out} here _ f len room =
    (buffer, unfold hex_encode_loop in refl, rw (append-nil out) f)
hex_encode_loop_lem (d ∷ h) rest hash buffer i {m} {out} here (byte, bytes) f len room =
    let (both, step, f') =
      hex_encode_round (length h) hash buffer i d here byte f len (omega arith) in
    let more = length-append out (hex_char (d / 16) ∷ hex_char (d % 16) ∷ []) in
    let (full, loop, f'') =
      hex_encode_loop_lem h rest hash both (i + 1) (rw (add-one i) (drop_tail hash i here)) bytes f'
        (omega (arith, more, len)) (omega (arith, more)) in
    (full, step ∙ loop, subst (Fills m full) (append_assoc out _ (hex_encode h)) f'')

-- The digits of a hash and a terminator are written at the start of a buffer with room for them,
-- whatever stands behind the hash.
pub write_hex-hex_encode :
    (h rest buffer : Bytes)
    → length h ≡ max_hash_len
    → All IsByte h
    → max_hexenc_hash_len < length buffer
    → (full : Bytes) × (write_hex (h ++ rest) buffer ≡ returns full)
      × Fills (length buffer) full (hex_encode h ++ 0 ∷ [])
unfolding write_hex
write_hex-hex_encode h rest buffer len bytes room =
    let (full, loop, f) =
      hex_encode_loop_lem h rest (h ++ rest) buffer 0 refl bytes (Fills-nil buffer) refl
        (omega arith) in
    let loop' : hex_encode_loop max_hash_len (h ++ rest) buffer 0 ≡ returns full =
      subst (λ n. hex_encode_loop n (h ++ rest) buffer 0 ≡ returns full) len loop in
    let size : length (hex_encode h) ≡ max_hash_len * 2 =
      length-hex_encode h ∙ ap (λ n. n * 2) len in
    let behind = write-Fills full (hex_encode h) 0 f (omega arith) in
    let written : write full (max_hash_len * 2) 0 ≡ returns (set full (length (hex_encode h)) 0) =
      ap (λ n. write full n 0) (sym size) ∙ behind in
    (
      set full (length (hex_encode h)) 0,
      rw (loop', written),
      Fills-push full (hex_encode h) 0 f (omega arith),
    )

-- `hashEncodeHex`, whatever its local buffer holds at first: the 20 bytes at the start of a buffer
-- with room for 41 are replaced by their 40 digits and a terminator, what stands behind stays, and
-- the call returns 0.
pub hash_encode_hex-hex_encode :
    (buffer h rest : Bytes) (buffer_length : ℕ)
    → length buffer ≡ max_hexenc_hash_len + 1
    → length h ≡ max_hash_len
    → All IsByte h
    → max_hexenc_hash_len < buffer_length
    → buffer_length ≤ length (h ++ rest)
    → hash_encode_hex buffer (h ++ rest) (pos buffer_length)
      ≡ returns (pos 0, hex_encode h ++ 0 ∷ drop (max_hexenc_hash_len + 1) (h ++ rest))
unfolding hash_encode_hex
hash_encode_hex-hex_encode buffer h rest buffer_length size len bytes wide room =
    let (full, written, f) = write_hex-hex_encode h rest buffer len bytes (omega arith) in
    let text : length (hex_encode h ++ 0 ∷ []) ≡ max_hexenc_hash_len + 1 =
      length-append (hex_encode h) (0 ∷ []) ∙ omega (arith, length-hex_encode h) in
    let front : take (max_hexenc_hash_len + 1) full ≡ hex_encode h ++ 0 ∷ [] =
      rw text at f.written in
    let copy =
      memcpy-fits (h ++ rest) full _ front text (omega (arith, f.total)) (omega arith)
      ∙ ap returns (append_assoc (hex_encode h) (0 ∷ []) _) in
    ground (arith, written, copy)

-- A buffer length below 41 is refused, and nothing is written.
pub hash_encode_hex_short :
    (buffer hash : Bytes) (buffer_length : ℕ)
    → buffer_length < max_hexenc_hash_len + 1
    → hash_encode_hex buffer hash (pos buffer_length) ≡ returns (minus_one, hash)
unfolding hash_encode_hex
hash_encode_hex_short buffer hash buffer_length h = ground arith

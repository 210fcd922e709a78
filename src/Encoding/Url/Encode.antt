-- ===== src/Encoding/Url/Encode.antt =====
-- `hashEncodeURL` writes the percent-encoding of a hash.
use native.Mathlib.Numerals.{add-one}
use traccoon.CLib.Laws.{strncpy-fits}
use traccoon.Encoding.CharIndex.{char_index, char_index-has, is_minus_one, has}
use traccoon.Encoding.Digits.{hex_char, read-hexdict}
use traccoon.Encoding.Hex.{max_hash_len}
use traccoon.Encoding.Hex.Encode.{IsByte}
use traccoon.Encoding.Url.RoundTrip.{url_encode-NonZero, length-url_encode, length-encode_byte}
use traccoon.Encoding.Url.{
  max_urlenc_hash_len, unreserved, nonreserved, encode_escape, url_encode_loop, hash_encode_url,
  encode_byte, url_encode,
}
use traccoon.Memory.{
  returns, read-drop, Fills, write-Fills, Fills-push, Fills-set, Fills-nil, Fills-split,
}
use traccoon.Prelude.{
  ℕ, suc, ◌+◌, ◌-◌, ◌*◌, ◌/◌, ◌%◌, ◌<◌, ◌≤◌, ◌≡◌, refl, ap, subst, sym, ◌∙◌, inl, inr, not,
  Bool-cases, some, [], ◌∷◌, ◌++◌, Bytes, length, ℤ, pos, drop, set, replicate, All, arith,
  drop_tail, append_assoc, append-nil, length-append,
}

char_index-nonreserved :
    (d : ℕ)
    → (z : ℤ) × (char_index (some nonreserved) d ≡ returns z)
      × (is_minus_one z ≡ not (has unreserved d))
char_index-nonreserved d = char_index-has unreserved d (omega arith)

module _ (buffer out : Bytes) (d : ℕ) {m : ℕ} (f : Fills m buffer out) (room : length out + 2 < m)
    (byte : d < 256) where
  -- `%` over the copied byte, and two digits behind
  encode_escape_lem :
      (full : Bytes) × (encode_escape (set buffer (length out) d) (length out) d ≡ returns full)
      × Fills m full (out ++ b'%' ∷ hex_char (d / 16) ∷ hex_char (d % 16) ∷ [])
  unfolding encode_escape
  encode_escape_lem =
      let high : ℕ = hex_char (d / 16) in
      let low : ℕ = hex_char (d % 16) in
      let copied : Bytes = set buffer (length out) d in
      let f₀ = Fills-set buffer out d f (omega arith) in
      let mark : Bytes = set copied (length out) b'%' in
      let f₁ = Fills-push copied out b'%' f₀ (omega arith) in
      let len₁ = length-append out (b'%' ∷ []) in
      let half : Bytes = set mark (length (out ++ b'%' ∷ [])) high in
      let f₂ = Fills-push mark (out ++ b'%' ∷ []) high f₁ (omega arith) in
      let len₂ = length-append (out ++ b'%' ∷ []) (high ∷ []) in
      let f₃ = Fills-push half ((out ++ b'%' ∷ []) ++ high ∷ []) low f₂ (omega arith) in
      (
        set half (length ((out ++ b'%' ∷ []) ++ high ∷ [])) low,
        ground (
          arith,
          read-hexdict (d / 16),
          read-hexdict (d % 16),
          len₁,
          len₂,
          write-Fills copied out b'%' f₀ (omega arith),
          write-Fills mark (out ++ b'%' ∷ []) high f₁ (omega arith),
          write-Fills half ((out ++ b'%' ∷ []) ++ high ∷ []) low f₂ (omega arith),
        ),
        subst (Fills m (set half (length ((out ++ b'%' ∷ []) ++ high ∷ [])) low))
            (append_assoc (out ++ b'%' ∷ []) (high ∷ []) (low ∷ [])
              ∙ append_assoc out (b'%' ∷ []) (high ∷ low ∷ []))
            f₃,
      )

-- One round: the byte at `i` goes, encoded, behind those that are written.
url_encode_round :
    (n : ℕ) (hash buffer out : Bytes) (i d : ℕ) {m : ℕ} {h : Bytes}
    → drop i hash ≡ d ∷ h
    → d < 256
    → Fills m buffer out
    → length out + 2 < m
    → (full : Bytes) × (url_encode_loop (suc n) hash buffer i (length out)
        ≡ url_encode_loop n hash full (i + 1) (length (out ++ encode_byte d)))
      × Fills m full (out ++ encode_byte d)
unfolding url_encode_loop encode_byte
url_encode_round n hash buffer out i d here byte f room =
    let (z, at, plain_iff) = char_index-nonreserved d in
    let copied : Bytes = set buffer (length out) d in
    elim (Bool-cases (has unreserved d)) [
      | inl plain ↦ (
        copied,
        rw
            (
              plain,
              read-drop hash i here,
              write-Fills buffer out d f (omega arith),
              at,
              plain_iff,
              plain,
            )
            (ap (url_encode_loop n hash copied (i + 1)) (sym (length-append out (d ∷ [])))),
        rw plain (Fills-push buffer out d f (omega arith)),
      )
      | inr escaped ↦
          let (full, e, f') = encode_escape_lem buffer out d f room byte in
          (
            full,
            rw
                (
                  escaped,
                  read-drop hash i here,
                  write-Fills buffer out d f (omega arith),
                  at,
                  plain_iff,
                  escaped,
                  e,
                )
                (ap (url_encode_loop n hash full (i + 1)) (sym (length-append out _))),
            rw escaped f',
          )
    ]

-- All rounds.
url_encode_loop_lem :
    (h rest : Bytes) (hash buffer out : Bytes) (i : ℕ) {m : ℕ}
    → drop i hash ≡ h ++ rest
    → All IsByte h
    → Fills m buffer out
    → length out + length h * 3 < m
    → (full : Bytes) × (url_encode_loop (length h) hash buffer i (length out)
        ≡ returns (full, length (out ++ url_encode h)))
      × Fills m full (out ++ url_encode h)
unfolding url_encode
url_encode_loop_lem [] rest hash buffer out i here _ f room =
    rw (append-nil out) (buffer, unfold url_encode_loop in refl, f)
url_encode_loop_lem (d ∷ h) rest hash buffer out i here (byte, bytes) f room =
    let (full, step, f') =
      url_encode_round (length h) hash buffer out i d here byte f (omega arith) in
    let (last, more, f'') =
      url_encode_loop_lem h rest hash full (out ++ encode_byte d) (i + 1)
        (rw (add-one i) (drop_tail hash i here)) bytes f'
        (omega (arith, length-append out (encode_byte d), length-encode_byte d)) in
    rw (← append_assoc out (encode_byte d) (url_encode h)) (last, step ∙ more, f'')

-- `hashEncodeURL`, whatever its local buffer holds at first, on a hash of 20 bytes at the start of
-- an object with room for `maxlen` bytes, where `maxlen` leaves room for a terminator: the encoding
-- replaces the hash, zeros fill the object up to `maxlen`, and the call returns 0.
pub hash_encode_url-url_encode :
    (buffer h rest : Bytes) (maxlen : ℕ)
    → length buffer ≡ max_urlenc_hash_len + 1
    → length h ≡ max_hash_len
    → All IsByte h
    → length (url_encode h) < maxlen
    → maxlen ≤ length (h ++ rest)
    → hash_encode_url buffer (h ++ rest) maxlen
      ≡ returns (
        pos 0,
        url_encode h ++ (replicate (maxlen - length (url_encode h)) 0 ++ drop maxlen (h ++ rest)),
      )
unfolding hash_encode_url
hash_encode_url-url_encode buffer h rest maxlen size len bytes wide room =
    let start : Fills (max_urlenc_hash_len + 1) buffer [] = rw size at (Fills-nil buffer) in
    let (full, loop, f) =
      url_encode_loop_lem h rest (h ++ rest) buffer [] 0 refl bytes start (omega arith) in
    let fits = length-url_encode h in
    let ended = write-Fills full (url_encode h) 0 f (omega arith) in
    let (text, e) = Fills-split (Fills-push full (url_encode h) 0 f (omega arith)) in
    let k : ℕ = maxlen - length (url_encode h) - 1 in
    let copy =
      strncpy-fits (h ++ rest) (url_encode h) text maxlen k (url_encode-NonZero h) (omega arith)
        room in
    let count : suc k ≡ maxlen - length (url_encode h) = omega arith in
    let loop' : url_encode_loop max_hash_len (h ++ rest) buffer 0 0
        ≡ returns (full, length (url_encode h)) =
      rw len at loop in
    rw (loop', ended, e, append_assoc (url_encode h) (0 ∷ []) text, copy)
      (ap (λ n. returns (pos 0, url_encode h ++ (replicate n 0 ++ drop maxlen (h ++ rest)))) count)

-- ===== src/Encoding/Hex/Decode.antt =====
-- The loop of `destructiveHexDecode` decodes: reading and writing one buffer does no harm.
use traccoon.Encoding.CharIndex.{char_index-hexdict}
use traccoon.Encoding.Digits.{escape_value, hex_pair-escape_value}
use traccoon.Encoding.Hex.{
  store_or_stop, decode_pair, half_pair, terminate, hex_decode_round, hex_decode_loop,
  destructive_hex_decode, hex_decode,
}
use traccoon.Encoding.InPlace.{
  index_lem, count_lem, result_lem, At, At-write, At-skip, Outcome, Outcome-cons,
}
use traccoon.Memory.{returns, read-drop, read-drop_1, write-set}
use traccoon.Prelude.{
  ◌^◌, ℕ, zero, suc, ◌+◌, ◌<◌, ◌≡◌, ◌≢◌, refl, ap, subst, ◌∙◌, inl, inr, Option-cases, none, some,
  [], ◌∷◌, ◌++◌, Bytes, length, minus_one, set, All, arith, lt-length_of_drop, take-set, length-set,
  length-append, append-nil,
}

loop_end :
    {n : ℕ} (fuel : ℕ) (buf : Bytes) {i c : ℕ} {out rest : Bytes}
    → At n buf i c out (0 ∷ rest)
    → i < 2 ^ 31
    → Outcome n out (some []) (hex_decode_loop (suc fuel) buf i c)
unfolding hex_decode_loop hex_decode_round terminate
loop_end fuel buf {i} {c} {out} a near =
    let fits : c < length buf = omega (arith, lt-length_of_drop buf i a.here, a.behind) in
    (
      set buf c 0,
      rw (
        read-drop buf i a.here,
        write-set buf c 0 fits,
        append-nil out,
        a.size,
        result_lem i c near a.behind,
      ),
      rw (append-nil out, a.size) (take-set buf c 0 fits ∙ ap (λ o. o ++ 0 ∷ []) a.written),
      length-set buf c 0 ∙ a.total,
    )

module _ {n : ℕ} (fuel : ℕ) (buf : Bytes) {i c a b : ℕ} {out text : Bytes}
    (s : At n buf i c out (a ∷ b ∷ text)) (a_nz : a ≢ 0) (near : i < 2 ^ 31) where
  loop_half : b ≡ 0 → hex_decode_loop (suc fuel) buf i c ≡ returns (minus_one, buf)
  unfolding hex_decode_loop hex_decode_round half_pair
  loop_half b_zero =
      ground
        (arith, read-drop buf i s.here, read-drop_1 buf i s.here, index_lem i 1 near (omega arith))

  round_pair : b ≢ 0 → hex_decode_round buf i c ≡ store_or_stop buf c (escape_value a b)
  unfolding hex_decode_round half_pair decode_pair
  round_pair b_nz = ground (
    arith,
    read-drop buf i s.here,
    read-drop_1 buf i s.here,
    index_lem i 1 near (omega arith),
    char_index-hexdict a,
    char_index-hexdict b,
    hex_pair-escape_value a b,
  )

  loop_pair :
      b ≢ 0
      → hex_decode_loop (suc fuel) buf i c ≡ elim (escape_value a b) [
        | none ↦ returns (minus_one, buf)
        | some v ↦ hex_decode_loop fuel (set buf c v) (i + 2) (c + 1)
      ]
  unfolding hex_decode_loop
  loop_pair b_nz =
      let fits : c < length buf = omega (arith, lt-length_of_drop buf i s.here, s.behind) in
      rw (round_pair b_nz) (elim (Option-cases (escape_value a b)) [
        | inl e ↦ rw e (unfold store_or_stop in refl)
        | inr (v, e) ↦ rw e (
            unfold store_or_stop in
            rw (
              write-set buf c v fits,
              index_lem i 2 near (omega arith),
              count_lem i c near s.behind,
            ))
      ])

-- From any round on, the loop writes the decoding of the text that is in front of it.
loop_lem :
    (s rest : Bytes) {n : ℕ} (fuel : ℕ) (buf : Bytes) {i c : ℕ} {out : Bytes}
    → At n buf i c out (s ++ 0 ∷ rest)
    → All (λ x. x ≢ 0) s
    → length s < fuel
    → i + length s < 2 ^ 31
    → Outcome n out (hex_decode s) (hex_decode_loop fuel buf i c)
unfolding hex_decode
loop_lem s rest zero buf a nz lt lim = absurd (omega arith)
loop_lem [] rest (suc fuel) buf a nz lt lim = loop_end fuel buf a (omega arith)
loop_lem (x ∷ []) rest (suc fuel) buf a (nz, _) lt lim =
    (buf, loop_half fuel buf a nz (omega arith) refl, a.total)
loop_lem (x ∷ y ∷ s) rest {n} (suc fuel) buf {i} {c} {out} a (nz, (y_nz, more)) lt lim =
    let near : i < 2 ^ 31 = omega arith in
    rw (loop_pair fuel buf a nz near y_nz) (elim (Option-cases (escape_value x y)) [
      | inl e ↦ rw (e, hex_decode) (buf, refl, a.total)
      | inr (v, e) ↦
          let a' : At n (set buf c v) (i + 2) (c + 1) (out ++ v ∷ []) (s ++ 0 ∷ rest) =
            subst (λ k. At n (set buf c v) k (c + 1) (out ++ v ∷ []) (s ++ 0 ∷ rest)) (omega arith)
              (At-skip (At-write v a)) in
          rw (e, hex_decode)
            (Outcome-cons _ out v (hex_decode s) _
              (loop_lem s rest fuel _ a' more (omega arith) (omega arith)))
    ])

-- `destructiveHexDecode` on a terminated text, below 2^31 bytes and with anything behind the
-- terminator, ends and stays inside the buffer. If the text decodes to `d`, it returns the length of `d` and
-- leaves `d` and a terminator at the start of the buffer; if it has an odd length or a byte that is
-- no lower case hex digit, it returns -1. The buffer keeps its size.
pub destructive_hex_decode-hex_decode :
    (s rest : Bytes)
    → All (λ x. x ≢ 0) s
    → length s < 2 ^ 31
    → Outcome (length (s ++ 0 ∷ rest)) [] (hex_decode s) (destructive_hex_decode (s ++ 0 ∷ rest))
unfolding destructive_hex_decode
destructive_hex_decode-hex_decode s rest nz small =
    let shorter : length s < suc (length (s ++ 0 ∷ rest)) =
      omega (arith, length-append s (0 ∷ rest)) in
    loop_lem s rest _ _ {i = 0} {c = 0}
      (record { here = refl; written = refl; size = refl; behind = omega arith; total = refl }) nz
      shorter (omega arith)

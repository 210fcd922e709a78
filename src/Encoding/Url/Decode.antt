-- ===== src/Encoding/Url/Decode.antt =====
-- The loop of `destructiveURLDecode` decodes: reading and writing one buffer does no harm.
use traccoon.Encoding.CharIndex.{char_index-hexdict}
use traccoon.Encoding.Digits.{escape_value, hex_pair-escape_value}
use traccoon.Encoding.InPlace.{
  index_lem, count_lem, result_lem, At, At-write, At-skip_2, Outcome, Outcome-cons,
}
use traccoon.Encoding.Url.{
  next, is_escape, decode_escape, byte_or_stop, escape_behind, copy_or_decode, terminate,
  url_decode_round, url_decode_loop, destructive_url_decode, url_decode,
}
use traccoon.Memory.{returns, read, read-drop, read-drop_1, read-drop_2, write-set}
use traccoon.Prelude.{
  unsigned, ◌^◌, ℕ, zero, suc, ◌+◌, ◌<◌, ◌≤◌, ◌≡◌, ◌≢◌, refl, ap, ◌∙◌, inl, inr, Bool-cases,
  Option-cases, Bool, true, false, none, some, [], ◌∷◌, ◌++◌, Bytes, length, ◌==◌, if◌then◌else◌,
  minus_one, drop, set, All, arith, lt-length_of_drop, drop-set_same, take-set, set-set, length-set,
  append-nil, length-append,
}

-- The three ways in which the text in front of `i` can be no escape, or be one.
module _ (buf : Bytes) (i x : ℕ) (here : read buf i ≡ returns x) (one : unsigned (i + 1) ≡ i + 1)
    (two : unsigned (i + 2) ≡ i + 2) where
  is_escape_last : read buf (i + 1) ≡ returns 0 → is_escape buf i ≡ returns false
  unfolding is_escape escape_behind
  is_escape_last h = ground (arith, here, one, two, h)

  is_escape_next_to_last :
      (a : ℕ)
      → read buf (i + 1) ≡ returns a
      → read buf (i + 2) ≡ returns 0
      → is_escape buf i ≡ returns false
  unfolding is_escape escape_behind
  is_escape_next_to_last a h k = ground (arith, here, one, two, h, k)

  is_escape_full :
      (a b : ℕ)
      → read buf (i + 1) ≡ returns a
      → read buf (i + 2) ≡ returns b
      → a ≢ 0
      → b ≢ 0
      → is_escape buf i ≡ returns (x == b'%')
  unfolding is_escape escape_behind
  is_escape_full a b h k a_nz b_nz = ground (arith, here, one, two, h, k, a_nz, b_nz)

decode_escape_lem :
    (buf : Bytes) (i c a b : ℕ)
    → read buf (i + 1) ≡ returns a
    → read buf (i + 2) ≡ returns b
    → unsigned (i + 1) ≡ i + 1
    → unsigned (i + 2) ≡ i + 2
    → decode_escape buf i c ≡ byte_or_stop buf i c (escape_value a b)
unfolding decode_escape
decode_escape_lem buf i c a b h k one two =
    rw (one, two, h, char_index-hexdict a, k, char_index-hexdict b, hex_pair-escape_value a b)

-- One round, at an index where a byte of the text stands.
module _ (buf : Bytes) (i c x : ℕ) (s : Bytes) (here : drop i buf ≡ x ∷ s) (behind : c ≤ i)
    (nz : x ≢ 0) where
  url_decode_round_lem :
      (escaped : Bool)
      → is_escape (set buf c x) i ≡ returns escaped
      → url_decode_round buf i c ≡ (
          if escaped
          then decode_escape (set buf c x) i c
          else returns (next (set buf c x) (unsigned (i + 1)) (unsigned (c + 1))))
  unfolding url_decode_round copy_or_decode
  url_decode_round_lem escaped h =
      let fits : c < length buf = omega (arith, lt-length_of_drop buf i here) in
      ground (arith, read-drop buf i here, write-set buf c x fits)

module _ {n : ℕ} (fuel : ℕ) (buf : Bytes) {i c x : ℕ} {out text : Bytes}
    (a : At n buf i c out (x ∷ text)) where
  loop_plain :
      i < 2 ^ 31
      → x ≢ 0
      → is_escape (set buf c x) i ≡ returns false
      → url_decode_loop (suc fuel) buf i c ≡ url_decode_loop fuel (set buf c x) (i + 1) (c + 1)
  unfolding url_decode_loop
  loop_plain near nz h = rw (
    url_decode_round_lem buf i c x text a.here a.behind nz false h,
    index_lem i 1 near (omega arith),
    count_lem i c near a.behind,
  )

  -- what stands at `i` after the copy is what stood there
  copied : drop i (set buf c x) ≡ x ∷ text
  copied = drop-set_same buf i c a.here a.behind

loop_end :
    {n : ℕ} (fuel : ℕ) (buf : Bytes) {i c : ℕ} {out rest : Bytes}
    → At n buf i c out (0 ∷ rest)
    → i < 2 ^ 31
    → Outcome n out (some []) (url_decode_loop (suc fuel) buf i c)
unfolding url_decode_loop url_decode_round terminate
loop_end fuel buf {i} {c} {out} a near =
    let fits : c < length buf = omega (arith, lt-length_of_drop buf i a.here, a.behind) in
    (
      set buf c 0,
      rw (
        read-drop buf i a.here,
        write-set buf c 0 fits,
        append-nil out,
        a.size,
        result_lem i c near a.behind,
      ),
      rw (append-nil out, a.size) (take-set buf c 0 fits ∙ ap (λ o. o ++ 0 ∷ []) a.written),
      length-set buf c 0 ∙ a.total,
    )

loop_escape :
    {n : ℕ} (fuel : ℕ) (buf : Bytes) {i c x a b : ℕ} {out text : Bytes}
    → At n buf i c out (x ∷ a ∷ b ∷ text)
    → (x == b'%') ≡ true
    → x ≢ 0
    → a ≢ 0
    → b ≢ 0
    → i < 2 ^ 31
    → url_decode_loop (suc fuel) buf i c ≡ elim (escape_value a b) [
      | none ↦ returns (minus_one, set buf c x)
      | some v ↦ url_decode_loop fuel (set buf c v) (i + 3) (c + 1)
    ]
unfolding url_decode_loop
loop_escape fuel buf {i} {c} {x} {a} {b} s percent nz a_nz b_nz near =
    let buf' : Bytes = set buf c x in
    let after = copied fuel buf s in
    let first = read-drop_1 buf' i after in
    let second = read-drop_2 buf' i after in
    let one = index_lem i 1 near (omega arith) in
    let two = index_lem i 2 near (omega arith) in
    let escaped =
      is_escape_full buf' i x (read-drop buf' i after) one two a b first second a_nz b_nz in
    let fits : c < length buf' =
      rw (length-set buf c x) (omega (arith, lt-length_of_drop buf i s.here, s.behind)) in
    rw
      (
        url_decode_round_lem buf i c x _ s.here s.behind nz true (escaped ∙ ap returns percent),
        decode_escape_lem buf' i c a b first second one two,
      )
      (elim (Option-cases (escape_value a b)) [
        | inl e ↦ rw e (unfold byte_or_stop in refl)
        | inr (v, e) ↦ rw e (
            unfold byte_or_stop in
            rw (
              write-set buf' c v fits,
              set-set buf c x v,
              index_lem i 3 near (omega arith),
              count_lem i c near s.behind,
            ))
      ])

-- From any round on, the loop writes the decoding of the text that is in front of it.
loop_lem :
    (s rest : Bytes) {n : ℕ} (fuel : ℕ) (buf : Bytes) {i c : ℕ} {out : Bytes}
    → At n buf i c out (s ++ 0 ∷ rest)
    → All (λ x. x ≢ 0) s
    → length s < fuel
    → i + length s < 2 ^ 31
    → Outcome n out (url_decode s) (url_decode_loop fuel buf i c)
unfolding url_decode
loop_lem s rest zero buf a nz lt lim = absurd (omega arith)
loop_lem [] rest (suc fuel) buf a nz lt lim = loop_end fuel buf a (omega arith)
loop_lem (x ∷ []) rest (suc fuel) buf {i} {c} {out} a (nz, _) lt lim =
    let near : i < 2 ^ 31 = omega arith in
    let after = copied fuel buf a in
    let plain =
      is_escape_last _ i x (read-drop _ i after) (index_lem i 1 near (omega arith))
        (index_lem i 2 near (omega arith)) (read-drop_1 _ i after) in
    rw (loop_plain fuel buf a near nz plain) (
      Outcome-cons _ out x (some []) _
        (loop_lem [] rest fuel _ (At-write x a) tt (omega arith) (omega arith)))
loop_lem (x ∷ y ∷ []) rest (suc fuel) buf {i} {c} {out} a (nz, more) lt lim =
    let near : i < 2 ^ 31 = omega arith in
    let after = copied fuel buf a in
    let plain =
      is_escape_next_to_last _ i x (read-drop _ i after) (index_lem i 1 near (omega arith))
        (index_lem i 2 near (omega arith)) y (read-drop_1 _ i after) (read-drop_2 _ i after) in
    rw (loop_plain fuel buf a near nz plain) (
      Outcome-cons _ out x (some (y ∷ [])) _
        (loop_lem (y ∷ []) rest fuel _ (At-write x a) more (omega arith) (omega arith)))
loop_lem (x ∷ y ∷ z ∷ s) rest (suc fuel) buf {i} {c} {out} a (nz, (y_nz, (z_nz, more))) lt lim =
    let near : i < 2 ^ 31 = omega arith in
    elim (Bool-cases (x == b'%')) [
      | inl percent ↦
          rw (percent, loop_escape fuel buf a percent nz y_nz z_nz near)
            (elim (Option-cases (escape_value y z)) [
              | inl e ↦ rw e (set buf c x, refl, length-set buf c x ∙ a.total)
              | inr (v, e) ↦ rw e (
                  Outcome-cons _ out v (url_decode s) _ (
                    loop_lem s rest fuel _ (At-skip_2 i (At-write v a)) more (omega arith)
                      (omega arith)))
            ])
      | inr other ↦
          let after = copied fuel buf a in
          let plain =
            is_escape_full _ i x (read-drop _ i after) (index_lem i 1 near (omega arith))
              (index_lem i 2 near (omega arith)) y z (read-drop_1 _ i after) (read-drop_2 _ i after)
              y_nz z_nz in
          rw (other, loop_plain fuel buf a near nz (plain ∙ ap returns other))
            (Outcome-cons _ out x (url_decode (y ∷ z ∷ s)) _ (
              loop_lem (y ∷ z ∷ s) rest fuel _ (At-write x a) (y_nz, (z_nz, more)) (omega arith)
                (omega arith)))
    ]

-- `destructiveURLDecode` on a terminated text, below 2^31 bytes and with anything behind the
-- terminator, ends and stays inside the buffer. If the text decodes to `d`, it returns the length of `d` and
-- leaves `d` and a terminator at the start of the buffer; if not, it returns -1. The buffer keeps
-- its size.
pub destructive_url_decode-url_decode :
    (s rest : Bytes)
    → All (λ x. x ≢ 0) s
    → length s < 2 ^ 31
    → Outcome (length (s ++ 0 ∷ rest)) [] (url_decode s) (destructive_url_decode (s ++ 0 ∷ rest))
unfolding destructive_url_decode
destructive_url_decode-url_decode s rest nz small =
    let shorter : length s < suc (length (s ++ 0 ∷ rest)) =
      omega (arith, length-append s (0 ∷ rest)) in
    loop_lem s rest _ _ {i = 0} {c = 0}
      (record { here = refl; written = refl; size = refl; behind = omega arith; total = refl }) nz
      shorter (omega arith)

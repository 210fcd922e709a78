-- ===== src/Benc/Offset/Dict.antt =====
-- `benc_dict_value_offset` finds the value of a key of an encoded dictionary.
use traccoon.Benc.Length.Rounds.{next_position, byte_at_lem, byte_at-Starts, type_at_lem, drop_item}
use traccoon.Benc.Length.{from, at_end}
use traccoon.Benc.Offset.{key_matches, dict_loop}
use traccoon.Benc.Scan.Shape.{
  entity_type-encode_string, string_length-encode_string, string_data_offset-encode_string,
}
use traccoon.Benc.Shape.{Starts, Starts-encode_string, Starts-append, limit}
use traccoon.Benc.Value.{Fields, end, field, encode_string, encode}
use traccoon.CLib.Decimal.{decimal}
use traccoon.CLib.{strlen, strncmp_equal}
use traccoon.Memory.{Run, returns}
use traccoon.Prelude.{
  ℕ, suc, ◌+◌, ◌%◌, ◌<◌, ◌≡◌, ◌≢◌, refl, sym, ◌∙◌, inl, inr, Bool, true, false, Bool-cases, Option,
  none, some, ◌&&◌, [], ◌∷◌, ◌++◌, Bytes, length, drop, All, ◌==◌, if◌then◌else◌, ℤ, pos, minus_one,
  +ℤ-pos, arith, append_assoc, length-append,
}

unfoldable pub same_bytes : Bytes → Bytes → Bool
same_bytes [] [] = true
same_bytes (x ∷ a) (y ∷ b) = x == y && same_bytes a b
same_bytes _ _ = false

strlen_lem : (s rest : Bytes) → All (λ x. x ≢ 0) s → strlen (s ++ 0 ∷ rest) ≡ returns (length s)
unfolding strlen
strlen_lem [] rest _ = refl
strlen_lem (x ∷ s) rest (nz, more) = ground (arith, strlen_lem s rest more)

strncmp_lem :
    (a b ra rb : Bytes)
    → All (λ x. x ≢ 0) a
    → length a ≡ length b
    → strncmp_equal (a ++ ra) (b ++ rb) (length a) ≡ returns (same_bytes a b)
unfolding strncmp_equal same_bytes
strncmp_lem [] [] ra rb _ len = refl
strncmp_lem [] (y ∷ b) ra rb _ len = absurd (omega arith)
strncmp_lem (x ∷ a) [] ra rb _ len = absurd (omega arith)
strncmp_lem (x ∷ a) (y ∷ b) ra rb (nz, more) len =
    ground (arith, strncmp_lem a b ra rb more (omega arith))

same_bytes-length : (a b : Bytes) → length a ≢ length b → same_bytes a b ≡ false
unfolding same_bytes
same_bytes-length [] [] ne = absurd (ne refl)
same_bytes-length [] (y ∷ b) ne = refl
same_bytes-length (x ∷ a) [] ne = refl
same_bytes-length (x ∷ a) (y ∷ b) ne = ground (arith, same_bytes-length a b (omega arith))

-- The text of a string stands behind its decimal length and the colon.
pub drop_text :
    (buf : Bytes) (q : ℕ) (k rest : Bytes)
    → drop q buf ≡ encode_string k ++ rest
    → drop (q + (length (decimal (length k)) + 1)) buf ≡ k ++ rest
drop_text buf q k rest here =
    let ds : Bytes = decimal (length k) in
    let prefix : Bytes = ds ++ b':' ∷ [] in
    let len : length prefix ≡ length ds + 1 = length-append ds (b':' ∷ []) in
    let shape : drop q buf ≡ prefix ++ (k ++ rest) =
      here
      ∙ unfold encode_string in
        (append_assoc ds (b':' ∷ k) rest ∙ sym (append_assoc ds (b':' ∷ []) (k ++ rest))) in
    rw len at (drop_item buf q prefix (k ++ rest) shape)

pub key_matches-same_bytes :
    (key after : Bytes) (buf : Bytes) (q : ℕ) (k rest : Bytes)
    → All (λ x. x ≢ 0) key
    → length k < limit
    → drop q buf ≡ encode_string k ++ rest
    → key_matches (key ++ 0 ∷ after) buf (pos q) ≡ returns (same_bytes key k)
unfolding key_matches from
key_matches-same_bytes key after buf q k rest nz fits here =
    let start = strlen_lem key after nz in
    let size = string_length-encode_string k rest fits in
    let off = string_data_offset-encode_string k rest in
    elim (Bool-cases (length key == length k)) [
      | inl same ↦
          let compared = strncmp_lem key k (0 ∷ after) rest nz (ground arith) in
          ground (
            arith,
            start,
            here,
            size,
            off,
            +ℤ-pos q (length (decimal (length k)) + 1),
            drop_text buf q k rest here,
            compared,
          )
      | inr other ↦ ground (arith, start, here, size, same_bytes-length key k (ground arith))
    ]

-- Where the value of the first field with key `key` begins, counted from the first key.
unfoldable pub value_position : Fields → Bytes → Option ℕ
value_position end key = none
value_position (field k v fs) key =
    if same_bytes key k then some (length (encode_string k)) else elim (value_position fs key) [
      | none ↦ none
      | some j ↦ some (length (encode_string k) + length (encode v) + j)
    ]

module _ (len : ℤ → Run ℤ) (test : ℤ → ℕ → Run Bool) (found : ℤ → Run ℤ) (fuel : ℕ) (buf : Bytes)
    (p off index : ℕ) where
  pub loop_missing :
      {rest : Bytes}
      → drop (p + off + 1) buf ≡ b'e' ∷ rest
      → dict_loop len test found (suc fuel) buf (pos p) (pos off) index ≡ returns minus_one
  unfolding dict_loop at_end
  loop_missing here = ground (arith, next_position p off, byte_at_lem buf (p + off + 1) here)

  pub loop_key :
      (hit : Bool) (k rest : Bytes)
      → drop (p + off + 1) buf ≡ encode_string k ++ rest
      → index % 2 ≡ 0
      → test (pos (p + off + 1)) index ≡ returns hit
      → len (pos (p + off + 1)) ≡ returns (pos (length (encode_string k)))
      → dict_loop len test found (suc fuel) buf (pos p) (pos off) index ≡ (
          if hit
          then found (pos off)
          else dict_loop len test found fuel buf
              (pos p)
              (pos (off + length (encode_string k)))
              (index + 1))
  unfolding dict_loop
  loop_key hit k rest here even tested measured =
      let (c, e, more) =
        byte_at-Starts buf (p + off + 1) here (Starts-append _ _ (Starts-encode_string k)) in
      ground (
        arith,
        next_position p off,
        e,
        more,
        tested,
        measured,
        +ℤ-pos off (length (encode_string k)),
        type_at_lem buf (p + off + 1) here (entity_type-encode_string k rest),
      )

  pub loop_value :
      (n : ℕ) {s : Bytes}
      → drop (p + off + 1) buf ≡ s
      → Starts s
      → index % 2 ≡ 1
      → len (pos (p + off + 1)) ≡ returns (pos n)
      → dict_loop len test found (suc fuel) buf (pos p) (pos off) index
        ≡ dict_loop len test found fuel buf (pos p) (pos (off + n)) (index + 1)
  unfolding dict_loop
  loop_value n here starts odd measured =
      let (c, e, more) = byte_at-Starts buf (p + off + 1) here starts in
      ground (arith, next_position p off, e, more, measured, +ℤ-pos off n)

-- ===== src/Benc/Offset/Find.antt =====
-- The search of `benc_dict_value_offset` from the first key to the one that matches.
use traccoon.Benc.Length.Encode.{
  entity_length-encode, entity_length-encode_string, entity_type_dict, inside,
}
use traccoon.Benc.Length.Rounds.{next_position, type_at_lem, drop_item}
use traccoon.Benc.Length.{entity_length}
use traccoon.Benc.Offset.Dict.{
  same_bytes, key_matches-same_bytes, value_position, loop_missing, loop_key, loop_value,
}
use traccoon.Benc.Offset.List.{offset_from, offset_shift}
use traccoon.Benc.Offset.{key_matches, dict_loop, behind_key, dict_value_offset}
use traccoon.Benc.Shape.{
  Starts-encode_string, Starts-encode, Starts-append, Starts-pos, encode-dict, encode_fields-end,
  encode_fields-field, length-dict, length-field, limit,
}
use traccoon.Benc.Value.{Value, dict, Fields, end, field, encode_string, encode, encode_fields}
use traccoon.CLib.Decimal.{decimal}
use traccoon.Memory.{Run, returns}
use traccoon.Prelude.{
  ℕ, zero, suc, ◌+◌, ◌%◌, ◌<◌, ◌≤◌, ◌≡◌, ◌≢◌, refl, ap, ◌∙◌, inl, inr, Bool-cases, some, ◌∷◌, ◌++◌,
  Bytes, length, drop, All, if◌then◌else◌, ℤ, pos, +ℤ-pos, arith, append_assoc, length-append,
}

pub length-key : (k : Bytes) → length k < length (encode_string k)
unfolding encode_string
length-key k = omega (arith, length-append (decimal (length k)) (b':' ∷ k))

module _ (key after : Bytes) (nz : All (λ x. x ≢ 0) key) (fuel : ℕ) (buf : Bytes) (p : ℕ) where
  abbrev search_from : ℕ → ℕ → ℕ → Run ℤ
  search_from rounds off index =
      dict_loop (entity_length fuel buf) (λ q i. key_matches (key ++ 0 ∷ after) buf q)
        (behind_key (entity_length fuel buf) (pos p)) rounds buf (pos p) (pos off) index

  -- What is in front of the loop at an offset: the fields `fs`, and the end of the dictionary.
  record InFront (fs : Fields) (rounds off index : ℕ) (rest : Bytes) : Type 0 where
    here : drop (p + off + 1) buf ≡ encode_fields fs ++ b'e' ∷ rest
    enough : length (encode_fields fs) ≤ fuel
    more : length (encode_fields fs) < rounds
    fits : length (encode_fields fs) < limit
    even : index % 2 ≡ 0

  behind_key_lem :
      (off : ℕ) (k rest : Bytes)
      → drop (p + off + 1) buf ≡ encode_string k ++ rest
      → length (encode_string k) ≤ fuel
      → length (encode_string k) < limit
      → behind_key (entity_length fuel buf) (pos p) (pos off)
        ≡ returns (pos (off + length (encode_string k) + 1))
  unfolding behind_key
  behind_key_lem off k rest here enough fits =
      rw
        (
          next_position p off,
          entity_length-encode_string k fuel buf (p + off + 1) rest here enough fits,
          +ℤ-pos,
          +ℤ-pos,
        )
        (ap (λ n. returns (pos n)) (omega arith))

  -- The two rounds of a field.
  search_field :
      (k : Bytes) (v : Value) (fs : Fields) (rounds off index : ℕ) (rest : Bytes)
      → InFront (field k v fs) (suc (suc rounds)) off index rest
      → (search_from (suc (suc rounds)) off index ≡ (
          if same_bytes key k
          then returns (pos (off + length (encode_string k) + 1))
          else search_from rounds
              (off + (length (encode_string k) + length (encode v)))
              (index + 1 + 1)))
        × InFront fs rounds
            (off + (length (encode_string k) + length (encode v)))
            (index + 1 + 1)
            rest
  search_field k v fs rounds off index rest f =
      let len = length-field k v fs in
      let key_pos = Starts-pos (encode_string k) (Starts-encode_string k) in
      let val_pos = Starts-pos (encode v) (Starts-encode v) in
      let start =
        f.here
        ∙ ap (λ s. s ++ b'e' ∷ rest) (encode_fields-field k v fs)
        ∙ append_assoc (encode_string k) (encode v ++ encode_fields fs) (b'e' ∷ rest) in
      let off' : ℕ = off + length (encode_string k) in
      let middle : drop (p + off' + 1) buf ≡ encode v ++ (encode_fields fs ++ b'e' ∷ rest) =
        ap (λ n. drop n buf) {y = p + off + 1 + length (encode_string k)} (omega arith)
        ∙ drop_item buf (p + off + 1) (encode_string k) _ start
        ∙ append_assoc (encode v) (encode_fields fs) (b'e' ∷ rest) in
      let off'' : ℕ = off + (length (encode_string k) + length (encode v)) in
      let behind : drop (p + off'' + 1) buf ≡ encode_fields fs ++ b'e' ∷ rest =
        ap (λ n. drop n buf) {y = p + off' + 1 + length (encode v)} (omega arith)
        ∙ drop_item buf (p + off' + 1) (encode v) _ middle in
      let tested =
        key_matches-same_bytes key after buf (p + off + 1) k _ nz
          (omega (arith, length-key k, f.fits)) start in
      let key_measured =
        entity_length-encode_string k fuel buf (p + off + 1) _ start (omega (arith, f.enough))
          (omega (arith, f.fits)) in
      let value_measured =
        entity_length-encode v fuel buf (p + off' + 1) _ middle (omega (arith, f.enough))
          (omega (arith, f.fits)) in
      let hit = behind_key_lem off k _ start (omega (arith, f.enough)) (omega (arith, f.fits)) in
      let first =
        loop_key (entity_length fuel buf) (λ q i. key_matches (key ++ 0 ∷ after) buf q)
          (behind_key (entity_length fuel buf) (pos p)) (suc rounds) buf p off index
          (same_bytes key k) k _ start f.even tested key_measured in
      let second =
        loop_value (entity_length fuel buf) (λ q i. key_matches (key ++ 0 ∷ after) buf q)
          (behind_key (entity_length fuel buf) (pos p)) rounds buf p off' (index + 1)
          (length (encode v)) middle (Starts-append _ _ (Starts-encode v)) (omega (arith, f.even))
          value_measured in
      let regroup : off' + length (encode v) ≡ off'' = omega arith in
      (
        first ∙ elim (Bool-cases (same_bytes key k)) [
          | inl same ↦ rw same hit
          | inr other ↦ rw other (second ∙ ap (λ n. search_from rounds n (index + 1 + 1)) regroup)
        ],
        record {
          here = behind;
          enough = omega (arith, f.enough);
          more = omega (arith, f.more);
          fits = omega (arith, f.fits);
          even = omega (arith, f.even);
        },
      )

  search_lem :
      (fs : Fields) (rounds off index : ℕ) (rest : Bytes)
      → InFront fs rounds off index rest
      → search_from rounds off index ≡ returns (offset_from off (value_position fs key))
  unfolding value_position
  search_lem end zero off index rest f = absurd (omega (arith, f.more))
  search_lem end (suc rounds) off index rest f =
      loop_missing _ _ _ rounds buf p off index
        (f.here ∙ ap (λ s. s ++ b'e' ∷ rest) encode_fields-end)
  search_lem (field k v fs) zero off index rest f = absurd (omega (arith, f.more))
  search_lem (field k v fs) (suc zero) off index rest f = absurd (
      omega (
        arith,
        f.more,
        length-field k v fs,
        Starts-pos _ (Starts-encode_string k),
        Starts-pos _ (Starts-encode v),
      ))
  search_lem (field k v fs) (suc (suc rounds)) off index rest f =
      let (step, f') = search_field k v fs rounds off index rest f in
      let next =
        search_lem fs rounds (off + (length (encode_string k) + length (encode v))) (index + 1 + 1)
          rest f' in
      step ∙ elim (Bool-cases (same_bytes key k)) [
        | inl same ↦ rw same
        | inr other ↦ rw other (
            next
            ∙ offset_shift off (length (encode_string k) + length (encode v))
                (value_position fs key))
      ]

  -- `benc_dict_value_offset` at an encoded dictionary, wherever it stands and whatever follows it,
  -- with a key that is a terminated string: the offset at which the value of the first field with
  -- that key begins, and -1 if there is no such field.
  pub dict_value_offset-value_position :
      (fs : Fields) (rest : Bytes)
      → drop p buf ≡ encode (dict fs) ++ rest
      → length (encode (dict fs)) ≤ fuel
      → length (encode (dict fs)) < limit
      → dict_value_offset fuel buf (pos p) (some (key ++ 0 ∷ after))
        ≡ returns (offset_from 0 (value_position fs key))
  unfolding dict_value_offset
  dict_value_offset-value_position fs rest here enough fits =
      let start = here ∙ ap (λ s. s ++ rest) (encode-dict fs) in
      let len = length-dict fs in
      rw (type_at_lem buf p start (entity_type_dict _)) (
        search_lem fs fuel 0 0 rest (record {
          here = inside buf p b'd' (encode_fields fs) rest start;
          enough = omega arith;
          more = omega arith;
          fits = omega arith;
          even = refl;
        }))

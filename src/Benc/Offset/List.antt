-- ===== src/Benc/Offset/List.antt =====
-- `benc_list_item_offset` finds the items of an encoded list.
use traccoon.Benc.Length.Encode.{entity_length-encode, entity_type_list, inside}
use traccoon.Benc.Length.Rounds.{next_position, byte_at_lem, byte_at-Starts, type_at_lem, drop_item}
use traccoon.Benc.Length.{at_end, entity_length}
use traccoon.Benc.Offset.{list_item_loop, list_item_offset}
use traccoon.Benc.Shape.{
  Starts, Starts-encode, Starts-append, Starts-pos, encode-list, encode_items-nil,
  encode_items-cons, length-list, length-cons, limit,
}
use traccoon.Benc.Value.{list, Items, nil, cons, encode, encode_items}
use traccoon.Memory.{Run, returns}
use traccoon.Prelude.{
  ℕ, zero, suc, ◌+◌, ◌<◌, ◌≤◌, ◌≡◌, refl, ap, ◌∙◌, Option, none, some, ◌∷◌, ◌++◌, Bytes, length,
  drop, ℤ, pos, minus_one, +ℤ-pos, arith, append_assoc,
}

-- Where item `n` begins, counted from the first one.
unfoldable pub item_position : Items → ℕ → Option ℕ
item_position nil n = none
item_position (cons v xs) zero = some 0
item_position (cons v xs) (suc n) = elim (item_position xs n) [
  | none ↦ none
  | some k ↦ some (length (encode v) + k)
]

-- The offset that is returned for a position behind the one that the loop has reached.
abbrev pub offset_from : ℕ → Option ℕ → ℤ
offset_from off none = minus_one
offset_from off (some k) = pos (off + k + 1)

pub offset_shift :
    (off k : ℕ) (o : Option ℕ)
    → ◌≡◌ {A = Run ℤ}
        (returns (offset_from (off + k) o))
        (returns (offset_from off (elim o [ none ↦ none | some j ↦ some (k + j) ])))
offset_shift off k none = refl
offset_shift off k (some j) = ap (λ n. returns (pos n)) (omega arith)

module _ (len : ℤ → Run ℤ) (fuel : ℕ) (buf : Bytes) (p item off cur : ℕ) {s : Bytes}
    (here : drop (p + off + 1) buf ≡ s) (starts : Starts s) where
  item_found :
      cur ≡ item
      → list_item_loop len (suc fuel) buf (pos p) item (pos off) cur ≡ returns (pos (off + 1))
  unfolding list_item_loop
  item_found same =
      let (c, e, more) = byte_at-Starts buf (p + off + 1) here starts in
      ground (arith, next_position p off, e, more, +ℤ-pos off 1)

  item_passed :
      (n : ℕ)
      → cur < item
      → len (pos (p + off + 1)) ≡ returns (pos n)
      → list_item_loop len (suc fuel) buf (pos p) item (pos off) cur
        ≡ list_item_loop len fuel buf (pos p) item (pos (off + n)) (cur + 1)
  unfolding list_item_loop
  item_passed n other measured =
      let (c, e, more) = byte_at-Starts buf (p + off + 1) here starts in
      ground (arith, next_position p off, e, more, measured, +ℤ-pos off n)

item_missing :
    (len : ℤ → Run ℤ) (fuel : ℕ) (buf : Bytes) (p item off cur : ℕ) {rest : Bytes}
    → drop (p + off + 1) buf ≡ b'e' ∷ rest
    → list_item_loop len (suc fuel) buf (pos p) item (pos off) cur ≡ returns minus_one
unfolding list_item_loop at_end
item_missing len fuel buf p item off cur here =
    ground (arith, next_position p off, byte_at_lem buf (p + off + 1) here)

list_item_loop_lem :
    (xs : Items) (n cur fuel rounds : ℕ) (buf : Bytes) (p off : ℕ) (rest : Bytes)
    → drop (p + off + 1) buf ≡ encode_items xs ++ b'e' ∷ rest
    → length (encode_items xs) ≤ fuel
    → length (encode_items xs) < rounds
    → length (encode_items xs) < limit
    → list_item_loop (entity_length fuel buf) rounds buf (pos p) (cur + n) (pos off) cur
      ≡ returns (offset_from off (item_position xs n))
unfolding item_position
list_item_loop_lem nil n cur fuel zero buf p off rest here enough more fits = absurd (omega arith)
list_item_loop_lem (cons v xs) n cur fuel zero buf p off rest here enough more fits =
    absurd (omega arith)
list_item_loop_lem nil n cur fuel (suc rounds) buf p off rest here enough more fits =
    item_missing (entity_length fuel buf) rounds buf p (cur + n) off cur
      (here ∙ ap (λ s. s ++ b'e' ∷ rest) encode_items-nil)
list_item_loop_lem (cons v xs) zero cur fuel (suc rounds) buf p off rest here enough more fits =
    let start =
      here
      ∙ ap (λ s. s ++ b'e' ∷ rest) (encode_items-cons v xs)
      ∙ append_assoc (encode v) (encode_items xs) (b'e' ∷ rest) in
    item_found (entity_length fuel buf) rounds buf p (cur + 0) off cur start
      (Starts-append _ _ (Starts-encode v)) (omega arith)
    ∙ ap (λ k. returns (pos k)) (omega arith)
list_item_loop_lem (cons v xs) (suc n) cur fuel (suc rounds) buf p off rest here enough more fits =
    let start =
      here
      ∙ ap (λ s. s ++ b'e' ∷ rest) (encode_items-cons v xs)
      ∙ append_assoc (encode v) (encode_items xs) (b'e' ∷ rest) in
    let len = length-cons v xs in
    let positive = Starts-pos (encode v) (Starts-encode v) in
    let measured =
      entity_length-encode v fuel buf (p + off + 1) _ start (omega arith) (omega arith) in
    let behind : drop (p + (off + length (encode v)) + 1) buf ≡ encode_items xs ++ b'e' ∷ rest =
      ap (λ k. drop k buf) {y = p + off + 1 + length (encode v)} (omega arith)
      ∙ drop_item buf (p + off + 1) (encode v) _ start in
    let next =
      list_item_loop_lem xs n (cur + 1) fuel rounds buf p (off + length (encode v)) rest behind
        (omega arith) (omega arith) (omega arith) in
    let index : cur + 1 + n ≡ cur + suc n = omega arith in
    item_passed (entity_length fuel buf) rounds buf p (cur + suc n) off cur start
      (Starts-append _ _ (Starts-encode v)) (length (encode v)) (omega arith) measured
    ∙ rw (← index) next
    ∙ offset_shift off (length (encode v)) (item_position xs n)

-- `benc_list_item_offset` at an encoded list, wherever it stands and whatever follows it: the
-- offset at which item `item` begins, behind the opening letter and the items before it, and -1
-- if the list has no such item.
pub list_item_offset-item_position :
    (xs : Items) (item fuel : ℕ) (buf : Bytes) (p : ℕ) (rest : Bytes)
    → drop p buf ≡ encode (list xs) ++ rest
    → length (encode (list xs)) ≤ fuel
    → length (encode (list xs)) < limit
    → list_item_offset fuel buf (pos p) (pos item) ≡ returns (offset_from 0 (item_position xs item))
unfolding list_item_offset
list_item_offset-item_position xs item fuel buf p rest here enough fits =
    let start = here ∙ ap (λ s. s ++ rest) (encode-list xs) in
    let len = length-list xs in
    let items = inside buf p b'l' (encode_items xs) rest start in
    let found =
      list_item_loop_lem xs item 0 fuel fuel buf p 0 rest items (omega arith) (omega arith)
        (omega arith) in
    let index : 0 + item ≡ item = omega arith in
    rw (type_at_lem buf p start (entity_type_list _)) (rw index at found)

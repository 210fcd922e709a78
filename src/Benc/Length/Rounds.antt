-- ===== src/Benc/Length/Rounds.antt =====
-- One round of the loops of `benc_entity_length`.
use traccoon.Benc.Shape.{Starts}
use traccoon.Benc.Length.{
  from, byte_at, type_at, at_end, list_length_loop, bad_key, dict_length_loop,
}
use traccoon.Benc.Scan.Shape.{entity_type-encode_string}
use traccoon.Benc.Scan.{EntityType, peek, entity_type}
use traccoon.Benc.Value.{encode_string}
use traccoon.Memory.{Run, returns}
use traccoon.Prelude.{
  ℕ, suc, ◌+◌, ◌%◌, ◌≡◌, ap, ◌∙◌, false, ◌∷◌, ◌++◌, Bytes, length, drop, ℤ, pos, minus_one, ==ℤ,
  ◌+ℤ◌, +ℤ-pos, arith, drop-append, drop-drop,
}

-- The position one behind an offset.
pub next_position : (p off : ℕ) → pos p +ℤ pos off +ℤ pos 1 ≡ pos (p + off + 1)
next_position p off = rw (+ℤ-pos, +ℤ-pos)

module _ (buf : Bytes) (q : ℕ) {s : Bytes} (here : drop q buf ≡ s) where
  pub byte_at-Starts : Starts s → (c : ℕ) × (byte_at buf (pos q) ≡ returns c) × (at_end c ≡ false)
  unfolding Starts byte_at from peek
  byte_at-Starts (c, t, e, h) = (c, rw (here, e), h)

  pub type_at_lem : {t : EntityType} → entity_type s ≡ returns t → type_at buf (pos q) ≡ returns t
  unfolding type_at from
  type_at_lem h = rw here h

pub byte_at_lem :
    (buf : Bytes) (q : ℕ) {c : ℕ} {s : Bytes} → drop q buf ≡ c ∷ s → byte_at buf (pos q) ≡ returns c
unfolding byte_at from peek
byte_at_lem buf q h = rw h

-- What a measured item leaves in front of the next position.
pub drop_item :
    (buf : Bytes) (q : ℕ) (item rest : Bytes)
    → drop q buf ≡ item ++ rest
    → drop (q + length item) buf ≡ rest
drop_item buf q item rest h =
    drop-drop q (length item) buf ∙ ap (drop (length item)) h ∙ drop-append item rest

pub ==ℤ-minus_one : (n : ℕ) → ==ℤ (pos n) minus_one ≡ false
==ℤ-minus_one n = ground arith

-- A round of the loop over a list, at an item of length `n`, and behind the last one.
module _ (len : ℤ → Run ℤ) (fuel : ℕ) (buf : Bytes) (p off n : ℕ) {s : Bytes}
    (here : drop (p + off + 1) buf ≡ s) (starts : Starts s)
    (measured : len (pos (p + off + 1)) ≡ returns (pos n)) where
  pub list_round :
      list_length_loop len (suc fuel) buf (pos p) (pos off)
      ≡ list_length_loop len fuel buf (pos p) (pos (off + n))
  unfolding list_length_loop
  list_round =
      let (c, e, more) = byte_at-Starts buf (p + off + 1) here starts in
      ground (arith, next_position p off, e, more, measured, ==ℤ-minus_one n, +ℤ-pos off n)

  pub dict_round :
      (index : ℕ)
      → bad_key buf (pos (p + off + 1)) index ≡ returns false
      → dict_length_loop len (suc fuel) buf (pos p) (pos off) index
        ≡ dict_length_loop len fuel buf (pos p) (pos (off + n)) (index + 1)
  unfolding dict_length_loop
  dict_round index good =
      let (c, e, more) = byte_at-Starts buf (p + off + 1) here starts in
      ground (arith, next_position p off, e, more, good, measured, ==ℤ-minus_one n, +ℤ-pos off n)

module _ (len : ℤ → Run ℤ) (fuel : ℕ) (buf : Bytes) (p off : ℕ) {rest : Bytes}
    (here : drop (p + off + 1) buf ≡ b'e' ∷ rest) where
  pub list_last : list_length_loop len (suc fuel) buf (pos p) (pos off) ≡ returns (pos (off + 2))
  unfolding list_length_loop at_end
  list_last = rw (next_position p off, byte_at_lem buf (p + off + 1) here, +ℤ-pos)

  pub dict_last :
      (index : ℕ)
      → index % 2 ≡ 0
      → dict_length_loop len (suc fuel) buf (pos p) (pos off) index ≡ returns (pos (off + 2))
  unfolding dict_length_loop at_end
  dict_last index even = rw (next_position p off, byte_at_lem buf (p + off + 1) here, +ℤ-pos, even)

pub good_key :
    (buf : Bytes) (q index : ℕ) (k rest : Bytes)
    → drop q buf ≡ encode_string k ++ rest
    → bad_key buf (pos q) index ≡ returns false
unfolding bad_key
good_key buf q index k rest here =
    ground (arith, type_at_lem buf q here (entity_type-encode_string k rest))

pub odd_key :
    (buf : Bytes) (q : ℤ) (index : ℕ) → index % 2 ≡ 1 → bad_key buf q index ≡ returns false
unfolding bad_key
odd_key buf q index odd = rw odd

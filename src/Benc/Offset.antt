-- ===== src/Benc/Offset.antt =====
-- benc/benc.c: `benc_list_item_offset`, `benc_dict_key_offset` and `benc_dict_value_offset`. The
-- offsets are relative to `p`. A failed length, -1, is added to the offset like any other.
pub mod List
pub mod Dict
pub mod Find
use traccoon.Benc.Length.{from, byte_at, type_at, at_end, entity_length}
use traccoon.Benc.Scan.{
  EntityType, t_fail, t_dict, t_list, t_int, t_string, string_length, string_data_offset,
}
use traccoon.CLib.{strlen, strncmp_equal}
use traccoon.Memory.{Run, returns, out_of_fuel, ◌>>=◌}
use traccoon.Prelude.{
  ℕ, zero, suc, ◌+◌, ◌*◌, ◌%◌, ◌&&◌, Bool, true, false, Option, none, some, Bytes, ◌==◌,
  if◌then◌else◌, ℤ, pos, negsuc, minus_one, ==ℤ, ◌+ℤ◌,
}

unfoldable pub list_item_loop : (ℤ → Run ℤ) → ℕ → Bytes → ℤ → ℕ → ℤ → ℕ → Run ℤ
list_item_loop len zero buf p item offset cur_item = out_of_fuel
list_item_loop len (suc fuel) buf p item offset cur_item = do
  c ← byte_at buf (p +ℤ offset +ℤ pos 1)
  elim (at_end c) [
    | true ↦ returns minus_one
    | false ↦ elim (cur_item == item) [
      | true ↦ returns (offset +ℤ pos 1)
      | false ↦ do
        n ← len (p +ℤ offset +ℤ pos 1)
        list_item_loop len fuel buf p item (offset +ℤ n) (cur_item + 1)
    ]
  ]

unfoldable pub list_item_offset : ℕ → Bytes → ℤ → ℤ → Run ℤ
list_item_offset fuel buf p (negsuc n) = returns minus_one
list_item_offset fuel buf p (pos item) = do
  t ← type_at buf p
  elim t [
    | t_list ↦ list_item_loop (entity_length fuel buf) fuel buf p item (pos 0) 0
    | _ ↦ returns minus_one
  ]

-- the conversion of an `int` to `size_t` in `strlen(key)==benc_string_length(…)`
abbrev same_size : ℕ → ℤ → Bool
same_size n (pos m) = n == m
same_size n (negsuc m) = false

-- whether the string at `q` has the length of `key`, and then its bytes
unfoldable pub key_matches : Bytes → Bytes → ℤ → Run Bool
key_matches key buf q = do
  n ← strlen key
  s ← from buf q
  m ← string_length s
  elim (same_size n m) [
    | true ↦ do off ← string_data_offset s; t ← from buf (q +ℤ off); strncmp_equal key t n
    | false ↦ returns false
  ]

-- The loop of both functions on dictionaries: `test` says whether the key at a position and of an
-- index is the one looked for, and `found` what is returned at it.
unfoldable pub dict_loop :
    (ℤ → Run ℤ) → (ℤ → ℕ → Run Bool) → (ℤ → Run ℤ) → ℕ → Bytes → ℤ → ℤ → ℕ → Run ℤ
dict_loop len test found zero buf p offset index = out_of_fuel
dict_loop len test found (suc fuel) buf p offset index = do
  c ← byte_at buf (p +ℤ offset +ℤ pos 1)
  elim (at_end c) [
    | true ↦ returns minus_one
    | false ↦ elim (index % 2 == 0) [
      | true ↦ do
        t ← type_at buf (p +ℤ offset +ℤ pos 1)
        elim t [
          | t_string ↦ do
            hit ← test (p +ℤ offset +ℤ pos 1) index
            elim hit [
              | true ↦ found offset
              | false ↦ do
                n ← len (p +ℤ offset +ℤ pos 1)
                dict_loop len test found fuel buf p (offset +ℤ n) (index + 1)
            ]
          | _ ↦ returns minus_one
        ]
      | false ↦ do
        n ← len (p +ℤ offset +ℤ pos 1)
        dict_loop len test found fuel buf p (offset +ℤ n) (index + 1)
    ]
  ]

-- `offset+1+benc_entity_length(buf+offset+1,0)`
unfoldable pub behind_key : (ℤ → Run ℤ) → ℤ → ℤ → Run ℤ
behind_key len p offset = do n ← len (p +ℤ offset +ℤ pos 1); returns (offset +ℤ pos 1 +ℤ n)

-- `key` may be NULL.
unfoldable pub dict_value_offset : ℕ → Bytes → ℤ → Option Bytes → Run ℤ
dict_value_offset fuel buf p none = returns minus_one
dict_value_offset fuel buf p (some key) = do
  t ← type_at buf p
  elim t [
    | t_dict ↦
        let len = entity_length fuel buf in
        dict_loop len (λ q index. key_matches key buf q) (behind_key len p) fuel buf p (pos 0) 0
    | _ ↦ returns minus_one
  ]

unfoldable pub dict_key_offset : ℕ → Bytes → ℤ → ℤ → Run ℤ
dict_key_offset fuel buf p (negsuc n) = returns minus_one
dict_key_offset fuel buf p (pos index) = do
  t ← type_at buf p
  elim t [
    | t_dict ↦
        dict_loop (entity_length fuel buf) (λ q i. returns (i == index * 2))
          (λ offset. returns (offset +ℤ pos 1)) fuel buf p (pos 0) 0
    | _ ↦ returns minus_one
  ]

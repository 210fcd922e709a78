-- ===== src/Benc/Length.antt =====
-- benc/benc.c: `benc_entity_length`, which recurs into dictionaries and lists. Its second argument
-- is only printed in debug builds, and is left out.
pub mod Rounds
pub mod Encode
use traccoon.Benc.Scan.{
  EntityType, t_fail, t_dict, t_list, t_int, t_string, peek, entity_type, int_entity_length,
  string_entity_length,
}
use traccoon.Memory.{Run, returns, fault, out_of_fuel, ◌>>=◌}
use traccoon.Prelude.{
  ℕ, zero, suc, ◌+◌, ◌%◌, ◌&&◌, ◌||◌, Bool, true, false, not, [], ◌∷◌, Bytes, drop, ◌==◌,
  if◌then◌else◌, ℤ, pos, negsuc, minus_one, ==ℤ, ◌+ℤ◌,
}

-- What stands from a position on; there is nothing to read in front of the object or behind it.
unfoldable pub from : Bytes → ℤ → Run Bytes
from buf (pos p) = returns (drop p buf)
from buf (negsuc n) = fault

unfoldable pub byte_at : Bytes → ℤ → Run ℕ
byte_at buf p = do s ← from buf p; peek s

unfoldable pub type_at : Bytes → ℤ → Run EntityType
type_at buf p = do s ← from buf p; entity_type s

-- the test of the loops, `buf[offset+1]!='e'&&buf[offset+1]!=0`
unfoldable pub at_end : ℕ → Bool
at_end c = c == b'e' || c == 0

-- The loops over the items of the entity at `p`, where `len` is the recursive call.
unfoldable pub list_length_loop : (ℤ → Run ℤ) → ℕ → Bytes → ℤ → ℤ → Run ℤ
list_length_loop len zero buf p offset = out_of_fuel
list_length_loop len (suc fuel) buf p offset = do
  c ← byte_at buf (p +ℤ offset +ℤ pos 1)
  elim (at_end c) [
    | true ↦ returns (if c == b'e' then offset +ℤ pos 2 else minus_one)
    | false ↦ do
      n ← len (p +ℤ offset +ℤ pos 1)
      elim (==ℤ n minus_one) [
        | true ↦ returns minus_one
        | false ↦ list_length_loop len fuel buf p (offset +ℤ n)
      ]
  ]

-- whether the item at `q`, of index `index`, is a key that is no string
unfoldable pub bad_key : Bytes → ℤ → ℕ → Run Bool
bad_key buf q index = do
  t ← (if index % 2 == 0 then type_at buf q else returns t_string)
  returns (elim t [ t_string ↦ false | _ ↦ true ])

unfoldable pub dict_length_loop : (ℤ → Run ℤ) → ℕ → Bytes → ℤ → ℤ → ℕ → Run ℤ
dict_length_loop len zero buf p offset index = out_of_fuel
dict_length_loop len (suc fuel) buf p offset index = do
  c ← byte_at buf (p +ℤ offset +ℤ pos 1)
  elim (at_end c) [
    | true ↦ returns (if c == b'e' && index % 2 == 0 then offset +ℤ pos 2 else minus_one)
    | false ↦ do
      bad ← bad_key buf (p +ℤ offset +ℤ pos 1) index
      elim bad [
        | true ↦ returns minus_one
        | false ↦ do
          n ← len (p +ℤ offset +ℤ pos 1)
          elim (==ℤ n minus_one) [
            | true ↦ returns minus_one
            | false ↦ dict_length_loop len fuel buf p (offset +ℤ n) (index + 1)
          ]
      ]
  ]

-- The switch of `benc_entity_length` at `p`, where `s` stands, with `len` for the recursive call.
unfoldable pub length_by_type : (ℤ → Run ℤ) → ℕ → Bytes → ℤ → Bytes → EntityType → Run ℤ
length_by_type len fuel buf p s t_dict = dict_length_loop len fuel buf p (pos 0) 0
length_by_type len fuel buf p s t_list = list_length_loop len fuel buf p (pos 0)
length_by_type len fuel buf p s t_int = int_entity_length s
length_by_type len fuel buf p s t_string = string_entity_length s
length_by_type len fuel buf p s t_fail = returns minus_one

-- The fuel bounds the depth and, at each depth, the number of items.
unfoldable pub entity_length : ℕ → Bytes → ℤ → Run ℤ
entity_length zero buf p = out_of_fuel
entity_length (suc fuel) buf p = do
  s ← from buf p
  t ← entity_type s
  length_by_type (entity_length fuel buf) fuel buf p s t

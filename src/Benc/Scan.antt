-- ===== src/Benc/Scan.antt =====
-- benc/benc.c: the functions that scan one entity forwards, on what a pointer has in front of it.
pub mod Shape
pub mod IntValue
use traccoon.CLib.Number.{strtol, strtoul}
use traccoon.CLib.{is_digit}
use traccoon.Memory.{Run, returns, fault, ◌>>=◌}
use traccoon.Prelude.{
  ℕ, ◌+◌, ◌&&◌, ◌||◌, Bool, true, false, not, [], ◌∷◌, Bytes, drop, ltb, leb, ◌==◌, if◌then◌else◌,
  ℤ, pos, negsuc, minus_one, to_int, ◌+ℤ◌,
}

-- `BENC_ENTITY_TYPE`
pub data EntityType : Type 0 where
  t_fail t_dict t_list t_int t_string : EntityType

-- `buf[0]`
unfoldable pub peek : Bytes → Run ℕ
peek [] = fault
peek (c ∷ s) = returns c

-- `for(;isdigit(buf[i]);i++)` from index `i`: the index behind the digits, and what stands there
unfoldable pub skip_digits : ℕ → Bytes → Run (ℕ × Bytes)
skip_digits i [] = fault
skip_digits i (c ∷ s) =
    let rest = skip_digits (i + 1) s in if is_digit c then rest else returns (i, c ∷ s)

unfoldable pub string_or_fail : Bytes → Run EntityType
string_or_fail buf = do
  behind ← skip_digits 0 buf
  e ← peek behind.1
  returns (if e == b':' && ltb 0 behind.0 then t_string else t_fail)

unfoldable pub entity_type : Bytes → Run EntityType
entity_type buf = do
  c ← peek buf
  if c == b'd'
      then returns t_dict
      else if c == b'l'
      then returns t_list
      else if c == b'i'
      then returns t_int
      else string_or_fail buf

unfoldable pub string_length : Bytes → Run ℤ
string_length buf = do
  t ← entity_type buf
  elim t [ t_string ↦ (do n ← strtoul buf; returns (to_int (pos n))) | _ ↦ returns minus_one ]

-- `for(i=0;buf[i]!=':';i++)`
unfoldable pub find_colon : ℕ → Bytes → Run ℕ
find_colon i [] = fault
find_colon i (c ∷ s) = let rest = find_colon (i + 1) s in if c == b':' then returns i else rest

unfoldable pub string_data_offset : Bytes → Run ℤ
string_data_offset buf = do
  t ← entity_type buf
  elim t [ t_string ↦ do i ← find_colon 0 buf; returns (pos (i + 1)) | _ ↦ returns minus_one ]

-- `if(buf[i]=='-'){i++;}`
unfoldable pub skip_minus : ℕ → Bytes → Run (ℕ × Bytes)
skip_minus i [] = fault
skip_minus i (c ∷ s) = returns (if c == b'-' then (i + 1, s) else (i, c ∷ s))

-- a minus sign, and then the loop over the digits
unfoldable pub skip_int : ℕ → Bytes → Run (ℕ × Bytes)
skip_int i s = do unsigned ← skip_minus i s; skip_digits unsigned.0 unsigned.1

-- `buf+1`
unfoldable pub behind_first : Bytes → Run Bytes
behind_first [] = fault
behind_first (c ∷ s) = returns s

-- with `t` the text behind the `i`: `i` counts its bytes up to the end of the digits
unfoldable pub int_text_value : Bytes → ℤ → Run ℤ
int_text_value t defval = do
  behind ← skip_int 0 t
  e ← peek behind.1
  elim (leb behind.0 1 || not (e == b'e')) [
    | true ↦ returns defval
    | false ↦ do n ← strtol t; returns (to_int n)
  ]

unfoldable pub int_value : Bytes → ℤ → Run ℤ
int_value buf defval = do
  t ← entity_type buf
  elim t [ t_int ↦ do text ← behind_first buf; int_text_value text defval | _ ↦ returns defval ]

-- the case `T_INT` of `benc_entity_length`
unfoldable pub int_entity_length : Bytes → Run ℤ
int_entity_length buf = do
  text ← behind_first buf
  behind ← skip_int 1 text
  e ← peek behind.1
  returns (if e == b'e' then pos (behind.0 + 1) else minus_one)

-- the case `T_STRING`; the sum is a `long`, and returned as an `int`
unfoldable pub string_entity_length : Bytes → Run ℤ
string_entity_length buf = do
  behind ← skip_digits 0 buf
  e ← peek behind.1
  elim (e == b':' && ltb 0 behind.0) [
    | true ↦ do conv ← strtol buf; returns (to_int (pos behind.0 +ℤ conv +ℤ pos 1))
    | false ↦ returns minus_one
  ]

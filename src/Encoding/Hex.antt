-- ===== src/Encoding/Hex.antt =====
-- encoding.c: `destructiveHexDecode` and `hashEncodeHex`, and the coding that they implement.
pub mod Decode
pub mod Encode
use traccoon.CLib.{memcpy}
use traccoon.Encoding.CharIndex.{char_index, hexdict}
use traccoon.Encoding.Digits.{hex_pair, escape_value, cons_some, hex_char}
use traccoon.Memory.{Run, returns, out_of_fuel, ◌>>=◌, read, write}
use traccoon.Prelude.{
  unsigned, unsigned-small, to_int, to_int-small, size_of_int, ◌^◌, ℕ, zero, suc, ◌+◌, ◌-◌, ◌*◌,
  ◌/◌, ◌%◌, Option, none, some, [], ◌∷◌, Bytes, length, ltb, ◌==◌, if◌then◌else◌, ℤ, pos, negsuc,
  minus_one,
}

-- the constants of encoding.h
abbrev pub max_hash_len : ℕ
max_hash_len = 20

abbrev pub max_hexenc_hash_len : ℕ
max_hexenc_hash_len = max_hash_len * 2

-- What a round of the decoding loop does: it goes on with the buffer, or the function returns.
pub data Round : Type 0 where
  next : Bytes → Round
  stop : ℤ → Bytes → Round

store_or_stop : Bytes → ℕ → Option ℕ → Run Round
store_or_stop buf c none = returns (stop minus_one buf)
store_or_stop buf c (some v) = do buf' ← write buf c v; returns (next buf')

-- the pair of digits at `i`, of which the second is not the terminator
decode_pair : Bytes → ℕ → ℕ → ℕ → Run Round
decode_pair buf i c b = do
  a ← read buf i
  first ← char_index (some hexdict) a
  second ← char_index (some hexdict) b
  store_or_stop buf c (hex_pair first second)

half_pair : Bytes → ℕ → ℕ → Run Round
half_pair buf i c = do
  b ← read buf (unsigned (i + 1))
  if b == 0 then returns (stop minus_one buf) else decode_pair buf i c b

terminate : Bytes → ℕ → Run Round
terminate buf c = do buf' ← write buf c 0; returns (stop (to_int (pos c)) buf')

hex_decode_round : Bytes → ℕ → ℕ → Run Round
hex_decode_round buf i c = do e ← read buf i; if e == 0 then terminate buf c else half_pair buf i c

pub hex_decode_loop : ℕ → Bytes → ℕ → ℕ → Run (ℤ × Bytes)
hex_decode_loop zero buf i c = out_of_fuel
hex_decode_loop (suc fuel) buf i c = do
  r ← hex_decode_round buf i c
  elim r [
    | next buf' ↦ hex_decode_loop fuel buf' (unsigned (i + 2)) (unsigned (c + 1))
    | stop z buf' ↦ returns (z, buf')
  ]

-- `i` grows in each round of a text below 2^32 bytes, so the length bounds the rounds. `i` and `c`
-- are unsigned, and the result is an `int`.
unfoldable pub destructive_hex_decode : Bytes → Run (ℤ × Bytes)
destructive_hex_decode encoded = hex_decode_loop (suc (length encoded)) encoded 0 0

-- The bytes that a text of hex digits stands for.
unfoldable pub hex_decode : Bytes → Option Bytes
hex_decode [] = some []
hex_decode (a ∷ []) = none
hex_decode (a ∷ b ∷ s) =
    let behind = hex_decode s in
    elim (escape_value a b) [ none ↦ none | some v ↦ cons_some v behind ]

-- `for(i=0;i<MAX_HASH_LEN;i++)`, with `n` rounds left
unfoldable pub hex_encode_loop : ℕ → Bytes → Bytes → ℕ → Run Bytes
hex_encode_loop zero hash buffer i = returns buffer
hex_encode_loop (suc n) hash buffer i = do
  d ← read hash i
  high ← read hexdict (d / 16)
  half ← write buffer (i * 2) high
  low ← read hexdict (d % 16)
  both ← write half (i * 2 + 1) low
  hex_encode_loop n hash both (i + 1)

-- The loop over a hash, and the terminator behind the digits.
unfoldable pub write_hex : Bytes → Bytes → Run Bytes
write_hex hash buffer = do
  digits ← hex_encode_loop max_hash_len hash buffer 0
  write digits (max_hash_len * 2) 0

-- `buffer` is what the local array holds when the function is called. The result has the contents
-- of `hash` behind it.
unfoldable pub hash_encode_hex : Bytes → Bytes → ℤ → Run (ℤ × Bytes)
hash_encode_hex buffer hash buffer_length =
    if ltb (size_of_int buffer_length) (max_hexenc_hash_len + 1)
    then returns (minus_one, hash)
    else (do
      written ← write_hex hash buffer
      hash' ← memcpy hash written (max_hexenc_hash_len + 1)
      returns (pos 0, hash'))

unfoldable pub hex_encode : Bytes → Bytes
hex_encode [] = []
hex_encode (d ∷ h) = hex_char (d / 16) ∷ hex_char (d % 16) ∷ hex_encode h

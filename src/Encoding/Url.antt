-- ===== src/Encoding/Url.antt =====
-- encoding.c: `destructiveURLDecode` and `hashEncodeURL`, and the coding that they implement.
pub mod Decode
pub mod Encode
pub mod RoundTrip
pub mod Plain
use traccoon.Encoding.CharIndex.{char_index, hexdict, is_minus_one, has}
use traccoon.Encoding.Digits.{hex_pair, escape_value, cons_some, hex_char}
use traccoon.CLib.{strncpy}
use traccoon.Encoding.Hex.{max_hash_len}
use traccoon.Memory.{Run, returns, out_of_fuel, ◌>>=◌, read, write}
use traccoon.Prelude.{
  unsigned, unsigned-small, to_int, to_int-small, size_of_int, ◌^◌, ℕ, zero, suc, ◌+◌, ◌*◌, ◌/◌,
  ◌%◌, Bool, true, false, not, ◌||◌, ◌++◌, codes, ==ℤ, Option, none, some, [], ◌∷◌, Bytes, length,
  ◌==◌, if◌then◌else◌, ℤ, pos, negsuc, minus_one,
}

-- What a round of a decoding loop does: it goes on with the buffer and the indices `i` and `c`,
-- or the function returns.
pub data Round : Type 0 where
  next : Bytes → ℕ → ℕ → Round
  stop : ℤ → Bytes → Round

escape_behind : Bytes → ℕ → Run Bool
escape_behind buf i = do
  a ← read buf (unsigned (i + 1))
  if a == 0 then returns false else (do b ← read buf (unsigned (i + 2)); returns (not (b == 0)))

-- `encoded[i]=='%'&&encoded[i+1]!='\0'&&encoded[i+2]!='\0'`, left to right
is_escape : Bytes → ℕ → Run Bool
is_escape buf i = do e ← read buf i; if e == b'%' then escape_behind buf i else returns false

byte_or_stop : Bytes → ℕ → ℕ → Option ℕ → Run Round
byte_or_stop buf i c none = returns (stop minus_one buf)
byte_or_stop buf i c (some v) = do
  buf' ← write buf c v
  returns (next buf' (unsigned (i + 3)) (unsigned (c + 1)))

-- the escape at `i`: its byte is written at `c`
decode_escape : Bytes → ℕ → ℕ → Run Round
decode_escape buf i c = do
  a ← read buf (unsigned (i + 1))
  first ← char_index (some hexdict) a
  b ← read buf (unsigned (i + 2))
  second ← char_index (some hexdict) b
  byte_or_stop buf i c (hex_pair first second)

-- the loop's body
copy_or_decode : Bytes → ℕ → ℕ → ℕ → Run Round
copy_or_decode buf i c e = do
  buf' ← write buf c e
  escaped ← is_escape buf' i
  if escaped
      then decode_escape buf' i c
      else returns (next buf' (unsigned (i + 1)) (unsigned (c + 1)))

-- behind the loop: the terminator, and the decoded length
pub terminate : Bytes → ℕ → Run Round
terminate buf c = do buf' ← write buf c 0; returns (stop (to_int (pos c)) buf')

-- the loop's test and body
url_decode_round : Bytes → ℕ → ℕ → Run Round
url_decode_round buf i c = do
  e ← read buf i
  if e == 0 then terminate buf c else copy_or_decode buf i c e

pub url_decode_loop : ℕ → Bytes → ℕ → ℕ → Run (ℤ × Bytes)
url_decode_loop zero buf i c = out_of_fuel
url_decode_loop (suc fuel) buf i c = do
  r ← url_decode_round buf i c
  elim r [ next buf' i' c' ↦ url_decode_loop fuel buf' i' c' | stop z buf' ↦ returns (z, buf') ]

-- `i` grows in each round of a text below 2^32 bytes, so the length bounds the rounds. `i` and `c`
-- are unsigned, and the result is an `int`.
unfoldable pub destructive_url_decode : Bytes → Run (ℤ × Bytes)
destructive_url_decode encoded = url_decode_loop (suc (length encoded)) encoded 0 0

-- The decoding of a text: `none` if two bytes behind a `%` are not both lower case hex digits. A
-- `%` with fewer than two bytes behind it stands for itself.
unfoldable pub url_decode : Bytes → Option Bytes
url_decode [] = some []
url_decode (x ∷ []) = some (x ∷ [])
url_decode (x ∷ a ∷ []) = some (x ∷ a ∷ [])
url_decode (x ∷ a ∷ b ∷ s) =
    let behind = url_decode s in
    let plain = cons_some x (url_decode (a ∷ b ∷ s)) in
    if x == b'%'
    then elim (escape_value a b) [ none ↦ none | some v ↦ cons_some v behind ]
    else plain

abbrev pub max_urlenc_hash_len : ℕ
max_urlenc_hash_len = max_hash_len * 3

abbrev pub unreserved : Bytes
unreserved = codes "ABCDEFGHIJKLMNOPQRSTUVWXYZabcdefghijklmnopqrstuvwxyz0123456789-_.~"

abbrev pub nonreserved : Bytes
nonreserved = unreserved ++ 0 ∷ []

-- `%` over the byte that was copied to `buffer[c]`, and its two digits behind
pub encode_escape : Bytes → ℕ → ℕ → Run Bytes
encode_escape buffer c d = do
  mark ← write buffer c b'%'
  high ← read hexdict (d / 16)
  half ← write mark (c + 1) high
  low ← read hexdict (d % 16)
  write half (c + 2) low

-- `for(;i<MAX_HASH_LEN;i++)`, with `n` rounds left; the result is the buffer and `c`
pub url_encode_loop : ℕ → Bytes → Bytes → ℕ → ℕ → Run (Bytes × ℕ)
url_encode_loop zero hash buffer i c = returns (buffer, c)
url_encode_loop (suc n) hash buffer i c = do
  d ← read hash i
  copied ← write buffer c d
  at ← char_index (some nonreserved) d
  escaped ← (if is_minus_one at then encode_escape copied c d else returns copied)
  url_encode_loop n hash escaped (i + 1) (if is_minus_one at then c + 3 else c + 1)

-- `buffer` is what the local array holds when the function is called.
unfoldable pub hash_encode_url : Bytes → Bytes → ℕ → Run (ℤ × Bytes)
hash_encode_url buffer hash maxlen = do
  filled ← url_encode_loop max_hash_len hash buffer 0 0
  ended ← write filled.0 filled.1 0
  hash' ← strncpy hash ended maxlen
  returns (pos 0, hash')

-- a byte as the encoder writes it
unfoldable pub encode_byte : ℕ → Bytes
encode_byte d =
    if has unreserved d then d ∷ [] else b'%' ∷ hex_char (d / 16) ∷ hex_char (d % 16) ∷ []

unfoldable pub url_encode : Bytes → Bytes
url_encode [] = []
url_encode (d ∷ h) = encode_byte d ++ url_encode h

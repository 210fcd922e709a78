-- ===== src/Neth.antt =====
-- neth.c: the functions that find and measure the parameters of a request, on what a pointer has in
-- front of it, and the text that is sent before a reply. The indices of `decodedStrlen` and
-- `httpParamLength` are natural numbers; in a buffer below 2^31 bytes, like that of 1024 which the
-- program reads, the ints are these numbers (Bounds).
pub mod Bounds
pub mod Keys
pub mod Query
mod Tests
use traccoon.CLib.{strstr}
use traccoon.Memory.{Run, returns, fault, ◌>>=◌}
use traccoon.Prelude.{
  ℕ, ◌+◌, ◌-◌, ◌/◌, ◌%◌, Bool, not, ◌&&◌, ◌||◌, Option, none, some, [], ◌∷◌, ◌++◌, map, Bytes,
  codes, length, drop, leb, ◌==◌, if◌then◌else◌, ℤ, pos, minus_one, ==ℤ, ltb_ℤ,
}

-- `mlen==-1||i<mlen`
abbrev pub within : ℕ → ℤ → Bool
within i mlen = ==ℤ mlen minus_one || ltb_ℤ (pos i) mlen

-- The loop of `decodedStrlen`, from index `i` and the count `c` on. Bytes behind the text are read
-- only behind a `%`.
unfoldable pub decoded_strlen_from : ℤ → Bytes → ℕ → ℕ → Run ℕ
decoded_strlen_from mlen [] i c = fault
decoded_strlen_from mlen (x ∷ []) i c = if x == 0 || not (within i mlen) then returns c else fault
decoded_strlen_from mlen (x ∷ a ∷ []) i c =
    let next = decoded_strlen_from mlen (a ∷ []) (i + 1) (c + 1) in
    if x == 0 || not (within i mlen)
    then returns c
    else if x == b'%' && not (a == 0)
    then fault
    else next
decoded_strlen_from mlen (x ∷ a ∷ b ∷ s) i c =
    let next = decoded_strlen_from mlen (a ∷ b ∷ s) (i + 1) (c + 1) in
    let skipped = decoded_strlen_from mlen s (i + 3) (c + 1) in
    if x == 0 || not (within i mlen)
    then returns c
    else if x == b'%' && not (a == 0) && not (b == 0)
    then skipped
    else next

unfoldable pub decoded_strlen : Bytes → ℤ → Run ℕ
decoded_strlen str mlen = decoded_strlen_from mlen str 0 0

-- the test of `httpParamLength`
abbrev pub ends_param : ℕ → Bool
ends_param x = x == 0 || x == b'&' || x == b' '

unfoldable pub http_param_length_from : Bytes → ℕ → Run ℕ
http_param_length_from [] i = fault
http_param_length_from (x ∷ s) i =
    let rest = http_param_length_from s (i + 1) in if ends_param x then returns i else rest

unfoldable pub http_param_length : Bytes → Run ℕ
http_param_length input = http_param_length_from input 0

-- `textAfter`: what stands behind the first occurrence of `param` in a buffer that is not NULL
unfoldable pub text_after : Bytes → Bytes → Run (Option Bytes)
text_after buf param = do
  found ← strstr buf param
  elim found [ none ↦ returns none | some n ↦ returns (some (drop (n + length param) buf)) ]

-- `tolower` in the C locale
abbrev pub tolower : ℕ → ℕ
tolower c = if leb b'A' c && leb c b'Z' then c + 32 else c

-- `strtolower`, on the string before the terminator
unfoldable pub strtolower : Bytes → Bytes
strtolower text = map tolower text

abbrev pub crlf : Bytes
crlf = 13 ∷ 10 ∷ []

-- what `sendHttpHeaders` sends for a code and headers
unfoldable pub http_headers : Bytes → Bytes → Bytes
http_headers rcode headers =
    codes "HTTP/1.1 "
    ++ (rcode
        ++ (crlf
            ++ (headers
                ++ (codes "Content-type: text/plain"
                    ++ (crlf
                        ++ (codes "Connection: close"
                            ++ (crlf ++ (codes "Server: traccoon" ++ (crlf ++ crlf)))))))))

-- the smaller of two numbers of which the negative ones do not count
unfoldable pub min_zero : ℤ → ℤ → ℤ
min_zero a b =
    if ltb_ℤ a (pos 0)
    then (if ltb_ℤ b (pos 0) then pos 0 else b)
    else if ltb_ℤ b (pos 0)
    then a
    else if ltb_ℤ a b
    then a
    else b

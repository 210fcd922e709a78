-- ===== src/CLib.antt =====
-- The functions of the C library that the program calls on strings and numbers, on memory as lists
-- of bytes: a scan that runs off its object is a fault.
pub mod Laws
pub mod Number
pub mod Decimal
pub mod Search
use traccoon.Memory.{Run, returns, fault, ◌>>=◌}
use traccoon.Prelude.{
  ℕ, zero, suc, ◌+◌, ◌*◌, ◌-◌, ◌&&◌, Bool, true, false, Option, none, some, List, [], ◌∷◌, ◌++◌,
  Bytes, length, drop, take, replicate, leb, ltb, ◌==◌, if◌then◌else◌,
}

-- the `n` bytes that `strncpy(dst,src,n)` writes: the string, and zeros behind it
unfoldable pub strncpy_bytes : Bytes → ℕ → Run Bytes
strncpy_bytes src zero = returns []
strncpy_bytes [] (suc n) = fault
strncpy_bytes (x ∷ src) (suc n) =
    let rest = strncpy_bytes src n in
    if x == 0 then returns (replicate (suc n) 0) else rest >>= λ bytes. returns (x ∷ bytes)

-- `bytes` over the start of the object `dst`
unfoldable pub overwrite : Bytes → Bytes → Run Bytes
overwrite dst bytes =
    if leb (length bytes) (length dst) then returns (bytes ++ drop (length bytes) dst) else fault

unfoldable pub strncpy : Bytes → Bytes → ℕ → Run Bytes
strncpy dst src n = strncpy_bytes src n >>= overwrite dst

-- `memcpy(dst,src,n)`
unfoldable pub memcpy : Bytes → Bytes → ℕ → Run Bytes
memcpy dst src n = if leb n (length src) then overwrite dst (take n src) else fault

unfoldable pub is_digit : ℕ → Bool
is_digit c = leb b'0' c && leb c b'9'

-- whether `strncmp(a,b,n)` is 0
unfoldable pub strncmp_equal : Bytes → Bytes → ℕ → Run Bool
strncmp_equal a b zero = returns true
strncmp_equal [] b (suc n) = fault
strncmp_equal (x ∷ a) [] (suc n) = fault
strncmp_equal (x ∷ a) (y ∷ b) (suc n) =
    let rest = strncmp_equal a b n in
    if x == y then (if x == 0 then returns true else rest) else returns false

unfoldable pub strlen : Bytes → Run ℕ
strlen [] = fault
strlen (x ∷ s) = let rest = strlen s in if x == 0 then returns 0 else rest >>= λ n. returns (suc n)

abbrev pub shift_some : Option ℕ → Option ℕ
shift_some none = none
shift_some (some n) = some (suc n)

-- where `strchr` finds a byte that is not the terminator
unfoldable pub strchr : Bytes → ℕ → Run (Option ℕ)
strchr [] c = fault
strchr (x ∷ s) c =
    let rest = strchr s c in
    if x == c
    then returns (some 0)
    else if x == 0
    then returns none
    else rest >>= λ o. returns (shift_some o)

-- whether a string starts with the text `needle`
unfoldable pub starts_with : Bytes → Bytes → Run Bool
starts_with s [] = returns true
starts_with [] (y ∷ needle) = fault
starts_with (x ∷ s) (y ∷ needle) =
    let rest = starts_with s needle in if x == y then rest else returns false

-- where `strstr` finds a text
unfoldable pub strstr : Bytes → Bytes → Run (Option ℕ)
strstr [] needle = fault
strstr (x ∷ s) needle =
    let rest = strstr s needle in
    starts_with (x ∷ s) needle >>= λ hit.
    if hit
    then returns (some 0)
    else if x == 0
    then returns none
    else rest >>= λ o. returns (shift_some o)

-- whether `strcmp(a,b)` is 0
unfoldable pub strcmp_equal : Bytes → Bytes → Run Bool
strcmp_equal [] b = fault
strcmp_equal (x ∷ a) [] = fault
strcmp_equal (x ∷ a) (y ∷ b) =
    let rest = strcmp_equal a b in
    if x == y then (if x == 0 then returns true else rest) else returns false

-- The letter of an argument that starts with a dash; 0 for one that ends there.
abbrev pub letter_of : Bytes → Option ℕ
letter_of [] = none
letter_of (c ∷ []) = if c == b'-' then some 0 else none
letter_of (c ∷ d ∷ s) = if c == b'-' then some d else none

abbrev flushed : Bytes → List Bytes → List Bytes
flushed [] tokens = tokens
flushed (x ∷ s) tokens = (x ∷ s) ∷ tokens

-- The tokens that `strtok` separates at a byte, the first of which starts with `token`; none is
-- empty.
unfoldable pub strtok : ℕ → Bytes → Bytes → List Bytes
strtok sep token [] = flushed token []
strtok sep token (x ∷ s) =
    let next = strtok sep [] s in
    let longer = strtok sep (token ++ x ∷ []) s in if x == sep then flushed token next else longer

-- ===== src/CLib/Number.antt =====
-- `strtol` and `strtoul` of the C library, in base 10, with the limits of a 64-bit `long`.
use traccoon.CLib.{is_digit}
use traccoon.Memory.{Run, returns, fault, ◌>>=◌}
use traccoon.Prelude.{
  ℕ, zero, suc, ◌+◌, ◌-◌, ◌*◌, ◌%◌, ◌^◌, ◌&&◌, ◌||◌, Bool, true, false, [], ◌∷◌, Bytes, leb, ◌==◌,
  if◌then◌else◌, ℤ, pos, negsuc,
}

abbrev pub long_max : ℕ
long_max = 2 ^ 63 - 1

abbrev pub ulong_max : ℕ
ulong_max = 2 ^ 64 - 1

-- the digits at the front, behind those that gave `acc`
unfoldable pub digits_value : ℕ → Bytes → Run ℕ
digits_value acc [] = fault
digits_value acc (c ∷ s) =
    let rest = digits_value (acc * 10 + (c - b'0')) s in if is_digit c then rest else returns acc

unfoldable pub is_space : ℕ → Bool
is_space c = c == b' ' || leb 9 c && leb c 13

unfoldable pub skip_spaces : Bytes → Run Bytes
unfolding is_space
skip_spaces [] = fault
skip_spaces (c ∷ s) = let rest = skip_spaces s in if is_space c then rest else returns (c ∷ s)

-- whether there is a minus sign, and what stands behind the sign
unfoldable pub sign : Bytes → Run (Bool × Bytes)
sign [] = fault
sign (c ∷ s) =
    if c == b'-'
    then returns (true, s)
    else if c == b'+'
    then returns (false, s)
    else returns (false, c ∷ s)

abbrev clamp : ℕ → ℕ → ℕ
clamp limit n = if leb n limit then n else limit

long_of : Bool → ℕ → ℤ
long_of false n = pos (clamp long_max n)
long_of true zero = pos 0
long_of true (suc n) = negsuc (clamp long_max n)

unfoldable pub strtol : Bytes → Run ℤ
unfolding long_of
strtol s = do
  text ← skip_spaces s
  signed ← sign text
  n ← digits_value 0 signed.1
  returns (long_of signed.0 n)

ulong_of : Bool → ℕ → ℕ
ulong_of false n = clamp ulong_max n
ulong_of true n = if leb n ulong_max then (2 ^ 64 - n) % 2 ^ 64 else ulong_max

unfoldable pub strtoul : Bytes → Run ℕ
unfolding ulong_of
strtoul s = do
  text ← skip_spaces s
  signed ← sign text
  n ← digits_value 0 signed.1
  returns (ulong_of signed.0 n)

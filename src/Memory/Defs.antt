-- ===== src/Memory/Defs.antt =====
-- Runs of C code, and `buf[i]` on an object whose bytes are `buf`.
use traccoon.Prelude.{ℕ, Option, none, some, Bytes, get_elem?, set, length, ltb, if◌then◌else◌}

-- `fault` is an access outside of an object or through NULL. `out_of_fuel` is no result of the
-- code: the model's bound on the rounds of its loops was too small.
pub data Run {ℓ} (A : Type ℓ) : Type ℓ where
  returns : A → Run A
  fault : Run A
  out_of_fuel : Run A

infixl 5 ◌>>=◌
abbrev pub ◌>>=◌ {ℓ κ} : {A : Type ℓ} {B : Type κ} → Run A → (A → Run B) → Run B
returns a >>= f = f a
fault >>= f = fault
out_of_fuel >>= f = out_of_fuel

abbrev pub or_fault {ℓ} : {A : Type ℓ} → Option A → Run A
or_fault (some a) = returns a
or_fault none = fault

unfoldable pub read : Bytes → ℕ → Run ℕ
read buf i = or_fault (get_elem? buf i)

unfoldable pub write : Bytes → ℕ → ℕ → Run Bytes
write buf i v = if ltb i (length buf) then returns (set buf i v) else fault

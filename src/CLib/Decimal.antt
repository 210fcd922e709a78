-- ===== src/CLib/Decimal.antt =====
-- Decimal digits: what `%d` prints of a number, and that `strtol` and `strtoul` read it back.
use traccoon.CLib.Number.{long_max, ulong_max, digits_value, skip_spaces, sign, strtol, strtoul}
use traccoon.CLib.{is_digit}
use traccoon.Memory.{returns}
use traccoon.Prelude.{
  ℕ, zero, suc, ◌+◌, ◌-◌, ◌*◌, ◌/◌, ◌%◌, ◌<◌, ◌≤◌, ◌≡◌, refl, ap, sym, ◌∙◌, inl, inr, true, false,
  Bool-cases, [], ◌∷◌, ◌++◌, Bytes, length, All, ltb, if◌then◌else◌, ℤ, pos, negsuc, arith,
  length-append,
}

-- The digits of `n`; each round drops one, so that `n + 1` rounds are enough.
decimal_fuel : ℕ → ℕ → Bytes
decimal_fuel zero n = []
decimal_fuel (suc fuel) n =
    let front = decimal_fuel fuel (n / 10) in
    if ltb n 10 then (b'0' + n) ∷ [] else front ++ (b'0' + n % 10) ∷ []

unfoldable pub decimal : ℕ → Bytes
unfolding decimal_fuel
decimal n = decimal_fuel (suc n) n

-- what `%d` prints
unfoldable pub print_int : ℤ → Bytes
print_int (pos n) = decimal n
print_int (negsuc n) = b'-' ∷ decimal (suc n)

abbrev pub IsDigit : ℕ → Type 0
IsDigit c = (b'0' ≤ c) × (c ≤ b'9')

-- the number that digits spell behind `n`
abbrev pub value : ℕ → Bytes → ℕ
value n [] = n
value n (c ∷ s) = value (n * 10 + (c - b'0')) s

value-snoc : (s : Bytes) (n c : ℕ) → value n (s ++ c ∷ []) ≡ value n s * 10 + (c - b'0')
value-snoc [] n c = refl
value-snoc (d ∷ s) n c = value-snoc s (n * 10 + (d - b'0')) c

All-snoc : (s : Bytes) (c : ℕ) → All IsDigit s → IsDigit c → All IsDigit (s ++ c ∷ [])
All-snoc [] c _ h = (h, tt)
All-snoc (d ∷ s) c (hd, hs) h = (hd, All-snoc s c hs h)

-- A digit, then digits.
abbrev pub Digits : Bytes → Type 0
Digits s = (c : ℕ) × (t : Bytes) × (s ≡ c ∷ t) × IsDigit c × All IsDigit t

Digits-snoc : (s : Bytes) (c : ℕ) → Digits s → IsDigit c → Digits (s ++ c ∷ [])
Digits-snoc s c (d, t, e, hd, ht) h =
    (d, t ++ c ∷ [], ap (λ u. u ++ c ∷ []) e, hd, All-snoc t c ht h)

decimal_fuel_lem :
    (fuel n : ℕ) → n < fuel → Digits (decimal_fuel fuel n) × (value 0 (decimal_fuel fuel n) ≡ n)
unfolding decimal_fuel
decimal_fuel_lem zero n h = absurd (omega arith)
decimal_fuel_lem (suc fuel) n h = elim (Bool-cases (ltb n 10)) [
  | inl small ↦ rw small ((b'0' + n, [], refl, (omega arith, ground arith), tt), omega arith)
  | inr large ↦
      let (front, exact) = decimal_fuel_lem fuel (n / 10) (ground arith) in
      rw large (
        Digits-snoc _ (b'0' + n % 10) front (omega arith, omega arith),
        value-snoc (decimal_fuel fuel (n / 10)) 0 (b'0' + n % 10) ∙ omega arith,
      )
]

pub decimal-Digits : (n : ℕ) → Digits (decimal n)
unfolding decimal
decimal-Digits n = (decimal_fuel_lem (suc n) n (omega arith)).0

pub value-decimal : (n : ℕ) → value 0 (decimal n) ≡ n
unfolding decimal
value-decimal n = (decimal_fuel_lem (suc n) n (omega arith)).1

pub is_digit_iff : (c : ℕ) → IsDigit c → is_digit c ≡ true
unfolding is_digit
is_digit_iff c h = ground arith

-- The digits before a byte that is none.
pub digits_value-value :
    (s rest : Bytes) (n c : ℕ)
    → All IsDigit s
    → is_digit c ≡ false
    → digits_value n (s ++ c ∷ rest) ≡ returns (value n s)
unfolding digits_value
digits_value-value [] rest n c _ h = rw h
digits_value-value (d ∷ s) rest n c (hd, hs) h =
    rw (is_digit_iff d hd) (digits_value-value s rest (n * 10 + (d - b'0')) c hs h)

module _ (c : ℕ) (t : Bytes) (digit : IsDigit c) where
  skip_spaces_digit : skip_spaces (c ∷ t) ≡ returns (c ∷ t)
  unfolding skip_spaces
  skip_spaces_digit = ground arith

  sign_digit : sign (c ∷ t) ≡ returns (false, c ∷ t)
  unfolding sign
  sign_digit = ground arith

  skip_spaces_minus : skip_spaces (b'-' ∷ c ∷ t) ≡ returns (b'-' ∷ c ∷ t)
  unfolding skip_spaces
  skip_spaces_minus = refl

-- `strtoul` reads digits that spell a number below the limit.
pub strtoul-value :
    (s rest : Bytes) (c : ℕ)
    → Digits s
    → is_digit c ≡ false
    → value 0 s ≤ ulong_max
    → strtoul (s ++ c ∷ rest) ≡ returns (value 0 s)
unfolding strtoul
strtoul-value s rest c (d, t, e, hd, ht) h fits =
    let read = digits_value-value (d ∷ t) rest 0 c (hd, ht) h in
    rw e (
      rw (skip_spaces_digit d (t ++ c ∷ rest) hd, sign_digit d (t ++ c ∷ rest) hd, read)
        (ground arith))

pub strtol-value :
    (s rest : Bytes) (c : ℕ)
    → Digits s
    → is_digit c ≡ false
    → value 0 s ≤ long_max
    → strtol (s ++ c ∷ rest) ≡ returns (pos (value 0 s))
unfolding strtol
strtol-value s rest c (d, t, e, hd, ht) h fits =
    let read = digits_value-value (d ∷ t) rest 0 c (hd, ht) h in
    rw e (
      rw (skip_spaces_digit d (t ++ c ∷ rest) hd, sign_digit d (t ++ c ∷ rest) hd, read)
        (ground arith))

strtol-minus :
    (s rest : Bytes) (c n : ℕ)
    → Digits s
    → is_digit c ≡ false
    → value 0 s ≡ suc n
    → n ≤ long_max
    → strtol (b'-' ∷ s ++ c ∷ rest) ≡ returns (negsuc n)
unfolding strtol sign
strtol-minus s rest c n (d, t, e, hd, ht) h v fits =
    let read = digits_value-value (d ∷ t) rest 0 c (hd, ht) h in
    rw e (
      rw (skip_spaces_minus d (t ++ c ∷ rest) hd, read, ap (λ u. value 0 u) (sym e) ∙ v)
        (ground arith))

-- An `int`, in its two's complement range.
abbrev pub IsInt : ℤ → Type 0
IsInt (pos n) = n < 2147483648
IsInt (negsuc n) = n < 2147483648

-- `strtol` reads back what `%d` prints of an `int`.
pub strtol-print_int :
    (z : ℤ) (rest : Bytes) (c : ℕ)
    → IsInt z
    → is_digit c ≡ false
    → strtol (print_int z ++ c ∷ rest) ≡ returns z
unfolding print_int
strtol-print_int (pos n) rest c fits h =
    strtol-value (decimal n) rest c (decimal-Digits n) h (omega (arith, value-decimal n))
    ∙ ap (λ m. returns (pos m)) (value-decimal n)
strtol-print_int (negsuc n) rest c fits h =
    strtol-minus (decimal (suc n)) rest c n (decimal-Digits (suc n)) h (value-decimal (suc n))
      (omega arith)

-- One digit, or more.
pub length-decimal_small : (n : ℕ) → n < 10 → length (decimal n) ≡ 1
unfolding decimal
length-decimal_small n h = ground arith

pub length-decimal_large : (n : ℕ) → 9 < n → 1 < length (decimal n)
unfolding decimal
length-decimal_large zero h = absurd (omega arith)
length-decimal_large (suc n) h =
    let (front, _) = decimal_fuel_lem (suc n) (suc n / 10) (omega arith) in
    let (c, t, e, _, _) = front in
    ground (arith, e, length-append (decimal_fuel (suc n) (suc n / 10)) ((b'0' + suc n % 10) ∷ []))

-- `10 ^ (k + 1)`
abbrev pub ten : ℕ → ℕ
ten zero = 10
ten (suc k) = 10 * ten k

length-decimal_fuel-ten : (k fuel n : ℕ) → n < ten k → length (decimal_fuel fuel n) ≤ k + 1
unfolding decimal_fuel
length-decimal_fuel-ten k zero n h = omega arith
length-decimal_fuel-ten zero (suc fuel) n h = ground arith
length-decimal_fuel-ten (suc k) (suc fuel) n h =
    let front = length-decimal_fuel-ten k fuel (n / 10) (omega arith) in
    ground (arith, front, length-append (decimal_fuel fuel (n / 10)) ((b'0' + n % 10) ∷ []))

-- A number below a power of ten has no more digits than it.
pub length-decimal-ten : (k n : ℕ) → n < ten k → length (decimal n) ≤ k + 1
unfolding decimal
length-decimal-ten k n h = length-decimal_fuel-ten k (suc n) n h

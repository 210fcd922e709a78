-- ===== src/Comm/Scans.antt =====
-- On a terminated buffer, the scans of a request end inside of it, and leave terminated ones.
use traccoon.CLib.Number.{digits_value, skip_spaces, sign, strtoul, is_space}
use traccoon.CLib.{is_digit, strncmp_equal, starts_with, strstr, strncpy_bytes, shift_some}
use traccoon.Memory.{Run, returns, ◌>>=◌, Returns, Returns-bind, IfSome}
use traccoon.Neth.Bounds.{has_zero}
use traccoon.Neth.{text_after}
use traccoon.NetLib.Merge.{IsNonzero, terminated}
use traccoon.Prelude.{
  length-replicate, set, ℕ, zero, suc, ◌+◌, ◌-◌, ◌*◌, ◌<◌, ◌≡◌, ◌≢◌, refl, ap, inl, inr, Bool, true,
  false, Bool-cases, Option, none, some, [], ◌∷◌, ◌++◌, Bytes, length, drop, replicate, All, ◌==◌,
  if◌then◌else◌, arith,
}

-- a buffer that has a terminator
abbrev pub IsTerminated : Bytes → Type 0
IsTerminated s = has_zero s ≡ true

-- a pointer that is NULL or leads to a terminated buffer
abbrev pub EndsIf : Option Bytes → Type 0
EndsIf o = IfSome IsTerminated o

-- whether a text matches, and then what stands behind it
abbrev pub EndsBehind : ℕ → Bytes → Bool → Type 0
EndsBehind n s true = IsTerminated (drop n s)
EndsBehind n s false = Unit

EndsBehind-cons : (n x : ℕ) (s : Bytes) (b : Bool) → EndsBehind n s b → EndsBehind (suc n) (x ∷ s) b
EndsBehind-cons n x s true e = e
EndsBehind-cons n x s false e = e

pub starts_with-Returns :
    (s t : Bytes)
    → IsTerminated s
    → All IsNonzero t
    → Returns (EndsBehind (length t) s) (starts_with s t)
unfolding starts_with has_zero
starts_with-Returns s [] z nz = (true, refl, z)
starts_with-Returns [] (y ∷ t) z nz = absurd (cc)
starts_with-Returns (x ∷ s) (y ∷ t) z (y_nz, nz) = elim (Bool-cases (x == y)) [
  | inl same ↦
      let (b, e, p) = starts_with-Returns s t (ground arith) nz in
      (b, rw same e, EndsBehind-cons (length t) x s b p)
  | inr other ↦ (false, rw other refl, tt)
]

pub strncmp_equal-Returns :
    (s t : Bytes)
    → IsTerminated s
    → All IsNonzero t
    → Returns (EndsBehind (length t) s) (strncmp_equal s (terminated t) (length t))
unfolding strncmp_equal has_zero
strncmp_equal-Returns s [] z nz = (true, refl, z)
strncmp_equal-Returns [] (y ∷ t) z nz = absurd (cc)
strncmp_equal-Returns (x ∷ s) (y ∷ t) z (y_nz, nz) = elim (Bool-cases (x == y)) [
  | inl same ↦
      let (b, e, p) = strncmp_equal-Returns s t (ground arith) nz in
      (b, ground (arith, same, e), EndsBehind-cons (length t) x s b p)
  | inr other ↦ (false, rw other refl, tt)
]

-- where a text stands, and then what stands behind it
abbrev pub EndsFrom : ℕ → Bytes → Option ℕ → Type 0
EndsFrom n s none = Unit
EndsFrom n s (some k) = IsTerminated (drop (k + n) s)

EndsFrom-cons :
    (n x : ℕ) (s : Bytes) (o : Option ℕ) → EndsFrom n s o → EndsFrom n (x ∷ s) (shift_some o)
EndsFrom-cons n x s none e = tt
EndsFrom-cons n x s (some k) e = let same : suc k + n ≡ suc (k + n) = omega arith in rw same e

strstr-found_here :
    (x : ℕ) (s t : Bytes) (b : Bool) (rest : Run (Option ℕ))
    → EndsBehind (length t) (x ∷ s) b
    → (x ≢ 0 → Returns (EndsFrom (length t) s) rest)
    → Returns (EndsFrom (length t) (x ∷ s)) (
        if b
        then returns (some 0)
        else if x == 0
        then returns none
        else rest >>= λ o. returns (shift_some o))
strstr-found_here x s t true rest p more =
    let start : 0 + length t ≡ length t = omega arith in (some 0, refl, rw start p)
strstr-found_here x s t false rest p more = elim (Bool-cases (x == 0)) [
  | inl zero_x ↦ (none, rw zero_x refl, tt)
  | inr nz ↦
      let (o, e, ends) = more (ground arith) in
      (shift_some o, rw (nz, e) refl, EndsFrom-cons (length t) x s o ends)
]

pub strstr-Returns :
    (s t : Bytes) → IsTerminated s → All IsNonzero t → Returns (EndsFrom (length t) s) (strstr s t)
unfolding strstr has_zero
strstr-Returns [] t z nz = absurd (cc)
strstr-Returns (x ∷ s) t z nz =
    Returns-bind _ (starts_with-Returns (x ∷ s) t z nz)
      (λ b p. strstr-found_here x s t b _ p (λ x_nz. strstr-Returns s t (ground arith) nz))

pub text_after-Returns :
    (s t : Bytes) → IsTerminated s → All IsNonzero t → Returns EndsIf (text_after s t)
unfolding text_after
text_after-Returns s t z nz = Returns-bind _ (strstr-Returns s t z nz) (λ o p. found o p)
  where
    found :
        (o : Option ℕ)
        → EndsFrom (length t) s o
        → Returns EndsIf
            (elim o [ none ↦ returns none | some n ↦ returns (some (drop (n + length t) s)) ])
    found none p = (none, refl, tt)
    found (some n) p = (some (drop (n + length t) s), refl, p)

skip_spaces-Returns : (s : Bytes) → IsTerminated s → Returns IsTerminated (skip_spaces s)
unfolding skip_spaces has_zero is_space
skip_spaces-Returns [] z = absurd (cc)
skip_spaces-Returns (c ∷ s) z = elim (Bool-cases (is_space c)) [
  | inl space ↦
      let (t, e, p) = skip_spaces-Returns s (ground arith) in (t, ground (arith, e, space), p)
  | inr other ↦ (c ∷ s, ground (arith, other), z)
]

sign-Returns : (s : Bytes) → IsTerminated s → Returns (λ p. IsTerminated p.1) (sign s)
unfolding sign has_zero
sign-Returns [] z = absurd (cc)
sign-Returns (c ∷ s) z = elim (Bool-cases (c == b'-')) [
  | inl minus ↦ ((true, s), rw minus refl, ground arith)
  | inr other ↦ elim (Bool-cases (c == b'+')) [
    | inl plus ↦ ((false, s), rw (other, plus) refl, ground arith)
    | inr last ↦ ((false, c ∷ s), rw (other, last) refl, z)
  ]
]

digits_value-Returns :
    (s : Bytes) (acc : ℕ) → IsTerminated s → Returns (λ n. Unit) (digits_value acc s)
unfolding digits_value has_zero is_digit
digits_value-Returns [] acc z = absurd (cc)
digits_value-Returns (c ∷ s) acc z = elim (Bool-cases (is_digit c)) [
  | inl digit ↦
      let (n, e, p) = digits_value-Returns s (acc * 10 + (c - b'0')) (ground arith) in
      (n, ground (arith, e, digit), tt)
  | inr other ↦ (acc, ground (arith, other), tt)
]

pub strtoul-Returns : (s : Bytes) → IsTerminated s → Returns (λ n. Unit) (strtoul s)
unfolding strtoul
strtoul-Returns s z = Returns-bind _ (skip_spaces-Returns s z) (λ t p.
    Returns-bind _ (sign-Returns t p)
      (λ signed q. Returns-bind _ (digits_value-Returns signed.1 0 q) (λ n u. (_, refl, tt))))

pub strncpy_bytes-Returns :
    (s : Bytes) (n : ℕ) → IsTerminated s → Returns (λ bytes. length bytes ≡ n) (strncpy_bytes s n)
unfolding strncpy_bytes has_zero
strncpy_bytes-Returns s zero z = ([], refl, refl)
strncpy_bytes-Returns [] (suc n) z = absurd (cc)
strncpy_bytes-Returns (x ∷ s) (suc n) z = elim (Bool-cases (x == 0)) [
  | inl end ↦ (replicate (suc n) 0, rw end refl, length-replicate (suc n) 0)
  | inr nz ↦
      let (bytes, e, p) = strncpy_bytes-Returns s n (ground arith) in
      (x ∷ bytes, rw (nz, e) refl, omega (arith, p))
]

-- The string in a terminated buffer, and what stands behind its terminator.
pub split_text :
    (s : Bytes)
    → IsTerminated s
    → (t : Bytes) × (rest : Bytes) × (s ≡ t ++ 0 ∷ rest) × All IsNonzero t
unfolding has_zero
split_text [] z = absurd (cc)
split_text (x ∷ s) z = elim (Bool-cases (x == 0)) [
  | inl end ↦ ([], s, ap (λ y. y ∷ s) (ground arith), tt)
  | inr more ↦
      let (t, rest, e, nz) = split_text s (ground arith) in
      (x ∷ t, rest, ap (◌∷◌ x) e, (ground arith, nz))
]

pub set-IsTerminated : (s : Bytes) (i : ℕ) → i < length s → IsTerminated (set s i 0)
unfolding has_zero
set-IsTerminated [] i lt = absurd (omega arith)
set-IsTerminated (x ∷ s) zero lt = refl
set-IsTerminated (x ∷ s) (suc i) lt = ground (arith, set-IsTerminated s i (omega arith))

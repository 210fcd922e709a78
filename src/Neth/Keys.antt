-- ===== src/Neth/Keys.antt =====
-- `textAfter` at one position of a text: a key with `=` stands there, or it does not.
use traccoon.CLib.{starts_with, strstr, shift_some}
use traccoon.Memory.{Run, fault, out_of_fuel, returns, ◌>>=◌}
use traccoon.Neth.{text_after}
use traccoon.Prelude.{
  ℕ, suc, ◌+◌, ◌<◌, ◌≡◌, ◌≢◌, refl, ap, Bool, true, false, ◌&&◌, ◌||◌, Option, none, some, [], ◌∷◌,
  ◌++◌, Bytes, length, drop, All, ◌==◌, arith,
}

unfoldable pub same : Bytes → Bytes → Bool
same [] [] = true
same [] (y ∷ k) = false
same (x ∷ s) [] = false
same (x ∷ s) (y ∷ k) = x == y && same s k

-- whether a text ends with another
unfoldable pub has_suffix : Bytes → Bytes → Bool
has_suffix k [] = same [] k
has_suffix k (x ∷ s) = same (x ∷ s) k || has_suffix k s

-- a byte of a key or a value
abbrev pub IsPlain : ℕ → Type 0
IsPlain x = (x ≢ 0) × (x ≢ b'=')

abbrev pub IsNot : ℕ → ℕ → Type 0
IsNot sep x = x ≢ sep

pub same-eq : (s k : Bytes) → same s k ≡ true → s ≡ k
unfolding same
same-eq [] [] e = refl
same-eq [] (y ∷ k) e = absurd (cc)
same-eq (x ∷ s) [] e = absurd (cc)
same-eq (x ∷ s) (y ∷ k) e = ap2_cons (ground (arith, e)) (same-eq s k (ground (arith, e)))
  where
    ap2_cons : {x y : ℕ} {s k : Bytes} → x ≡ y → s ≡ k → x ∷ s ≡ y ∷ k
    ap2_cons p q = cc

-- A text with a separator is no key.
pub same-sep : (sep : ℕ) (a b k : Bytes) → All (IsNot sep) k → same (a ++ sep ∷ b) k ≡ false
unfolding same
same-sep sep [] b [] other = refl
same-sep sep [] b (y ∷ k) (ne, other) = ground (arith, ne)
same-sep sep (x ∷ a) b [] other = refl
same-sep sep (x ∷ a) b (y ∷ k) (ne, other) = ground (arith, same-sep sep a b k other)

pub has_suffix-sep :
    (sep : ℕ) (a b k : Bytes)
    → All (IsNot sep) k
    → has_suffix k b ≡ false
    → has_suffix k (a ++ sep ∷ b) ≡ false
unfolding has_suffix
has_suffix-sep sep [] b k other ends = rw (same-sep sep [] b k other) ends
has_suffix-sep sep (x ∷ a) b k other ends =
    rw (same-sep sep (x ∷ a) b k other) (has_suffix-sep sep a b k other ends)

-- Where a text starts with a key and `=`, what stands in front of the first `=` is the key.
pub starts_with-same :
    (s k rest : Bytes)
    → All IsPlain s
    → All IsPlain k
    → starts_with (s ++ b'=' ∷ rest) (k ++ b'=' ∷ []) ≡ returns (same s k)
unfolding starts_with same
starts_with-same [] [] rest ps pk = refl
starts_with-same [] (y ∷ k) rest ps ((nz, ne), pk) = ground (arith, ne)
starts_with-same (x ∷ s) [] rest ((nz, ne), ps) pk = ground (arith, ne)
starts_with-same (x ∷ s) (y ∷ k) rest (p, ps) (q, pk) =
    ground (arith, starts_with-same s k rest ps pk)

pub starts_with-end :
    (s k rest : Bytes)
    → All IsPlain s
    → All IsPlain k
    → starts_with (s ++ 0 ∷ rest) (k ++ b'=' ∷ []) ≡ returns false
unfolding starts_with
starts_with-end [] [] rest ps pk = refl
starts_with-end [] (y ∷ k) rest ps ((nz, ne), pk) = ground (arith, nz)
starts_with-end (x ∷ s) [] rest ((nz, ne), ps) pk = ground (arith, ne)
starts_with-end (x ∷ s) (y ∷ k) rest (p, ps) (q, pk) =
    ground (arith, starts_with-end s k rest ps pk)

behind_shift :
    (x : ℕ) (s param : Bytes) (found : Run (Option ℕ))
    → ((found >>= λ o. returns (shift_some o)) >>= λ o. elim o [
      | none ↦ returns none
      | some n ↦ returns (some (drop (n + length param) (x ∷ s)))
    ])
      ≡ (found >>= λ o. elim o [
        | none ↦ returns none
        | some n ↦ returns (some (drop (n + length param) s))
      ])
behind_shift x s param (returns none) = refl
behind_shift x s param (returns (some n)) =
    let one_more : suc n + length param ≡ suc (n + length param) = omega arith in
    ap (λ m. returns (some (drop m (x ∷ s)))) one_more
behind_shift x s param fault = refl
behind_shift x s param out_of_fuel = refl

pub text_after-skip :
    (x : ℕ) (s param : Bytes)
    → x ≢ 0
    → starts_with (x ∷ s) param ≡ returns false
    → text_after (x ∷ s) param ≡ text_after s param
unfolding text_after strstr
text_after-skip x s param nz differs =
    let goes_on : (x == 0) ≡ false = ground (arith, nz) in
    rw (differs, text_after, strstr) (rw (goes_on) (behind_shift x s param (strstr s param)))

pub text_after-here :
    (x : ℕ) (s param : Bytes)
    → starts_with (x ∷ s) param ≡ returns true
    → text_after (x ∷ s) param ≡ returns (some (drop (length param) (x ∷ s)))
unfolding text_after strstr
text_after-here x s param starts =
    let from_start : 0 + length param ≡ length param = omega arith in
    rw (starts, text_after, strstr) (ap (λ m. returns (some (drop m (x ∷ s)))) from_start)

pub text_after-end :
    (x : ℕ) (s param : Bytes)
    → x ≡ 0
    → starts_with (x ∷ s) param ≡ returns false
    → text_after (x ∷ s) param ≡ returns none
unfolding text_after strstr
text_after-end x s param z differs =
    let ends : (x == 0) ≡ true = ground (arith, z) in
    rw (differs, text_after, strstr) (rw ends refl)

pub same_refl : (k : Bytes) → same k k ≡ true
unfolding same
same_refl [] = refl
same_refl (x ∷ k) = ground (arith, same_refl k)

pub text_after-nonempty :
    (s param : Bytes)
    → 0 < length s
    → starts_with s param ≡ returns true
    → text_after s param ≡ returns (some (drop (length param) s))
text_after-nonempty [] param filled starts = absurd (omega (arith, filled))
text_after-nonempty (x ∷ s) param filled starts = text_after-here x s param starts

-- ===== src/CLib/Search.antt =====
-- What `strchr` and `strstr` find in a text whose bytes are known.
use traccoon.CLib.{strchr, starts_with, strstr}
use traccoon.Memory.{returns}
use traccoon.Prelude.{ℕ, ◌≡◌, ◌≢◌, refl, true, none, some, [], ◌∷◌, ◌++◌, Bytes, length, All, arith}

-- a byte of a text that is not `c`
abbrev pub IsOther : ℕ → ℕ → Type 0
IsOther c x = (x ≢ 0) × (x ≢ c)

pub strchr-found :
    (s rest : Bytes) (c : ℕ)
    → All (IsOther c) s
    → strchr (s ++ c ∷ rest) c ≡ returns (some (length s))
unfolding strchr
strchr-found [] rest c _ = ground arith
strchr-found (x ∷ s) rest c ((nz, ne), more) = ground (arith, strchr-found s rest c more)

pub strchr-missing :
    (s rest : Bytes) (c : ℕ) → c ≢ 0 → All (IsOther c) s → strchr (s ++ 0 ∷ rest) c ≡ returns none
unfolding strchr
strchr-missing [] rest c c_nz _ = ground arith
strchr-missing (x ∷ s) rest c c_nz ((nz, ne), more) =
    ground (arith, strchr-missing s rest c c_nz more)

pub starts_with-append : (s rest : Bytes) → starts_with (s ++ rest) s ≡ returns true
unfolding starts_with
starts_with-append [] rest = refl
starts_with-append (x ∷ s) rest = ground (arith, starts_with-append s rest)

-- A text whose first byte does not stand before it is found where it begins.
pub strstr-found :
    (s needle rest : Bytes) (c : ℕ)
    → All (IsOther c) s
    → strstr (s ++ ((c ∷ needle) ++ rest)) (c ∷ needle) ≡ returns (some (length s))
unfolding strstr starts_with
strstr-found [] needle rest c _ = rw (starts_with-append (c ∷ needle) rest) refl
strstr-found (x ∷ s) needle rest c ((nz, ne), more) =
    ground (arith, strstr-found s needle rest c more)

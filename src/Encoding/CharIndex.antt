-- ===== src/Encoding/CharIndex.antt =====
-- encoding.c: `charIndex`, and its use as a table of hex digits.
use traccoon.Prelude.{
  ℕ, ◌+◌, ◌-◌, ◌≡◌, ◌≢◌, Option, none, some, [], ◌∷◌, ◌++◌, Bytes, codes, All, length, ◌==◌, leb,
  ◌&&◌, if◌then◌else◌, ℤ, pos, negsuc, ==ℤ, Bool, false, not, ◌||◌, inl, inr, Bool-cases, refl,
  minus_one, ap, ◌∙◌, arith,
}
use native.Mathlib.Decide.{ℕ_discrete}
use traccoon.Memory.{Run, returns, fault}

-- the loop `for(i=0;hay[i]!='\0';i++)`, from index `i` with the rest of the string in front
pub char_index_from : ℕ → Bytes → ℕ → Run ℤ
char_index_from i [] needle = fault
char_index_from i (h ∷ hay) needle =
    let rest = char_index_from (i + 1) hay needle in
    if h == 0 then returns minus_one else if h == needle then returns (pos i) else rest

unfoldable pub char_index : Option Bytes → ℕ → Run ℤ
unfolding char_index_from
char_index none needle = returns minus_one
char_index (some hay) needle = char_index_from 0 hay needle

abbrev pub hexdict : Bytes
hexdict = codes "0123456789abcdef" ++ 0 ∷ []

-- the value of a lower case hex digit
unfoldable pub digit_value : ℕ → Option ℕ
digit_value c =
    if leb b'0' c && leb c b'9'
    then some (c - b'0')
    else if leb b'a' c && leb c b'f'
    then some (c - b'a' + 10)
    else none

abbrev pub index_or_minus_one : Option ℕ → ℤ
index_or_minus_one (some i) = pos i
index_or_minus_one none = minus_one

pub char_index-hexdict :
    (c : ℕ) → char_index (some hexdict) c ≡ returns (index_or_minus_one (digit_value c))
unfolding char_index digit_value
char_index-hexdict c = ground arith

-- `z` is where `needle` first stands in the string `s`, or -1 if it stands nowhere in it.
abbrev pub Found : Bytes → ℕ → ℤ → Type 0
Found s needle (pos i) =
    (before : Bytes) × (after : Bytes) × (s ≡ before ++ needle ∷ after)
    × (length before ≡ i)
    × All (λ c. c ≢ needle) before
Found s needle (negsuc n) = (n ≡ 0) × All (λ c. c ≢ needle) s

abbrev shift : ℕ → ℤ → ℤ
shift i (pos k) = pos (i + k)
shift i (negsuc n) = negsuc n

shift_zero : (z : ℤ) → shift 0 z ≡ z
shift_zero (pos k) = ap pos (omega arith)
shift_zero (negsuc n) = refl

abbrev Finds : ℕ → Bytes → ℕ → Run ℤ → Type 0
Finds i s needle r = (z : ℤ) × (r ≡ returns (shift i z)) × Found s needle z

Finds-cons :
    (i h : ℕ) (s : Bytes) (needle : ℕ) (r : Run ℤ)
    → h ≢ needle
    → Finds (i + 1) s needle r
    → Finds i (h ∷ s) needle r
Finds-cons i h s needle r ne (pos k, e, (before, after, splits, len, none_before)) = (
  pos (k + 1),
  e ∙ ap (λ n. returns (pos n)) (omega arith),
  (h ∷ before, after, ap (◌∷◌ h) splits, omega arith, (ne, none_before)),
)
Finds-cons i h s needle r ne (negsuc n, e, (zero_n, all)) = (negsuc n, e, (zero_n, (ne, all)))

char_index_from_lem :
    (s rest : Bytes) (i needle : ℕ)
    → All (λ c. c ≢ 0) s
    → Finds i s needle (char_index_from i (s ++ 0 ∷ rest) needle)
unfolding char_index_from
char_index_from_lem [] rest i needle nz = (minus_one, refl, (refl, tt))
char_index_from_lem (h ∷ s) rest i needle (h_nz, nz) = elim (ℕ_discrete h needle) [
  | yes e ↦ (pos 0, ground arith, ([], s, ap (λ c. c ∷ s) e, refl, tt))
  | no ne ↦
      let step : char_index_from i (h ∷ s ++ 0 ∷ rest) needle
          ≡ char_index_from (i + 1) (s ++ 0 ∷ rest) needle =
        ground arith in
      rw step (Finds-cons i h s needle _ ne (char_index_from_lem s rest (i + 1) needle nz))
]

-- `charIndex` on a terminated string, whatever follows the terminator, ends and gives the index of
-- the first occurrence of `needle`, or -1 exactly where there is none.
pub char_index-Found :
    (s rest : Bytes) (needle : ℕ)
    → All (λ c. c ≢ 0) s
    → (z : ℤ) × (char_index (some (s ++ 0 ∷ rest)) needle ≡ returns z) × Found s needle z
unfolding char_index
char_index-Found s rest needle nz =
    let (z, e, found) = char_index_from_lem s rest 0 needle nz in
    (shift 0 z, e, rw (shift_zero z) found)

char_index_from-here :
    (s rest : Bytes) (i c : ℕ)
    → c ≢ 0
    → All (λ x. (x ≢ 0) × (x ≢ c)) s
    → char_index_from i (s ++ c ∷ rest) c ≡ returns (pos (length s + i))
unfolding char_index_from
char_index_from-here [] rest i c c_nz _ = ground arith
char_index_from-here (x ∷ s) rest i c c_nz ((nz, ne), more) =
    ground (arith, char_index_from-here s rest (i + 1) c c_nz more)

-- A byte is found behind others.
pub char_index-here :
    (s rest : Bytes) (c : ℕ)
    → c ≢ 0
    → All (λ x. (x ≢ 0) × (x ≢ c)) s
    → char_index (some (s ++ c ∷ rest)) c ≡ returns (pos (length s))
unfolding char_index
char_index-here s rest c c_nz others =
    char_index_from-here s rest 0 c c_nz others ∙ ap (λ n. returns (pos n)) (omega arith)

-- the test `charIndex(…)==-1`
unfoldable pub is_minus_one : ℤ → Bool
is_minus_one z = ==ℤ z minus_one

-- whether a byte stands in a string
abbrev pub has : Bytes → ℕ → Bool
has [] c = false
has (x ∷ s) c = x == c || has s c

pub char_index_from-has :
    (s : Bytes) (i d : ℕ)
    → All (λ x. x ≢ 0) s
    → (z : ℤ) × (char_index_from i (s ++ 0 ∷ []) d ≡ returns z) × (is_minus_one z ≡ not (has s d))
unfolding char_index_from is_minus_one
char_index_from-has [] i d _ = (minus_one, refl, refl)
char_index_from-has (x ∷ s) i d (nz, more) =
    let (z, e, h) = char_index_from-has s (i + 1) d more in
    elim (Bool-cases (x == d)) [
      | inl same ↦ (pos i, ground arith, ground arith)
      | inr other ↦ (z, ground arith, ground arith)
    ]

pub char_index-has :
    (s : Bytes) (d : ℕ)
    → All (λ x. x ≢ 0) s
    → (z : ℤ) × (char_index (some (s ++ 0 ∷ [])) d ≡ returns z) × (is_minus_one z ≡ not (has s d))
unfolding char_index
char_index-has s d nz = char_index_from-has s 0 d nz

-- ===== src/GetPeers/Delivered.antt =====
-- A parameter of a query is found, measured and read as neth.c does it.
use traccoon.Encoding.Url.Plain.{IsValueByte}
use traccoon.Memory.{returns}
use traccoon.Neth.Keys.{same, has_suffix, IsPlain, IsNot}
use traccoon.Neth.Query.{query, behind_key, text_after-behind_key}
use traccoon.Neth.{text_after, http_param_length, http_param_length_from, ends_param}
use traccoon.Prelude.{
  ◌==◌, if◌then◌else◌, not, sym, ◌&&◌, Bool, Option, ℕ, ◌+◌, ◌≡◌, refl, ap, ◌∙◌, true, false, some,
  List, [], ◌∷◌, ◌++◌, Bytes, length, All, arith,
}

-- The tracker finds a parameter in a text, with a byte behind its value that ends it, and measures
-- the value.
abbrev pub Delivered : Bytes → Bytes → Bytes → Type 0
Delivered text name value =
    (c : ℕ) × (behind : Bytes) × (text_after text (name ++ b'=' ∷ [])
      ≡ returns (some (value ++ c ∷ behind)))
    × (http_param_length (value ++ c ∷ behind) ≡ returns (length value))
    × (ends_param c ≡ true)

http_param_length-value :
    (v rest : Bytes) (c i : ℕ)
    → All IsValueByte v
    → ends_param c ≡ true
    → http_param_length_from (v ++ c ∷ rest) i ≡ returns (length v + i)
unfolding http_param_length_from
http_param_length-value [] rest c i pv ends = rw ends (ap returns (omega arith))
http_param_length-value (x ∷ v) rest c i ((nz, e, a, s), pv) ends =
    let inside : ends_param x ≡ false = ground (arith, nz, a, s) in
    rw inside (http_param_length-value v rest c (i + 1) pv ends ∙ ap returns (omega arith))

pub value-IsPlain : (v : Bytes) → All IsValueByte v → All IsPlain v
value-IsPlain [] pv = tt
value-IsPlain (x ∷ v) ((nz, e, a, s), pv) = ((nz, e), value-IsPlain v pv)

-- A name that a search can find: without a zero, a `=` and a separator.
abbrev is_name : Bytes → Bool
is_name [] = true
is_name (x ∷ k) = not (x == 0) && not (x == b'=') && not (x == b'&') && not (x == b'?') && is_name k

-- a parameter as the search needs it
abbrev Named : Bytes → Bytes × Bytes → Type 0
Named k p = All IsPlain p.0 × All IsPlain p.1 × (has_suffix k p.0 ≡ same p.0 k)

abbrev both_or_none : Bool → Bool → Bool
both_or_none a b = if a then b else not b

-- Of the names of some parameters, one that ends with `k` is `k`.
abbrev finds_only : Bytes → List (Bytes × Bytes) → Bool
finds_only k [] = true
finds_only k ((key, value) ∷ ps) =
    is_name key && both_or_none (has_suffix k key) (same key k) && finds_only k ps

-- what a search for `k` asks of the name and of the parameters
abbrev pub searchable : Bytes → List (Bytes × Bytes) → Bool
searchable k ps = is_name k && finds_only k ps

is_name-IsPlain : (k : Bytes) → is_name k ≡ true → All IsPlain k
is_name-IsPlain [] h = tt
is_name-IsPlain (x ∷ k) h = ((ground arith, ground arith), is_name-IsPlain k (ground arith))

is_name-ampersand : (k : Bytes) → is_name k ≡ true → All (IsNot b'&') k
is_name-ampersand [] h = tt
is_name-ampersand (x ∷ k) h = (ground arith, is_name-ampersand k (ground arith))

is_name-question : (k : Bytes) → is_name k ≡ true → All (IsNot b'?') k
is_name-question [] h = tt
is_name-question (x ∷ k) h = (ground arith, is_name-question k (ground arith))

both_or_none-eq : (a b : Bool) → both_or_none a b ≡ true → a ≡ b
both_or_none-eq true b h = sym h
both_or_none-eq false true h = absurd (cc)
both_or_none-eq false false h = refl

-- parameters whose values can be delivered
abbrev pub AllValues : List (Bytes × Bytes) → Type 0
AllValues ps = All (λ p. All IsValueByte p.1) ps

finds_only-Named :
    (k : Bytes) (ps : List (Bytes × Bytes))
    → finds_only k ps ≡ true
    → AllValues ps
    → All (Named k) ps
finds_only-Named k [] h v = tt
finds_only-Named k ((key, value) ∷ ps) h (pv, v) = (
  (
    is_name-IsPlain key (ground arith),
    value-IsPlain value pv,
    both_or_none-eq (has_suffix k key) (same key k) (ground arith),
  ),
  finds_only-Named k ps (ground arith) v,
)

module _ (rest : Bytes) (ps : List (Bytes × Bytes)) (values : AllValues ps) where
  abbrev text : Bytes
  text = query b'?' ps ++ 0 ∷ rest

  -- The search for a name gives what stands behind it.
  pub finds :
      (k : Bytes) {found : Option Bytes}
      → searchable k ps ≡ true
      → behind_key k (0 ∷ rest) ps ≡ found
      → text_after text (k ++ b'=' ∷ []) ≡ returns found
  finds k {found} ok e =
      let name : is_name k ≡ true = ground arith in
      let only : finds_only k ps ≡ true = ground arith in
      text_after-behind_key k rest ps (is_name-IsPlain k name) (is_name-ampersand k name)
        (is_name-question k name) (finds_only-Named k ps only values)
      ∙ ap returns e

  pub delivers :
      (k value behind : Bytes) (c : ℕ)
      → searchable k ps ≡ true
      → All IsValueByte value
      → ends_param c ≡ true
      → behind_key k (0 ∷ rest) ps ≡ some (value ++ c ∷ behind)
      → Delivered text k value
  unfolding http_param_length
  delivers k value behind c ok pv ends e = (
    c,
    behind,
    finds k ok e,
    http_param_length-value value behind c 0 pv ends ∙ ap returns (omega arith),
    ends,
  )

-- ===== src/Neth/Query.antt =====
-- `textAfter` on a query string: what it finds for a parameter.
use traccoon.Neth.Keys.{
  same, has_suffix, IsPlain, IsNot, same-eq, same-sep, has_suffix-sep, starts_with-same,
  starts_with-end, text_after-skip, text_after-end, same_refl, text_after-nonempty,
}
use traccoon.CLib.{starts_with}
use traccoon.Encoding.Url.RoundTrip.{All-append}
use traccoon.Memory.{returns}
use traccoon.Neth.{text_after}
use traccoon.Prelude.{
  ℕ, ◌≡◌, refl, ap, sym, ◌∙◌, inl, inr, false, Bool-cases, Option, none, some, List, [], ◌∷◌, ◌++◌,
  Bytes, length, drop, All, if◌then◌else◌, arith, append_assoc, length-append, drop-append,
}

-- parameters with their values, each behind a separator
unfoldable pub query : ℕ → List (Bytes × Bytes) → Bytes
query sep [] = []
query sep ((key, value) ∷ ps) = sep ∷ (key ++ (b'=' ∷ (value ++ query b'&' ps)))

-- What stands behind the first parameter `k` of a query, with `rest` behind the query.
unfoldable pub behind_key : Bytes → Bytes → List (Bytes × Bytes) → Option Bytes
behind_key k rest [] = none
behind_key k rest ((key, value) ∷ ps) =
    if same key k then some (value ++ (query b'&' ps ++ rest)) else behind_key k rest ps

module _ (k : Bytes) (plain : All IsPlain k) where
  abbrev param : Bytes
  param = k ++ b'=' ∷ []

  -- No key ends the text in front of `=`.
  text_after-other :
      (s rest : Bytes)
      → All IsPlain s
      → has_suffix k s ≡ false
      → text_after (s ++ b'=' ∷ rest) param ≡ text_after rest param
  unfolding has_suffix
  text_after-other [] rest ps ends =
      text_after-skip b'=' rest param (omega arith)
        (starts_with-same [] k rest tt plain ∙ ap returns ends)
  text_after-other (x ∷ s) rest ((nz, ne), ps) ends =
      text_after-skip x (s ++ b'=' ∷ rest) param nz
        (starts_with-same (x ∷ s) k rest ((nz, ne), ps) plain ∙ ap returns (ground (arith, ends)))
      ∙ text_after-other s rest ps (ground (arith, ends))

  text_after-missing :
      (s rest : Bytes) → All IsPlain s → text_after (s ++ 0 ∷ rest) param ≡ returns none
  text_after-missing [] rest ps =
      text_after-end 0 rest param refl (starts_with-end [] k rest tt plain)
  text_after-missing (x ∷ s) rest ((nz, ne), ps) =
      text_after-skip x (s ++ 0 ∷ rest) param nz
        (starts_with-end (x ∷ s) k rest ((nz, ne), ps) plain)
      ∙ text_after-missing s rest ps

-- The text and what stands behind it, for a parameter behind a separator.
abbrev parts : Bytes → ℕ → Bytes → Bytes → Bytes
parts v sep key rest = v ++ (sep ∷ (key ++ b'=' ∷ rest))

parts-append :
    (v key rest : Bytes) (sep : ℕ) → parts v sep key rest ≡ (v ++ sep ∷ key) ++ b'=' ∷ rest
parts-append v key rest sep = sym (append_assoc v (sep ∷ key) (b'=' ∷ rest))

module _ (k : Bytes) (plain : All IsPlain k) where
  text_after-key :
      (rest : Bytes) → text_after (k ++ b'=' ∷ rest) (k ++ b'=' ∷ []) ≡ returns (some rest)
  text_after-key rest =
      text_after-nonempty (k ++ b'=' ∷ rest) (k ++ b'=' ∷ [])
        (omega (arith, length-append k (b'=' ∷ rest)))
        (starts_with-same k k rest plain plain ∙ ap returns (same_refl k))
      ∙ ap (λ s. returns (some s))
          (ap (drop (length (k ++ b'=' ∷ []))) (sym (append_assoc k (b'=' ∷ []) rest))
            ∙ drop-append (k ++ b'=' ∷ []) rest)

  text_after-found :
      (v : Bytes) (sep : ℕ) (rest : Bytes)
      → All IsPlain v
      → IsPlain sep
      → All (IsNot sep) k
      → text_after (parts v sep k rest) (k ++ b'=' ∷ []) ≡ returns (some rest)
  text_after-found [] sep rest pv (nz, ne) other =
      text_after-skip sep (k ++ b'=' ∷ rest) (k ++ b'=' ∷ []) nz (
        starts_with-same (sep ∷ k) k rest ((nz, ne), plain) plain
        ∙ ap returns (same-sep sep [] k k other))
      ∙ text_after-key rest
  text_after-found (x ∷ v) sep rest ((nz, ne), pv) p other =
      text_after-skip x (parts v sep k rest) (k ++ b'=' ∷ []) nz (
        ap (λ s. starts_with s (k ++ b'=' ∷ [])) (parts-append (x ∷ v) k rest sep)
        ∙ starts_with-same ((x ∷ v) ++ sep ∷ k) k rest
            ((nz, ne), All-append IsPlain v (sep ∷ k) pv (p, plain)) plain
        ∙ ap returns (same-sep sep (x ∷ v) k k other))
      ∙ text_after-found v sep rest pv p other

  -- Of the names of a query, one that ends with `k` is `k`.
  abbrev IsNamed : Bytes × Bytes → Type 0
  IsNamed p = All IsPlain p.0 × All IsPlain p.1 × (has_suffix k p.0 ≡ same p.0 k)

  module _ (rest : Bytes) (no_ampersand : All (IsNot b'&') k) where
    reassociate :
        (v key value : Bytes) (sep : ℕ) (ps : List (Bytes × Bytes))
        → v ++ (query sep ((key, value) ∷ ps) ++ 0 ∷ rest)
          ≡ parts v sep key (value ++ (query b'&' ps ++ 0 ∷ rest))
    unfolding query
    reassociate v key value sep ps =
        ap (λ s. v ++ (sep ∷ s))
          (append_assoc key (b'=' ∷ (value ++ query b'&' ps)) (0 ∷ rest)
            ∙ ap (λ s. key ++ (b'=' ∷ s)) (append_assoc value (query b'&' ps) (0 ∷ rest)))

    behind_value :
        (ps : List (Bytes × Bytes)) (v : Bytes) (sep : ℕ)
        → All IsPlain v
        → IsPlain sep
        → All (IsNot sep) k
        → All IsNamed ps
        → text_after (v ++ (query sep ps ++ 0 ∷ rest)) (k ++ b'=' ∷ [])
          ≡ returns (behind_key k (0 ∷ rest) ps)
    unfolding behind_key
    behind_value [] v sep pv p other named = unfold query in text_after-missing k plain v rest pv
    behind_value ((key, value) ∷ ps) v sep pv p other ((pk, pval, ends), named) =
        ap (λ s. text_after s (k ++ b'=' ∷ [])) (reassociate v key value sep ps)
        ∙ elim (Bool-cases (same key k)) [
          | inl it ↦
              rw (it, same-eq key k it)
                (text_after-found v sep (value ++ (query b'&' ps ++ 0 ∷ rest)) pv p other)
          | inr differs ↦ rw differs (
              ap (λ s. text_after s (k ++ b'=' ∷ []))
                (parts-append v key (value ++ (query b'&' ps ++ 0 ∷ rest)) sep)
              ∙ text_after-other k plain (v ++ sep ∷ key) (value ++ (query b'&' ps ++ 0 ∷ rest))
                  (All-append IsPlain v (sep ∷ key) pv (p, pk))
                  (has_suffix-sep sep v key k other (ends ∙ differs))
              ∙ behind_value ps value b'&' pval ((omega arith, omega arith)) no_ampersand named)
        ]

-- In a query that starts with a question mark, `textAfter` finds what stands behind the first
-- parameter with a name, and nothing if there is none, where no name and no value has a zero or a
-- `=`, the name that is looked for has no separator, and no other name ends with it.
pub text_after-behind_key :
    (k rest : Bytes) (ps : List (Bytes × Bytes))
    → (plain : All IsPlain k) → All (IsNot b'&') k
    → All (IsNot b'?') k
    → All
        (λ (p : Bytes × Bytes). All IsPlain p.0 × All IsPlain p.1 × (has_suffix k p.0 ≡ same p.0 k))
        ps
    → text_after (query b'?' ps ++ 0 ∷ rest) (k ++ b'=' ∷ []) ≡ returns (behind_key k (0 ∷ rest) ps)
text_after-behind_key k rest ps plain no_ampersand no_question named =
    behind_value k plain rest no_ampersand ps [] b'?' tt (omega arith, omega arith) no_question
      named

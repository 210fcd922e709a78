-- ===== src/Comm/Flags.antt =====
-- A flag of a request is looked for with its value: `strstr` finds it where `textAfter` finds its
-- name.
use traccoon.CLib.{starts_with, strstr, shift_some}
use traccoon.Comm.Request.{parse_flag}
use traccoon.Memory.{Run, returns, fault, out_of_fuel, ◌>>=◌}
use traccoon.Neth.{text_after}
use traccoon.Prelude.{
  ℕ, suc, ◌+◌, ◌≡◌, ◌≢◌, refl, ap, sym, subst, ◌∙◌, inl, inr, Bool, true, false, Bool-cases, Option,
  none, some, [], ◌∷◌, ◌++◌, Bytes, length, drop, ◌==◌, if◌then◌else◌, arith,
}

-- A text that does not start with the name does not start with more.
starts_with-longer :
    (s p w : Bytes) → starts_with s p ≡ returns false → starts_with s (p ++ w) ≡ returns false
unfolding starts_with
starts_with-longer s [] w h = absurd (cc)
starts_with-longer [] (y ∷ p) w h = absurd (cc)
starts_with-longer (x ∷ s) (y ∷ p) w h = elim (Bool-cases (x == y)) [
  | inl same ↦ rw same (starts_with-longer s p w (ground arith))
  | inr other ↦ rw other refl
]

starts_with-drop : (s p : Bytes) → starts_with s p ≡ returns true → s ≡ p ++ drop (length p) s
unfolding starts_with
starts_with-drop s [] h = refl
starts_with-drop [] (y ∷ p) h = absurd (cc)
starts_with-drop (x ∷ s) (y ∷ p) h = elim (Bool-cases (x == y)) [
  | inl same ↦
      let tail = starts_with-drop s p (ground (arith, h, same)) in
      ap (λ z. z ∷ s) (ground arith) ∙ ap (◌∷◌ y) tail
  | inr other ↦ absurd (ground (arith, h, other))
]

abbrev is_found : Option ℕ → Bool
is_found none = false
is_found (some n) = true

found_shift :
    (r : Run (Option ℕ))
    → ((r >>= λ o. returns (shift_some o)) >>= λ o. elim o [
      | none ↦ returns false
      | some n ↦ returns true
    ])
      ≡ (r >>= λ o. elim o [ none ↦ returns false | some n ↦ returns true ])
found_shift (returns none) = refl
found_shift (returns (some n)) = refl
found_shift fault = refl
found_shift out_of_fuel = refl

parse_flag-skip :
    (x : ℕ) (s q : Bytes)
    → x ≢ 0
    → starts_with (x ∷ s) q ≡ returns false
    → parse_flag (x ∷ s) q ≡ parse_flag s q
unfolding parse_flag strstr
parse_flag-skip x s q nz differs =
    let goes_on : (x == 0) ≡ false = ground (arith, nz) in
    rw (differs, parse_flag, strstr) (rw goes_on (found_shift (strstr s q)))

parse_flag-end :
    (x : ℕ) (s q : Bytes)
    → (x == 0) ≡ true
    → starts_with (x ∷ s) q ≡ returns false
    → parse_flag (x ∷ s) q ≡ returns false
unfolding parse_flag strstr
parse_flag-end x s q end differs = rw (differs, parse_flag, strstr) (rw end refl)

-- What the place of `p` says of a flag that starts with `p`.
unfoldable FlagAt : Bytes → Bytes → Bytes → Option ℕ → Type 0
FlagAt s p w none = parse_flag s (p ++ w) ≡ returns false
FlagAt s p w (some n) =
    (drop n s ≡ p ++ drop (n + length p) s)
    × (parse_flag s (p ++ w) ≡ parse_flag (drop n s) (p ++ w))

FlagAt-skip :
    (x : ℕ) (s p w : Bytes) (o : Option ℕ)
    → x ≢ 0
    → starts_with (x ∷ s) (p ++ w) ≡ returns false
    → FlagAt s p w o
    → FlagAt (x ∷ s) p w (shift_some o)
unfolding FlagAt
FlagAt-skip x s p w none nz differs f = parse_flag-skip x s (p ++ w) nz differs ∙ f
FlagAt-skip x s p w (some n) nz differs (at, same) =
    let one_more : suc n + length p ≡ suc (n + length p) = omega arith in
    (
      at ∙ ap (λ m. p ++ drop m (x ∷ s)) (sym one_more),
      parse_flag-skip x s (p ++ w) nz differs ∙ same,
    )

-- The result of a search behind one byte.
unshift :
    (r : Run (Option ℕ)) (o : Option ℕ)
    → (r >>= λ o. returns (shift_some o)) ≡ returns o
    → (o' : Option ℕ) × (r ≡ returns o') × (shift_some o' ≡ o)
unshift (returns o') o h = (o', refl, cc)
unshift fault o h = absurd (cc)
unshift out_of_fuel o h = absurd (cc)

-- The search at one position, where `b` says whether `p` stands there.
FlagAt-step :
    (x : ℕ) (s p w : Bytes) (o : Option ℕ) (b : Run Bool)
    → ((o' : Option ℕ) → strstr s p ≡ returns o' → FlagAt s p w o')
    → starts_with (x ∷ s) p ≡ b
    → (b >>= λ hit.
        if hit
        then returns (some 0)
        else if x == 0
        then returns none
        else strstr s p >>= λ o. returns (shift_some o))
      ≡ returns o
    → FlagAt (x ∷ s) p w o
FlagAt-step x s p w o fault ih e h = absurd (cc)
FlagAt-step x s p w o out_of_fuel ih e h = absurd (cc)
FlagAt-step x s p w o (returns true) ih e h =
    let first : some 0 ≡ o = cc in
    let start : 0 + length p ≡ length p = omega arith in
    subst (FlagAt (x ∷ s) p w) first (
      unfold FlagAt in
      (starts_with-drop (x ∷ s) p e ∙ ap (λ m. p ++ drop m (x ∷ s)) (sym start), refl))
FlagAt-step x s p w o (returns false) ih e h =
    let differs = starts_with-longer (x ∷ s) p w e in
    elim (Bool-cases (x == 0)) [
      | inl end ↦
          let stopped = rw end at h in
          let nothing : none ≡ o = cc in
          subst (FlagAt (x ∷ s) p w) nothing
            (unfold FlagAt in parse_flag-end x s (p ++ w) end differs)
      | inr nz ↦
          let later = rw nz at h in
          let (o', found, same) = unshift (strstr s p) o later in
          subst (FlagAt (x ∷ s) p w) same
            (FlagAt-skip x s p w o' (ground (arith, nz)) differs (ih o' found))
    ]

strstr-FlagAt : (s p w : Bytes) (o : Option ℕ) → strstr s p ≡ returns o → FlagAt s p w o
unfolding strstr
strstr-FlagAt [] p w o h = absurd (cc)
strstr-FlagAt (x ∷ s) p w o h =
    FlagAt-step x s p w o (starts_with (x ∷ s) p) (λ o'. strstr-FlagAt s p w o') refl h

-- Where a name is missing, a flag with that name is not set.
pub parse_flag-missing :
    (s p w : Bytes) → text_after s p ≡ returns none → parse_flag s (p ++ w) ≡ returns false
unfolding text_after FlagAt
parse_flag-missing s p w h = found (strstr s p) refl h
  where
    found :
        (r : Run (Option ℕ))
        → strstr s p ≡ r
        → (r >>= λ o. elim o [
          | none ↦ returns none
          | some n ↦ returns (some (drop (n + length p) s))
        ])
          ≡ returns none
        → parse_flag s (p ++ w) ≡ returns false
    found (returns none) e h = strstr-FlagAt s p w none e
    found (returns (some n)) e h = absurd (cc)
    found fault e h = absurd (cc)
    found out_of_fuel e h = absurd (cc)

-- Where a name is found, a flag with that name is looked for from there.
pub parse_flag-found :
    (s p w behind : Bytes)
    → text_after s p ≡ returns (some behind)
    → parse_flag s (p ++ w) ≡ parse_flag (p ++ behind) (p ++ w)
unfolding text_after FlagAt
parse_flag-found s p w behind h = found (strstr s p) refl h
  where
    found :
        (r : Run (Option ℕ))
        → strstr s p ≡ r
        → (r >>= λ o. elim o [
          | none ↦ returns none
          | some n ↦ returns (some (drop (n + length p) s))
        ])
          ≡ returns (some behind)
        → parse_flag s (p ++ w) ≡ parse_flag (p ++ behind) (p ++ w)
    found (returns none) e h = absurd (cc)
    found (returns (some n)) e h =
        let (at, same) = strstr-FlagAt s p w (some n) e in
        let behind_it : drop (n + length p) s ≡ behind = cc in
        same ∙ ap (λ t. parse_flag t (p ++ w)) (at ∙ ap (λ t. p ++ t) behind_it)
    found fault e h = absurd (cc)
    found out_of_fuel e h = absurd (cc)

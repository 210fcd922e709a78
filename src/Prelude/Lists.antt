-- ===== src/Prelude/Lists.antt =====
-- Lists measured and indexed by native numbers, under the library's names.
use Prim.Native.Nat.{ℕ, zero, suc, ◌+◌, ◌-◌, ◌<◌, ◌≤◌, min}
use mathlib.Core.Path.{◌≡◌, refl, ap, ◌∙◌}
use mathlib.Core.List.{List, [], ◌∷◌, ◌++◌}
use mathlib.Core.Option.{Option, none, some}
use native.Mathlib.Omega.{arith}

module _ {ℓ} {A : Type ℓ} where
  abbrev pub length : List A → ℕ
  length [] = 0
  length (x ∷ xs) = suc (length xs)

  abbrev pub get_elem? : List A → ℕ → Option A
  get_elem? [] i = none
  get_elem? (x ∷ xs) zero = some x
  get_elem? (x ∷ xs) (suc i) = get_elem? xs i

  abbrev pub set : List A → ℕ → A → List A
  set [] i v = []
  set (x ∷ xs) zero v = v ∷ xs
  set (x ∷ xs) (suc i) v = x ∷ set xs i v

  abbrev pub take : ℕ → List A → List A
  take zero xs = []
  take (suc n) [] = []
  take (suc n) (x ∷ xs) = x ∷ take n xs

  abbrev pub drop : ℕ → List A → List A
  drop zero xs = xs
  drop (suc n) [] = []
  drop (suc n) (x ∷ xs) = drop n xs

  abbrev pub replicate : ℕ → A → List A
  replicate zero a = []
  replicate (suc n) a = a ∷ replicate n a

  abbrev pub All {κ} : (A → Type κ) → List A → Type κ
  All P [] = Unit
  All P (x ∷ xs) = P x × All P xs

module _ {ℓ} {A : Type ℓ} where
  pub length-append : (xs ys : List A) → length (xs ++ ys) ≡ length xs + length ys
  length-append [] ys = omega arith
  length-append (x ∷ xs) ys = omega (arith, length-append xs ys)

  pub length-set : (xs : List A) (i : ℕ) (v : A) → length (set xs i v) ≡ length xs
  length-set [] i v = refl
  length-set (x ∷ xs) zero v = refl
  length-set (x ∷ xs) (suc i) v = ap suc (length-set xs i v)

  pub set-set : (xs : List A) (i : ℕ) (v w : A) → set (set xs i v) i w ≡ set xs i w
  set-set [] i v w = refl
  set-set (x ∷ xs) zero v w = refl
  set-set (x ∷ xs) (suc i) v w = ap (◌∷◌ x) (set-set xs i v w)

  pub length-drop : (n : ℕ) (xs : List A) → length (drop n xs) ≡ length xs - n
  length-drop zero xs = omega arith
  length-drop (suc n) [] = omega arith
  length-drop (suc n) (x ∷ xs) = omega (arith, length-drop n xs)

  pub length-take : (n : ℕ) (xs : List A) → length (take n xs) ≡ min n (length xs)
  length-take zero xs = omega arith
  length-take (suc n) [] = omega arith
  length-take (suc n) (x ∷ xs) = omega (arith, length-take n xs)

  pub take-append-drop : (n : ℕ) (xs : List A) → take n xs ++ drop n xs ≡ xs
  take-append-drop zero xs = refl
  take-append-drop (suc n) [] = refl
  take-append-drop (suc n) (x ∷ xs) = ap (◌∷◌ x) (take-append-drop n xs)

  pub take-append : (xs ys : List A) → take (length xs) (xs ++ ys) ≡ xs
  take-append [] ys = refl
  take-append (x ∷ xs) ys = ap (◌∷◌ x) (take-append xs ys)

  pub drop-append : (xs ys : List A) → drop (length xs) (xs ++ ys) ≡ ys
  drop-append [] ys = refl
  drop-append (x ∷ xs) ys = drop-append xs ys

  pub drop-append_more : (xs ys : List A) (n : ℕ) → drop (length xs + n) (xs ++ ys) ≡ drop n ys
  drop-append_more [] ys n = rw zero_plus refl
    where
      zero_plus : 0 + n ≡ n
      zero_plus = omega arith
  drop-append_more (x ∷ xs) ys n = rw suc_plus (drop-append_more xs ys n)
    where
      suc_plus : suc (length xs) + n ≡ suc (length xs + n)
      suc_plus = omega arith

  pub drop-drop : (m n : ℕ) (xs : List A) → drop (m + n) xs ≡ drop n (drop m xs)
  drop-drop zero n xs = ap (λ k. drop k xs) (omega arith)
  drop-drop (suc m) zero [] = ap (λ k. drop k []) more
    where
      more : suc m + 0 ≡ suc m
      more = omega arith
  drop-drop (suc m) (suc n) [] = ap (λ k. drop k []) more
    where
      more : suc m + suc n ≡ suc (m + suc n)
      more = omega arith
  drop-drop (suc m) n (x ∷ xs) = ap (λ k. drop k (x ∷ xs)) more ∙ drop-drop m n xs
    where
      more : suc m + n ≡ suc (m + n)
      more = omega arith

  pub length-replicate : (n : ℕ) (a : A) → length (replicate n a) ≡ n
  length-replicate zero a = refl
  length-replicate (suc n) a = ap suc (length-replicate n a)

-- A buffer that is read at `i` and written at `c`, with `c` never ahead of `i`.
module _ {ℓ} {A : Type ℓ} where
  pub drop_tail :
      (xs : List A) (i : ℕ) {x : A} {s : List A} → drop i xs ≡ x ∷ s → drop (suc i) xs ≡ s
  drop_tail [] zero h = cc
  drop_tail [] (suc i) h = cc
  drop_tail (y ∷ xs) zero h = cc
  drop_tail (y ∷ xs) (suc i) h = drop_tail xs i h

  pub get_elem?-drop :
      (xs : List A) (i : ℕ) {x : A} {s : List A} → drop i xs ≡ x ∷ s → get_elem? xs i ≡ some x
  get_elem?-drop [] zero h = cc
  get_elem?-drop [] (suc i) h = cc
  get_elem?-drop (y ∷ xs) zero h = cc
  get_elem?-drop (y ∷ xs) (suc i) h = get_elem?-drop xs i h

  pub lt-length_of_drop :
      (xs : List A) (i : ℕ) {x : A} {s : List A} → drop i xs ≡ x ∷ s → i < length xs
  lt-length_of_drop [] zero h = absurd (cc)
  lt-length_of_drop [] (suc i) h = absurd (cc)
  lt-length_of_drop (y ∷ xs) zero h = omega arith
  lt-length_of_drop (y ∷ xs) (suc i) h = omega (arith, lt-length_of_drop xs i h)

  pub drop-set : (xs : List A) (i c : ℕ) (v : A) → c < i → drop i (set xs c v) ≡ drop i xs
  drop-set [] i c v h = refl
  drop-set (x ∷ xs) zero c v h = absurd (omega arith)
  drop-set (x ∷ xs) (suc i) zero v h = refl
  drop-set (x ∷ xs) (suc i) (suc c) v h = drop-set xs i c v (omega arith)

  -- Writing back what stands at the read position changes nothing ahead of it.
  pub drop-set_same :
      (xs : List A) (i c : ℕ) {x : A} {s : List A}
      → drop i xs ≡ x ∷ s
      → c ≤ i
      → drop i (set xs c x) ≡ x ∷ s
  drop-set_same [] i c h le = h
  drop-set_same (y ∷ xs) zero zero h le = cc
  drop-set_same (y ∷ xs) zero (suc c) h le = absurd (omega arith)
  drop-set_same (y ∷ xs) (suc i) zero h le = h
  drop-set_same (y ∷ xs) (suc i) (suc c) h le = drop-set_same xs i c h (omega arith)

  pub take-set :
      (xs : List A) (c : ℕ) (v : A)
      → c < length xs
      → take (suc c) (set xs c v) ≡ take c xs ++ v ∷ []
  take-set [] c v h = absurd (omega arith)
  take-set (x ∷ xs) zero v h = refl
  take-set (x ∷ xs) (suc c) v h = ap (◌∷◌ x) (take-set xs c v (omega arith))

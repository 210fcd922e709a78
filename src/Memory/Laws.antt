-- ===== src/Memory/Laws.antt =====
-- Reads and writes at positions that are known to lie inside the object.
use native.Mathlib.Numerals.{add-one, add-two}
use traccoon.Memory.Defs.{Run, returns, fault, out_of_fuel, ◌>>=◌, read, write}
use traccoon.Prelude.{
  some, Option, ℕ, suc, ◌+◌, ◌<◌, ◌≡◌, refl, Option, none, some, ◌∷◌, Bytes, set, length, drop,
  get_elem?-drop, drop_tail, arith,
}

pub read-drop :
    (buf : Bytes) (i : ℕ) {x : ℕ} {s : Bytes} → drop i buf ≡ x ∷ s → read buf i ≡ returns x
unfolding read
read-drop buf i h = rw (get_elem?-drop buf i h)

pub write-set : (buf : Bytes) (i v : ℕ) → i < length buf → write buf i v ≡ returns (set buf i v)
unfolding write
write-set buf i v h = ground arith

pub bind-eq-returns {ℓ κ} :
    {A : Type ℓ} {B : Type κ} (m : Run A) (f : A → Run B) {b : B}
    → (m >>= f) ≡ returns b
    → (a : A) × (m ≡ returns a) × (f a ≡ returns b)
bind-eq-returns (returns a) f h = (a, refl, h)
bind-eq-returns fault f h = cc
bind-eq-returns out_of_fuel f h = cc

pub read-drop_1 :
    (buf : Bytes) (i : ℕ) {x a : ℕ} {s : Bytes}
    → drop i buf ≡ x ∷ a ∷ s
    → read buf (i + 1) ≡ returns a
read-drop_1 buf i h = rw add-one (read-drop buf (suc i) (drop_tail buf i h))

pub read-drop_2 :
    (buf : Bytes) (i : ℕ) {x a b : ℕ} {s : Bytes}
    → drop i buf ≡ x ∷ a ∷ b ∷ s
    → read buf (i + 2) ≡ returns b
read-drop_2 buf i h =
    rw add-two (read-drop buf (suc (suc i)) (drop_tail buf (suc i) (drop_tail buf i h)))

-- A run that returns, and then another.
pub bind-returns {ℓ κ} :
    {A : Type ℓ} {B : Type κ} {m : Run A} {a : A} {r : Run B} (f : A → Run B)
    → m ≡ returns a
    → f a ≡ r
    → (m >>= f) ≡ r
bind-returns f e h = rw e h

-- A run that returns something with a property.
abbrev pub Returns {ℓ} : {A : Type ℓ} → (A → Type 0) → Run A → Type ℓ
Returns {A = A} P r = (a : A) × (r ≡ returns a) × P a

pub Returns-bind {ℓ κ} :
    {A : Type ℓ} {B : Type κ} {P : A → Type 0} {Q : B → Type 0} {r : Run A} (f : A → Run B)
    → Returns P r
    → ((a : A) → P a → Returns Q (f a))
    → Returns Q (r >>= f)
Returns-bind f (a, e, p) g = rw e (g a p)

-- a property of what may be there
abbrev pub IfSome {ℓ} : {A : Type ℓ} → (A → Type 0) → Option A → Type 0
IfSome P none = Unit
IfSome P (some a) = P a

pub Returns-IfSome {ℓ κ} :
    {A : Type ℓ} {B : Type κ} (P : A → Type 0) {Q : B → Type 0} {r : Run B} {f : A → Run B}
    → Returns Q r
    → ((a : A) → P a → Returns Q (f a))
    → (o : Option A) → IfSome P o
    → Returns Q (elim o [ none ↦ r | some a ↦ f a ])
Returns-IfSome P without within none p = without
Returns-IfSome P without within (some a) p = within a p

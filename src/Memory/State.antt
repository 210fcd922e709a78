-- ===== src/Memory/State.antt =====
-- Code with a state: it ends with a result and a state, or as a run without a state does.
use traccoon.Memory.Defs.{Run, returns, fault, out_of_fuel}
use traccoon.Prelude.{◌≡◌, ◌∙◌, refl, ap, Bool, true, false, Option, none, some}

abbrev pub Stateful {ℓ} : Type 0 → Type ℓ → Type ℓ
Stateful S A = S → Run (A × S)

abbrev pub go_on {ℓ κ} :
    {S : Type 0} {A : Type ℓ} {B : Type κ} → Run (A × S) → (A → Stateful S B) → Run (B × S)
go_on (returns r) f = f r.0 r.1
go_on fault f = fault
go_on out_of_fuel f = out_of_fuel

infixl 5 ◌>>=◌
unfoldable pub ◌>>=◌ {ℓ κ} :
    {S : Type 0} {A : Type ℓ} {B : Type κ} → Stateful S A → (A → Stateful S B) → Stateful S B
(s >>= f) h = go_on (s h) f

abbrev pub give {ℓ} : {S : Type 0} {A : Type ℓ} → A → Stateful S A
give a h = returns (a, h)

-- From a state with `P`, the code ends, and its result and its state have `Q`.
pub record Achieves {ℓ} {S : Type 0} {A : Type ℓ} (P : S → Type 0) (s : Stateful S A)
    (Q : A → S → Type 0) : Type ℓ where
  pub outcome : (h : S) → P h → (a : A) × (h' : S) × (s h ≡ returns (a, h')) × Q a h'

pub Achieves-bind {ℓ κ} :
    {S : Type 0} {A : Type ℓ} {B : Type κ} {P : S → Type 0} {Q : A → S → Type 0}
    {R : B → S → Type 0} {s : Stateful S A} {f : A → Stateful S B}
    → Achieves P s Q
    → ((a : A) → Achieves (Q a) (f a) R)
    → Achieves P (s >>= f) R
unfolding ◌>>=◌
Achieves-bind {f = f} hs hf = record {
  outcome = λ h p.
      let (a, h', e, q) = hs.outcome h p in
      let (b, h'', e', r) = (hf a).outcome h' q in (b, h'', ap (λ x. go_on x f) e ∙ e', r);
}

pub Achieves-give {ℓ} :
    {S : Type 0} {A : Type ℓ} {P : S → Type 0} {Q : A → S → Type 0} (a : A)
    → ((h : S) → P h → Q a h)
    → Achieves P (give a) Q
Achieves-give a w = record { outcome = λ h p. (a, h, refl, w h p) }

pub Achieves-weaken {ℓ} :
    {S : Type 0} {A : Type ℓ} {P : S → Type 0} {Q R : A → S → Type 0} {s : Stateful S A}
    → Achieves P s Q
    → ((a : A) (h : S) → Q a h → R a h)
    → Achieves P s R
Achieves-weaken hs w = record {
  outcome = λ h p. let (a, h', e, q) = hs.outcome h p in (a, h', e, w a h' q);
}

pub Achieves-branch {ℓ} :
    {S : Type 0} {A : Type ℓ} (P : Bool → S → Type 0) {Q : A → S → Type 0} {s t : Stateful S A}
    → Achieves (P true) s Q
    → Achieves (P false) t Q
    → (b : Bool) → Achieves (P b) (elim b [ true ↦ s | false ↦ t ]) Q
Achieves-branch P hs ht true = hs
Achieves-branch P hs ht false = ht

pub Achieves-if_some {ℓ κ} :
    {S : Type 0} {A : Type ℓ} {B : Type κ} {P : S → Type 0} (Q : A → S → Type 0) {s : Stateful S A}
    {f : B → Stateful S A}
    → Achieves P s Q
    → ((b : B) → Achieves P (f b) Q)
    → (o : Option B) → Achieves P (elim o [ none ↦ s | some b ↦ f b ]) Q
Achieves-if_some Q hs hf none = hs
Achieves-if_some Q hs hf (some b) = hf b

-- A fact that does not depend on the state can be taken out.
pub Achieves-given {ℓ} :
    {S : Type 0} {A : Type ℓ} {P : S → Type 0} {X : Type 0} {Q : A → S → Type 0} {s : Stateful S A}
    → (X → Achieves P s Q)
    → Achieves (λ h. P h × X) s Q
Achieves-given w = record { outcome = λ h p. (w p.1).outcome h p.0 }

-- From a state with `P`, the code does an access outside of an object.
pub record Crashes {ℓ} {S : Type 0} {A : Type ℓ} (P : S → Type 0) (s : Stateful S A) : Type ℓ where
  pub crash : (h : S) → P h → s h ≡ fault

pub Crashes-here {ℓ κ} :
    {S : Type 0} {A : Type ℓ} {B : Type κ} {P : S → Type 0} {s : Stateful S A}
    (f : A → Stateful S B)
    → Crashes P s
    → Crashes P (s >>= f)
unfolding ◌>>=◌
Crashes-here f c = record { crash = λ h p. ap (λ x. go_on x f) (c.crash h p) }

pub Crashes-behind {ℓ κ} :
    {S : Type 0} {A : Type ℓ} {B : Type κ} {P : S → Type 0} {Q : A → S → Type 0} {s : Stateful S A}
    {f : A → Stateful S B}
    → Achieves P s Q
    → ((a : A) → Crashes (Q a) (f a))
    → Crashes P (s >>= f)
unfolding ◌>>=◌
Crashes-behind {f = f} hs hf = record {
  crash = λ h p. let (a, h', e, q) = hs.outcome h p in ap (λ x. go_on x f) e ∙ (hf a).crash h' q;
}

pub Crashes-given {ℓ} :
    {S : Type 0} {A : Type ℓ} {P : S → Type 0} {X : Type 0} {s : Stateful S A}
    → (X → Crashes P s)
    → Crashes (λ h. P h × X) s
Crashes-given w = record { crash = λ h p. (w p.1).crash h p.0 }

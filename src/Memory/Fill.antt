-- ===== src/Memory/Fill.antt =====
-- A local buffer that a function fills from the front, whatever it holds before.
use traccoon.Memory.Defs.{returns, write}
use traccoon.Memory.Laws.{write-set}
use traccoon.Prelude.{
  ℕ, zero, suc, ◌<◌, ◌≡◌, refl, ap, sym, ◌∙◌, [], ◌∷◌, ◌++◌, Bytes, set, take, drop,
  take-append-drop, length, length-set, length-append, take-set, arith,
}

-- A buffer of `n` bytes that starts with `out`.
pub record Fills (n : ℕ) (buf out : Bytes) : Type 0 where
  pub written : take (length out) buf ≡ out
  pub total : length buf ≡ n

take-set_behind : (xs : Bytes) (c : ℕ) (v : ℕ) → take c (set xs c v) ≡ take c xs
take-set_behind [] c v = refl
take-set_behind (x ∷ xs) zero v = refl
take-set_behind (x ∷ xs) (suc c) v = ap (◌∷◌ x) (take-set_behind xs c v)

module _ {n : ℕ} (buf out : Bytes) (v : ℕ) (f : Fills n buf out) (room : length out < n) where
  inside : length out < length buf
  inside = omega (arith, f.total)

  pub write-Fills : write buf (length out) v ≡ returns (set buf (length out) v)
  write-Fills = write-set buf (length out) v inside

  -- The next byte is written behind the others.
  pub Fills-push : Fills n (set buf (length out) v) (out ++ v ∷ [])
  Fills-push =
      let len : length (out ++ v ∷ []) ≡ suc (length out) =
        length-append out (v ∷ []) ∙ omega arith in
      record {
        written = rw len (take-set buf (length out) v inside ∙ ap (λ o. o ++ v ∷ []) f.written);
        total = length-set buf (length out) v ∙ f.total;
      }

  -- The same write does not touch what was written before.
  pub Fills-set : Fills n (set buf (length out) v) out
  Fills-set = record {
    written = take-set_behind buf (length out) v ∙ f.written;
    total = length-set buf (length out) v ∙ f.total;
  }

pub Fills-nil : (buf : Bytes) → Fills (length buf) buf []
Fills-nil buf = record { written = refl; total = refl }

-- The bytes behind.
pub Fills-split : {n : ℕ} {buf out : Bytes} → Fills n buf out → (rest : Bytes) × (buf ≡ out ++ rest)
Fills-split {buf = buf} {out} f = (
  drop (length out) buf,
  sym (take-append-drop (length out) buf) ∙ ap (λ o. o ++ drop (length out) buf) f.written,
)

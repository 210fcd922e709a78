-- ===== src/Encoding/InPlace.antt =====
-- The state of the in-place decoding loops of encoding.c, and what they end with.
use native.Mathlib.Numerals.{add-one}
use traccoon.Encoding.Digits.{cons_some}
use traccoon.Memory.{Run, returns}
use traccoon.Prelude.{
  unsigned, unsigned-small, to_int, to_int-small, ◌^◌, ℕ, suc, ◌+◌, ◌<◌, ◌≤◌, ◌≡◌, ap, subst, ◌∙◌,
  Option, none, some, [], ◌∷◌, ◌++◌, Bytes, length, ℤ, pos, minus_one, drop, take, set, arith,
  drop_tail, lt-length_of_drop, drop-set, take-set, length-set, length-append, append_assoc,
}

-- The loop's state: `out` is written, `text` is to be read, and the buffer has `n` bytes.
pub record At (n : ℕ) (buf : Bytes) (i c : ℕ) (out text : Bytes) : Type 0 where
  pub here : drop i buf ≡ text
  pub written : take c buf ≡ out
  pub size : length out ≡ c
  pub behind : c ≤ i
  pub total : length buf ≡ n

pub At-write :
    {n : ℕ} {buf : Bytes} {i c x : ℕ} {out text : Bytes} (v : ℕ)
    → At n buf i c out (x ∷ text)
    → At n (set buf c v) (i + 1) (c + 1) (out ++ v ∷ []) text
At-write {buf = buf} {i} {c} {out = out} v a =
    let fits : c < length buf = omega (arith, lt-length_of_drop buf i a.here, a.behind) in
    record {
      here =
          rw (add-one i)
            (drop-set buf (suc i) c v (omega (arith, a.behind)) ∙ drop_tail buf i a.here);
      written = rw (add-one c) (take-set buf c v fits ∙ ap (λ o. o ++ v ∷ []) a.written);
      size = length-append out (v ∷ []) ∙ omega (arith, a.size);
      behind = omega (arith, a.behind);
      total = length-set buf c v ∙ a.total;
    }

pub At-skip :
    {n : ℕ} {buf : Bytes} {i c x : ℕ} {out text : Bytes}
    → At n buf i c out (x ∷ text)
    → At n buf (i + 1) c out text
At-skip {buf = buf} {i} a = record {
  here = rw (add-one i) (drop_tail buf i a.here);
  written = a.written;
  size = a.size;
  behind = omega (arith, a.behind);
  total = a.total;
}

pub At-skip_2 :
    {n : ℕ} {buf : Bytes} (i : ℕ) {c x y : ℕ} {out text : Bytes}
    → At n buf (i + 1) c out (x ∷ y ∷ text)
    → At n buf (i + 3) c out text
At-skip_2 {n} {buf} i {c} {out = out} {text} a =
    subst (λ k. At n buf k c out text) (omega arith) (At-skip (At-skip a))

-- What the loop ends with, where `o` is the decoding of the text in front of it.
abbrev pub Outcome : ℕ → Bytes → Option Bytes → Run (ℤ × Bytes) → Type 0
Outcome n out none r = (buf : Bytes) × (r ≡ returns (minus_one, buf)) × (length buf ≡ n)
Outcome n out (some d) r =
    (buf : Bytes) × (r ≡ returns (pos (length (out ++ d)), buf))
    × (take (suc (length (out ++ d))) buf ≡ (out ++ d) ++ 0 ∷ [])
    × (length buf ≡ n)

pub Outcome-cons :
    (n : ℕ) (out : Bytes) (v : ℕ) (o : Option Bytes) (r : Run (ℤ × Bytes))
    → Outcome n (out ++ v ∷ []) o r
    → Outcome n out (cons_some v o) r
Outcome-cons n out v none r h = h
Outcome-cons n out v (some d) r h = rw (append_assoc out (v ∷ []) d) at h

-- No index of the loop wraps around in front of 2^31.
pub index_lem : (i k : ℕ) → i < 2 ^ 31 → k ≤ 3 → unsigned (i + k) ≡ i + k
index_lem i k near few = unsigned-small (i + k) (omega (arith, near, few))

pub count_lem : (i c : ℕ) → i < 2 ^ 31 → c ≤ i → unsigned (c + 1) ≡ c + 1
count_lem i c near behind = unsigned-small (c + 1) (omega (arith, near, behind))

-- Nor is the decoded length too large for an `int`.
pub result_lem : (i c : ℕ) → i < 2 ^ 31 → c ≤ i → to_int (pos c) ≡ pos c
result_lem i c near behind = to_int-small c (omega (arith, near, behind))

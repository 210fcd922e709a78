-- ===== src/Neth/Bounds.antt =====
-- The decoded length of a parameter bounds its length, and so what is copied to the fixed buffers.
use traccoon.Memory.{Run, returns}
use traccoon.Neth.{
  within, decoded_strlen_from, decoded_strlen, ends_param, http_param_length_from,
  http_param_length,
}
use traccoon.Prelude.{
  length, ◌<◌, ◌-◌, ◌^◌, to_int, to_int-small, ℕ, suc, ◌+◌, ◌*◌, ◌≤◌, ◌≡◌, ◌≢◌, refl, inl, inr,
  Bool, Bool-cases, true, false, not, ◌&&◌, ◌||◌, [], ◌∷◌, Bytes, ◌==◌, if◌then◌else◌, pos, arith,
}

-- whether there is a terminator
unfoldable pub has_zero : Bytes → Bool
has_zero [] = false
has_zero (x ∷ s) = x == 0 || has_zero s

-- the bytes in front of the terminator
unfoldable pub text_length : Bytes → ℕ
text_length [] = 0
text_length (x ∷ s) = if x == 0 then 0 else suc (text_length s)

-- The loop of `decodedStrlen` ends; a third of what it has passed is counted, and no more than it has
-- passed inside the bound.
unfoldable Counts : ℕ → ℕ → ℕ → Run ℕ → Type 0
Counts m i c r = (n : ℕ) × (r ≡ returns n) × (m + 3 * c ≤ 3 * n + i) × (n ≤ c + (m - i))

-- the test with which the loop stops
abbrev over : ℕ → ℕ → ℕ → Bool
over x i m = x == 0 || not (within i (pos m))

over_lem : (x : ℕ) (s : Bytes) (i m : ℕ) → over x i m ≡ true → m ≤ text_length (x ∷ s) + i → m ≤ i
unfolding text_length
over_lem x s i m h le = ground arith

over-nonzero : (x i m : ℕ) → over x i m ≡ false → x ≢ 0
over-nonzero x i m h = ground arith

over-inside : (x i m : ℕ) → over x i m ≡ false → i < m
over-inside x i m h = ground arith

Counts-stop :
    (x : ℕ) (s : Bytes) (m i c : ℕ)
    → m ≤ text_length (x ∷ s) + i
    → over x i m ≡ true
    → Counts m i c (decoded_strlen_from (pos m) (x ∷ s) i c)
unfolding Counts decoded_strlen_from
Counts-stop x [] m i c le h = rw h (c, refl, omega (arith, over_lem x [] i m h le), omega arith)
Counts-stop x (a ∷ []) m i c le h =
    rw h (c, refl, omega (arith, over_lem x (a ∷ []) i m h le), omega arith)
Counts-stop x (a ∷ b ∷ s) m i c le h =
    rw h (c, refl, omega (arith, over_lem x (a ∷ b ∷ s) i m h le), omega arith)

Counts-next :
    (m i c k : ℕ) (r : Run ℕ) → 1 ≤ k → k ≤ 3 → i < m → Counts m (i + k) (c + 1) r → Counts m i c r
unfolding Counts
Counts-next m i c k r more le inside (n, e, h, few) = (n, e, omega arith, omega arith)

decoded_strlen_from_lem :
    (s : Bytes) (m i c : ℕ)
    → has_zero s ≡ true
    → m ≤ text_length s + i
    → Counts m i c (decoded_strlen_from (pos m) s i c)
unfolding has_zero
decoded_strlen_from_lem [] m i c z le = absurd (cc)
decoded_strlen_from_lem (x ∷ []) m i c z le = Counts-stop x [] m i c le (ground arith)
decoded_strlen_from_lem (x ∷ a ∷ []) m i c z le = elim (Bool-cases (over x i m)) [
  | inl h ↦ Counts-stop x (a ∷ []) m i c le h
  | inr go ↦
      let nz = over-nonzero x i m go in
      let last : a ≡ 0 = ground arith in
      let step : decoded_strlen_from (pos m) (x ∷ a ∷ []) i c
          ≡ decoded_strlen_from (pos m) (a ∷ []) (i + 1) (c + 1) =
        unfold decoded_strlen_from in ground (arith, go, last) in
      rw step (
        Counts-next m i c 1 _ (omega arith) (omega arith) (over-inside x i m go) (
          decoded_strlen_from_lem (a ∷ []) m (i + 1) (c + 1) (ground arith)
            (unfold text_length in ground (arith, nz))))
]
decoded_strlen_from_lem (x ∷ a ∷ b ∷ s) m i c z le = elim (Bool-cases (over x i m)) [
  | inl h ↦ Counts-stop x (a ∷ b ∷ s) m i c le h
  | inr go ↦
      let nz = over-nonzero x i m go in
      elim (Bool-cases (x == b'%' && not (a == 0) && not (b == 0))) [
        | inl escape ↦
            let step : decoded_strlen_from (pos m) (x ∷ a ∷ b ∷ s) i c
                ≡ decoded_strlen_from (pos m) s (i + 3) (c + 1) =
              unfold decoded_strlen_from in rw (go, escape) refl in
            rw step (
              Counts-next m i c 3 _ (omega arith) (omega arith) (over-inside x i m go) (
                decoded_strlen_from_lem s m (i + 3) (c + 1) (ground arith)
                  (unfold text_length in ground (arith, nz))))
        | inr plain ↦
            let step : decoded_strlen_from (pos m) (x ∷ a ∷ b ∷ s) i c
                ≡ decoded_strlen_from (pos m) (a ∷ b ∷ s) (i + 1) (c + 1) =
              unfold decoded_strlen_from in rw (go, plain) refl in
            rw step (
              Counts-next m i c 1 _ (omega arith) (omega arith) (over-inside x i m go) (
                decoded_strlen_from_lem (a ∷ b ∷ s) m (i + 1) (c + 1) (ground arith)
                  (unfold text_length in ground (arith, nz))))
      ]
]

-- `httpParamLength` from an index on: the length is inside the text.
http_param_length_from_lem :
    (s : Bytes) (i : ℕ)
    → has_zero s ≡ true
    → (n : ℕ) × (http_param_length_from s i ≡ returns n) × (n ≤ text_length s + i)
unfolding has_zero http_param_length_from text_length
http_param_length_from_lem [] i z = absurd (cc)
http_param_length_from_lem (x ∷ s) i z = elim (Bool-cases (ends_param x)) [
  | inl h ↦ (i, rw h refl, omega arith)
  | inr h ↦
      let (n, e, le) = http_param_length_from_lem s (i + 1) (ground arith) in
      (n, rw h e, ground arith)
]

-- The string is shorter than the buffer.
text_length_lem : (s : Bytes) → has_zero s ≡ true → text_length s < length s
unfolding has_zero text_length
text_length_lem [] z = absurd (cc)
text_length_lem (x ∷ s) z = elim (Bool-cases (x == 0)) [
  | inl end ↦ rw end (omega arith)
  | inr more ↦ rw more (omega (arith, text_length_lem s (ground arith)))
]

-- The two scans of a terminated buffer, one behind the other, with their lengths as numbers.
pub scans_lem :
    (s : Bytes)
    → has_zero s ≡ true
    → (len : ℕ) × (n : ℕ) × (http_param_length s ≡ returns len)
      × (decoded_strlen s (pos len) ≡ returns n)
      × (len ≤ 3 * n)
      × (n ≤ len)
      × (len < length s)
unfolding http_param_length decoded_strlen Counts
scans_lem s z =
    let (len, e, le) = http_param_length_from_lem s 0 z in
    let (n, e', count, few) = decoded_strlen_from_lem s len 0 0 z le in
    (len, n, e, e', omega arith, omega arith, omega (arith, text_length_lem s z))

-- In a terminated buffer below 2^31 bytes, `httpParamLength` and then `decodedStrlen` with the length
-- that it found end, without a read behind the buffer, and both results fit an `int`; the length is
-- at most three times the decoded length, and not smaller than it. So a parameter that decodes to 20
-- bytes fits a buffer of 61 with its terminator.
pub decoded_strlen-http_param_length :
    (s : Bytes)
    → has_zero s ≡ true
    → length s < 2 ^ 31
    → (len : ℕ) × (n : ℕ) × (http_param_length s ≡ returns len)
      × (decoded_strlen s (pos len) ≡ returns n)
      × (len ≤ 3 * n)
      × (n ≤ len)
      × (to_int (pos len) ≡ pos len)
      × (to_int (pos n) ≡ pos n)
decoded_strlen-http_param_length s z small =
    let (len, n, e, e', most, least, inside) = scans_lem s z in
    (
      len,
      n,
      e,
      e',
      most,
      least,
      to_int-small len (omega (arith, inside, small)),
      to_int-small n (omega (arith, least, inside, small)),
    )

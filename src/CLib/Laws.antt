-- ===== src/CLib/Laws.antt =====
-- Copies that fit.
use traccoon.CLib.{strncpy_bytes, overwrite, strncpy, memcpy}
use traccoon.Memory.{returns}
use traccoon.Prelude.{
  ℕ, zero, suc, ◌+◌, ◌≤◌, ◌≡◌, ◌≢◌, ap, ◌∙◌, [], ◌∷◌, ◌++◌, Bytes, length, take, drop, replicate,
  All, arith, length-append, length-replicate, append_assoc,
}

pub overwrite-fits :
    (dst bytes : Bytes)
    → length bytes ≤ length dst
    → overwrite dst bytes ≡ returns (bytes ++ drop (length bytes) dst)
unfolding overwrite
overwrite-fits dst bytes h = ground arith

pub memcpy-fits :
    (dst src : Bytes) (n : ℕ) {bytes : Bytes}
    → take n src ≡ bytes
    → length bytes ≡ n
    → n ≤ length src
    → n ≤ length dst
    → memcpy dst src n ≡ returns (bytes ++ drop n dst)
unfolding memcpy
memcpy-fits dst src n {bytes} front len inside room =
    ground (arith, overwrite-fits dst bytes (omega arith))

-- What is copied of a string that ends within the bound is the string, and zeros.
pub strncpy_bytes_lem :
    (s rest : Bytes) (n k : ℕ)
    → All (λ x. x ≢ 0) s
    → n ≡ length s + suc k
    → strncpy_bytes (s ++ 0 ∷ rest) n ≡ returns (s ++ replicate (suc k) 0)
unfolding strncpy_bytes
strncpy_bytes_lem s rest zero k nz e = absurd (omega arith)
strncpy_bytes_lem [] rest (suc n) k nz e = let same : n ≡ k = omega arith in rw same
strncpy_bytes_lem (x ∷ s) rest (suc n) k (x_nz, nz) e =
    ground (arith, strncpy_bytes_lem s rest n k nz (omega arith))

pub strncpy-fits :
    (dst s rest : Bytes) (n k : ℕ)
    → All (λ x. x ≢ 0) s
    → n ≡ length s + suc k
    → n ≤ length dst
    → strncpy dst (s ++ 0 ∷ rest) n ≡ returns (s ++ (replicate (suc k) 0 ++ drop n dst))
unfolding strncpy
strncpy-fits dst s rest n k nz e room =
    let bytes : Bytes = s ++ replicate (suc k) 0 in
    let len : length bytes ≡ n =
      length-append s _ ∙ omega (arith, length-replicate {0} {A = ℕ} (suc k) 0) in
    rw (strncpy_bytes_lem s rest n k nz e) (
      overwrite-fits dst bytes (omega arith)
      ∙ ap (λ m. returns (bytes ++ drop m dst)) len
      ∙ ap returns (append_assoc s (replicate (suc k) 0) (drop n dst)))

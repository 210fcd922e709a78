-- ===== src/NetLib/Merge.antt =====
-- What `string_merge` returns.
use traccoon.CLib.{strlen, strncpy_bytes}
use traccoon.Memory.{returns, Fills, Fills-nil, Fills-push, Fills-split, write-Fills}
use traccoon.NetLib.{total_length, write_bytes, copy_parts, string_merge}
use traccoon.Prelude.{
  to_int-small, ◌^◌, length-drop, ℕ, ◌+◌, ◌<◌, ◌≤◌, ◌≡◌, ◌≢◌, refl, ap, sym, ◌∙◌, Bool, true, not,
  ◌&&◌, Option, some, List, [], ◌∷◌, ◌++◌, map, Bytes, length, take, drop, All, ◌==◌, arith,
  append_assoc, append-nil, length-append, take-append,
}

-- a byte of a string
abbrev pub IsNonzero : ℕ → Type 0
IsNonzero x = x ≢ 0

abbrev pub is_text : Bytes → Bool
is_text [] = true
is_text (x ∷ s) = not (x == 0) && is_text s

pub is_text-IsNonzero : (s : Bytes) → is_text s ≡ true → All IsNonzero s
is_text-IsNonzero [] h = tt
is_text-IsNonzero (x ∷ s) h = (ground arith, is_text-IsNonzero s (ground arith))

abbrev pub terminated : Bytes → Bytes
terminated s = s ++ 0 ∷ []

-- the strings one behind another
abbrev pub joined : List Bytes → Bytes
joined [] = []
joined (s ∷ ss) = s ++ joined ss

pub strlen-terminated :
    (s rest : Bytes) → All IsNonzero s → strlen (s ++ 0 ∷ rest) ≡ returns (length s)
unfolding strlen
strlen-terminated [] rest nz = refl
strlen-terminated (x ∷ s) rest (x_nz, nz) = ground (arith, strlen-terminated s rest nz)

pub strncpy_bytes-text :
    (s rest : Bytes) → All IsNonzero s → strncpy_bytes (s ++ rest) (length s) ≡ returns s
unfolding strncpy_bytes
strncpy_bytes-text [] rest nz = refl
strncpy_bytes-text (x ∷ s) rest (x_nz, nz) = ground (arith, strncpy_bytes-text s rest nz)

total_length-joined :
    (ss : List Bytes)
    → All (All IsNonzero) ss
    → total_length (map terminated ss) ≡ returns (length (joined ss))
unfolding total_length
total_length-joined [] nz = refl
total_length-joined (s ∷ ss) (s_nz, nz) =
    rw (strlen-terminated s [] s_nz, total_length-joined ss nz, length-append s (joined ss)) refl

-- The object behind a string that was copied.
pub write_bytes-Fills :
    {n : ℕ} {rv out : Bytes} (bytes : Bytes)
    → Fills n rv out
    → length out + length bytes ≤ n
    → (next : Bytes) × (write_bytes rv (length out) bytes ≡ returns next)
      × Fills n next (out ++ bytes)
unfolding write_bytes
write_bytes-Fills {n} {rv} {out} bytes f room =
    let tail : Bytes = drop (length out + length bytes) rv in
    let next : Bytes = out ++ (bytes ++ tail) in
    (
      next,
      ground (arith, f.total, f.written),
      record {
        written =
            ap (take (length (out ++ bytes))) (sym (append_assoc out bytes tail))
            ∙ take-append (out ++ bytes) tail;
        total = omega (
          arith,
          f.total,
          room,
          length-append out (bytes ++ tail),
          length-append bytes tail,
          length-drop (length out + length bytes) rv,
        );
      },
    )

copy_parts-joined :
    {n : ℕ} (ss : List Bytes) {rv out : Bytes}
    → All (All IsNonzero) ss
    → Fills n rv out
    → length out + length (joined ss) ≤ n
    → length out + length (joined ss) < 2 ^ 31
    → (next : Bytes) × (copy_parts (map terminated ss) rv (length out)
        ≡ returns (next, length (out ++ joined ss)))
      × Fills n next (out ++ joined ss)
unfolding copy_parts
copy_parts-joined [] {rv} {out} nz f room small =
    (rv, rw (append-nil out) refl, rw (append-nil out) f)
copy_parts-joined (s ∷ ss) {rv} {out} (s_nz, nz) f room small =
    let (one, wrote, g) = write_bytes-Fills s f (omega (arith, length-append s (joined ss))) in
    let (next, rest, h) =
      copy_parts-joined ss {rv = one} {out = out ++ s} nz g
        (omega (arith, room, length-append s (joined ss), length-append out s))
        (omega (arith, small, length-append s (joined ss), length-append out s)) in
    let at : length out + length s ≡ length (out ++ s) = sym (length-append out s) in
    (
      next,
      rw
          (
            strlen-terminated s [] s_nz,
            strncpy_bytes-text s (0 ∷ []) s_nz,
            to_int-small (length out) (omega (arith, small)),
            wrote,
            at,
            rest,
            append_assoc out s (joined ss),
          )
          refl,
      rw (sym (append_assoc out s (joined ss))) h,
    )

-- An object that is filled to its end.
pub Fills-whole : {n : ℕ} {buf out : Bytes} → Fills n buf out → length out ≡ n → buf ≡ out
Fills-whole {n} {buf} {out} f e =
    let (rest, split) = Fills-split f in
    let no_rest : length rest ≡ 0 =
      omega (arith, e, f.total, ap length split, length-append out rest) in
    split ∙ ap (λ r. out ++ r) (no_bytes rest no_rest) ∙ append-nil out
  where
    no_bytes : (rest : Bytes) → length rest ≡ 0 → rest ≡ []
    no_bytes [] e = refl
    no_bytes (x ∷ rest) e = absurd (omega arith)

-- For strings without a zero byte, which have less than 2^31 bytes together with one terminator, and
-- an object of the size that was asked for, `string_merge` returns the strings one behind another and
-- one terminator, whatever the object held before.
pub string_merge-joined :
    (malloc : ℕ → Option Bytes) (ss : List Bytes) (object : Bytes)
    → All (All IsNonzero) ss
    → malloc (length (joined ss) + 1) ≡ some object
    → length object ≡ length (joined ss) + 1
    → length (joined ss) + 1 < 2 ^ 31
    → string_merge malloc (map terminated ss) ≡ returns (some (terminated (joined ss)))
unfolding string_merge
string_merge-joined malloc ss object nz given size small =
    let start : Fills (length object) object [] = Fills-nil object in
    let (next, copied, f) =
      copy_parts-joined ss nz start (omega (arith, size)) (omega (arith, small)) in
    let room : length (joined ss) < length object = omega (arith, size) in
    let g : Fills (length object) _ (terminated (joined ss)) =
      Fills-push next (joined ss) 0 f room in
    let len : length (terminated (joined ss)) ≡ length object =
      length-append (joined ss) (0 ∷ []) ∙ omega (arith, size) in
    rw
      (
        total_length-joined ss nz,
        to_int-small (length (joined ss) + 1) small,
        given,
        copied,
        to_int-small (length (joined ss)) (omega (arith, small)),
        write-Fills next (joined ss) 0 f room,
      )
      (ap (λ b. returns (some b)) (Fills-whole g len))

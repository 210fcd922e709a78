-- ===== src/NetLib/Http/Receive.antt =====
-- What the loop around `recv` leaves in the response buffer.
use traccoon.CLib.{strncmp_equal}
use traccoon.Memory.{Run, returns, ◌>>=◌, Fills, Fills-push, Fills-split, write-Fills}
use traccoon.NetLib.Http.{grow, receive, get_response, response_buffer_chunk}
use traccoon.NetLib.Merge.{terminated, IsNonzero, is_text-IsNonzero, Fills-whole, write_bytes-Fills}
use traccoon.Prelude.{
  to_int-small, ◌^◌, set, length-drop, ℕ, ◌+◌, ◌<◌, ◌≤◌, ◌≡◌, refl, sym, subst, ◌∙◌, inl, inr, Bool,
  true, false, ◌&&◌, Bool-cases, Option, none, some, List, [], ◌∷◌, ◌++◌, Bytes, codes, length,
  take, drop, All, ◌==◌, if◌then◌else◌, pos, minus_one, arith, append_assoc, append-nil,
  length-append, take-append,
}

-- the bytes up to the end of the first `recv` that does not fill its chunk
unfoldable pub received : List (Option Bytes) → Bytes
received [] = []
received (none ∷ recvs) = []
received (some chunk ∷ recvs) =
    if length chunk == response_buffer_chunk then chunk ++ received recvs else chunk

-- `recv` delivers no more than it is asked for.
abbrev pub IsRecv : Option Bytes → Type 0
IsRecv none = Unit
IsRecv (some chunk) = length chunk ≤ response_buffer_chunk

-- whether a text begins with another
unfoldable pub begins : Bytes → Bytes → Bool
begins [] s = true
begins (y ∷ t) [] = false
begins (y ∷ t) (x ∷ s) = x == y && begins t s

strncmp_equal-begins :
    (t s rest : Bytes)
    → All IsNonzero t
    → strncmp_equal (s ++ 0 ∷ rest) (terminated t) (length t) ≡ returns (begins t s)
unfolding strncmp_equal begins
strncmp_equal-begins [] s rest nz = refl
strncmp_equal-begins (y ∷ t) [] rest (y_nz, nz) = ground arith
strncmp_equal-begins (y ∷ t) (x ∷ s) rest (y_nz, nz) =
    ground (arith, strncmp_equal-begins t s rest nz)

-- A run of the loop that leaves a text in a buffer that has room behind it.
record Received (run : Run (Bytes × ℕ)) (text : Bytes) : Type 0 where
  size : ℕ
  buffer : Bytes
  returned : run ≡ returns (buffer, length text)
  fills : Fills size buffer text
  room : length text < size

module _ (fresh : ℕ → Bytes) (size : (n : ℕ) → length (fresh n) ≡ n) where
  abbrev memory : ℕ → Option Bytes
  memory n = some (fresh n)

  -- The buffer behind a `realloc`.
  grow-Fills :
      (out : Bytes)
      → length out + response_buffer_chunk < 2 ^ 31
      → (buf : Bytes) × (grow memory out ≡ returns buf)
        × Fills (length out + response_buffer_chunk) buf out
  unfolding grow
  grow-Fills out small =
      let tail : Bytes = drop (length out) (fresh (length out + response_buffer_chunk)) in
      (
        out ++ tail,
        rw (to_int-small (length out + response_buffer_chunk) small) refl,
        record {
          written = take-append out tail;
          total = omega (
            arith,
            length-append out tail,
            length-drop (length out) (fresh (length out + response_buffer_chunk)),
            size (length out + response_buffer_chunk),
          );
        },
      )

  Received-last :
      (out : Bytes)
      → length out + response_buffer_chunk < 2 ^ 31
      → Received (do grown ← grow memory out; returns (grown, length out)) out
  Received-last out small =
      let (buf, grown, f) = grow-Fills out small in
      record {
        size = length out + response_buffer_chunk;
        buffer = buf;
        returned = rw grown refl;
        fills = f;
        room = omega arith;
      }

  -- A call that delivers a chunk, and what follows one that fills it.
  receive-chunk :
      (chunk : Bytes) (recvs : List (Option Bytes)) (out : Bytes)
      → length chunk ≤ response_buffer_chunk
      → length out + response_buffer_chunk < 2 ^ 31
      → (length chunk ≡ response_buffer_chunk
          → Received
              (receive memory recvs (out ++ chunk) (length (out ++ chunk)))
              ((out ++ chunk) ++ received recvs))
      → Received
          (receive memory (some chunk ∷ recvs) out (length out))
          (out ++ received (some chunk ∷ recvs))
  unfolding receive received
  receive-chunk chunk recvs out fits small more =
      let (buf, grown, f) = grow-Fills out small in
      let start = to_int-small (length out) (omega (arith, small)) in
      let (next, filled, g) = write_bytes-Fills chunk f (omega (arith, fits)) in
      let at : length out + length chunk ≡ length (out ++ chunk) = sym (length-append out chunk) in
      elim (Bool-cases (length chunk == response_buffer_chunk)) [
        | inl full ↦
            let len : length chunk ≡ response_buffer_chunk = ground arith in
            let whole : next ≡ out ++ chunk =
              Fills-whole g (omega (arith, len, length-append out chunk)) in
            rw
              (grown, start, filled, full, at, whole, sym (append_assoc out chunk (received recvs)))
              (more len)
        | inr short ↦
            let len : length chunk < response_buffer_chunk = ground arith in
            rw (grown, start, filled, short, at)
              (record {
                size = length out + response_buffer_chunk;
                buffer = next;
                returned = refl;
                fills = g;
                room = omega (arith, length-append out chunk);
              })
      ]

  receive-received :
      (recvs : List (Option Bytes)) (out : Bytes)
      → All IsRecv recvs
      → length out + length (received recvs) + response_buffer_chunk < 2 ^ 31
      → Received (receive memory recvs out (length out)) (out ++ received recvs)
  unfolding receive received
  receive-received [] out ok small =
      subst (Received _) (sym (append-nil out)) (Received-last out (omega (arith, small)))
  receive-received (none ∷ recvs) out ok small =
      subst (Received _) (sym (append-nil out)) (Received-last out (omega (arith, small)))
  receive-received (some chunk ∷ recvs) out (fits, ok) small =
      receive-chunk chunk recvs out fits (omega (arith, small)) (λ len.
        receive-received recvs (out ++ chunk) ok (
          ground
            (arith, small, len, length-append out chunk, length-append chunk (received recvs))))

  -- With memory that does not run out and calls of `recv` that deliver at most what they are asked
  -- for, the response is what they deliver up to the first that does not fill its chunk, with a
  -- terminator that lies inside the buffer; its length is the result if it begins with `HTTP/`, and
  -- else -1.
  pub get_response-received :
      (recvs : List (Option Bytes))
      → All IsRecv recvs
      → length (received recvs) + response_buffer_chunk < 2 ^ 31
      → (response : Bytes) × (get_response memory recvs
          ≡ returns (
            if begins (codes "HTTP/") (received recvs)
                then pos (length (received recvs))
                else minus_one,
            some response,
          ))
        × (take (length (received recvs) + 1) response ≡ terminated (received recvs))
  unfolding get_response
  get_response-received recvs ok small =
      let text : Bytes = received recvs in
      let r : Received (receive memory recvs [] 0) text =
        receive-received recvs [] ok (omega (arith, small)) in
      let count = to_int-small (length text) (omega (arith, small)) in
      let written : Fills r.size (set r.buffer (length text) 0) (terminated text) =
        Fills-push r.buffer text 0 r.fills r.room in
      let (behind, split) = Fills-split written in
      let whole : set r.buffer (length text) 0 ≡ text ++ 0 ∷ behind =
        split ∙ append_assoc text (0 ∷ []) behind in
      (
        text ++ 0 ∷ behind,
        rw
            (
              r.returned,
              count,
              write-Fills r.buffer text 0 r.fills r.room,
              whole,
              strncmp_equal-begins (codes "HTTP/") text behind
                  (is_text-IsNonzero (codes "HTTP/") refl),
            )
            refl,
        rw (sym (append_assoc text (0 ∷ []) behind), sym (length-append text (0 ∷ [])))
            (take-append (terminated text) behind),
      )

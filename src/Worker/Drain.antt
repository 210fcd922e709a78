-- ===== src/Worker/Drain.antt =====
-- A worker that takes nothing from the queue closes all its connections.
use traccoon.Worker.{Client, Worker, count_active, advance, is_over, serve, max_recv_iter}
use traccoon.Worker.Serve.{IsRecent, serve-IsRecent}
use traccoon.Prelude.{
  ℕ, ◌+◌, ◌-◌, ◌≡◌, refl, subst, inl, inr, Bool, true, not, ◌||◌, Bool-cases, List, [], ◌∷◌, length,
  All, leb, ◌==◌, arith,
}

-- Rounds in which the queue has nothing for the worker: for each what is readable, and what
-- `parseSocket` does.
unfoldable pub serve_rounds : List ((ℕ → Bool) × (Client → Bool)) → Worker → Worker
serve_rounds [] w = w
serve_rounds (round ∷ rounds) w =
    serve_rounds rounds (serve round.0 round.1 (advance w.clients) w.clients_active)

-- A slot is free, or its connection was looked at `n` times at least.
abbrev IsSeen : ℕ → Client → Type 0
IsSeen n c = (c.socket == 0 || leb n c.recv_iter) ≡ true

advance-IsSeen : (n : ℕ) (cs : List Client) → All (IsSeen n) cs → All (IsSeen (n + 1)) (advance cs)
unfolding advance
advance-IsSeen n [] seen = tt
advance-IsSeen n (c ∷ cs) (s, seen) = elim (Bool-cases (c.socket == 0)) [
  | inl free ↦ rw free (rw free refl, advance-IsSeen n cs seen)
  | inr used ↦ rw used (ground (arith, s), advance-IsSeen n cs seen)
]

serve-IsSeen :
    (n : ℕ) (readable : ℕ → Bool) (parse_socket : Client → Bool) (cs : List Client) (active : ℕ)
    → All (IsSeen n) cs
    → All (IsSeen n) (serve readable parse_socket cs active).clients
unfolding serve
serve-IsSeen n readable parse_socket [] active seen = tt
serve-IsSeen n readable parse_socket (c ∷ cs) active (s, seen) =
    elim (Bool-cases (c.socket == 0 || not (is_over readable parse_socket c))) [
      | inl kept ↦ rw kept (s, serve-IsSeen n readable parse_socket cs active seen)
      | inr closed ↦ rw closed (refl, serve-IsSeen n readable parse_socket cs (active - 1) seen)
    ]

count_active-none :
    (cs : List Client) → All (IsSeen (max_recv_iter + 1)) cs → All IsRecent cs → count_active cs ≡ 0
unfolding count_active
count_active-none [] seen recent = refl
count_active-none (c ∷ cs) (s, seen) (r, recent) = ground (arith, count_active-none cs seen recent)

never-IsSeen : (cs : List Client) → All (IsSeen 0) cs
never-IsSeen [] = tt
never-IsSeen (c ∷ cs) = (ground arith, never-IsSeen cs)

drained :
    (rounds : List ((ℕ → Bool) × (Client → Bool))) (w : Worker) (n : ℕ)
    → All (IsSeen n) w.clients
    → All IsRecent w.clients
    → All (IsSeen (n + length rounds)) (serve_rounds rounds w).clients
      × All IsRecent (serve_rounds rounds w).clients
unfolding serve_rounds
drained [] w n seen recent = (subst (λ k. All (IsSeen k) w.clients) (omega arith) seen, recent)
drained (round ∷ rounds) w n seen recent =
    let next : Worker = serve round.0 round.1 (advance w.clients) w.clients_active in
    let (seen', recent') =
      drained rounds next (n + 1)
        (serve-IsSeen (n + 1) round.0 round.1 (advance w.clients) w.clients_active
          (advance-IsSeen n w.clients seen))
        (serve-IsRecent round.0 round.1 (advance w.clients) w.clients_active) in
    (subst (λ k. All (IsSeen k) (serve_rounds rounds next).clients) (omega arith) seen', recent')

-- A worker whose connections were looked at 200 times at most has closed all of them after 201
-- rounds in which it takes nothing from the queue, whatever the clients send and `parseSocket`
-- does.
pub serve_rounds-count_active :
    (rounds : List ((ℕ → Bool) × (Client → Bool))) (w : Worker)
    → length rounds ≡ max_recv_iter + 1
    → All IsRecent w.clients
    → count_active (serve_rounds rounds w).clients ≡ 0
serve_rounds-count_active rounds w enough recent =
    let (seen, late) = drained rounds w 0 (never-IsSeen w.clients) recent in
    count_active-none (serve_rounds rounds w).clients
      (subst (λ k. All (IsSeen k) (serve_rounds rounds w).clients) (omega (arith, enough)) seen)
      late

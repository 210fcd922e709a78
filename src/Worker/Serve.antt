-- ===== src/Worker/Serve.antt =====
-- What a round of a worker leaves.
use traccoon.Worker.{
  Client, count_active, count_queued, expand, pick_up, advance, is_over, serve, work_round,
  max_recv_iter,
}
use traccoon.Worker.PickUp.{IsAssigned, count_active-copy_connections, count_active-free}
use traccoon.Prelude.{
  ℕ, suc, ◌+◌, ◌-◌, ◌≡◌, refl, sym, inl, inr, Bool, Bool-cases, true, not, ◌||◌, List, [], ◌∷◌,
  length, All, ◌==◌, leb, arith,
}

count_active-advance : (cs : List Client) → count_active (advance cs) ≡ count_active cs
unfolding advance count_active
count_active-advance [] = refl
count_active-advance (c ∷ cs) = ground (arith, count_active-advance cs)

-- The counter goes down with each connection that is closed: it stays right.
count_active-serve :
    (readable : ℕ → Bool) (parse_socket : Client → Bool) (cs : List Client) (active others : ℕ)
    → active ≡ count_active cs + others
    → (serve readable parse_socket cs active).clients_active
      ≡ count_active (serve readable parse_socket cs active).clients + others
unfolding serve count_active
count_active-serve readable parse_socket [] active others same = same
count_active-serve readable parse_socket (c ∷ cs) active others same =
    elim (Bool-cases (c.socket == 0)) [
      | inl free ↦
          ground
            (arith, free, count_active-serve readable parse_socket cs active others (ground arith))
      | inr used ↦ elim (Bool-cases (is_over readable parse_socket c)) [
        | inl over ↦ ground (
          arith,
          used,
          over,
          count_active-serve readable parse_socket cs (active - 1) others (ground arith),
        )
        | inr stays ↦ ground (
          arith,
          used,
          stays,
          count_active-serve readable parse_socket cs active (suc others) (ground arith),
        )
      ]
    ]

-- A slot is free, or its connection was looked at 200 times at most.
abbrev pub IsRecent : Client → Type 0
IsRecent c = (c.socket == 0 || leb c.recv_iter max_recv_iter) ≡ true

pub serve-IsRecent :
    (readable : ℕ → Bool) (parse_socket : Client → Bool) (cs : List Client) (active : ℕ)
    → All IsRecent (serve readable parse_socket cs active).clients
unfolding serve is_over
serve-IsRecent readable parse_socket [] active = tt
serve-IsRecent readable parse_socket (c ∷ cs) active =
    elim (Bool-cases (c.socket == 0 || not (is_over readable parse_socket c))) [
      | inl kept ↦ rw kept (ground arith, serve-IsRecent readable parse_socket cs active)
      | inr closed ↦ rw closed (refl, serve-IsRecent readable parse_socket cs (active - 1))
    ]

-- After a round of a worker whose slots in the queue all have a connection, `clients_active` is the
-- number of its open connections, and none of these was looked at more than 200 times.
pub work_round-IsRecent :
    (tid : ℕ) (fresh : Client) (readable : ℕ → Bool) (parse_socket : Client → Bool)
    (clients counted queue : List Client)
    → All (IsAssigned tid) queue
    → ((work_round tid fresh readable parse_socket clients counted queue).0.clients_active
        ≡ count_active (work_round tid fresh readable parse_socket clients counted queue).0.clients)
      × All IsRecent (work_round tid fresh readable parse_socket clients counted queue).0.clients
unfolding work_round pick_up expand
work_round-IsRecent tid fresh readable parse_socket clients counted queue assigned =
    let free =
      count_active-free (count_queued tid counted + count_active clients - length clients)
        (record { thread = fresh.thread; socket = 0; recv_iter = fresh.recv_iter }) clients refl in
    let picked = (pick_up tid fresh clients counted queue).0 in
    let same : picked.clients_active ≡ count_active picked.clients =
      count_active-copy_connections tid 0 _ queue assigned (sym free) in
    let served =
      count_active-serve readable parse_socket (advance picked.clients) picked.clients_active 0
        (omega (arith, same, count_active-advance picked.clients)) in
    (
      omega (arith, served),
      serve-IsRecent readable parse_socket (advance picked.clients) picked.clients_active,
    )

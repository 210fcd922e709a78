-- ===== src/Worker/Watched.antt =====
-- The connections of a worker fit the set that it gives to `select`.
use traccoon.Memory.{Returns, Returns-bind}
use traccoon.Worker.Thread.{watch}
use traccoon.Worker.{
  Client, Worker, count_active, count_queued, put, taken, copy_connections, expand, pick_up,
  advance, is_over, serve,
}
use traccoon.Prelude.{
  ℕ, zero, suc, ◌+◌, ◌-◌, ◌<◌, ◌≡◌, refl, inl, inr, Bool, true, not, ◌||◌, Bool-cases, List, [],
  ◌∷◌, ◌++◌, length, replicate, All, ltb, ◌==◌, arith,
}

-- the connections fit a set of `n` descriptors
abbrev pub IsBelow : ℕ → Client → Type 0
IsBelow n c = c.socket < n

module _ (n : ℕ) (some_bit : 0 < n) where
  pub put-IsBelow :
      (c : ℕ) (client : Client) (cs : List Client)
      → client.socket < n
      → All (IsBelow n) cs
      → All (IsBelow n) (put c client cs).0
  unfolding put
  put-IsBelow zero client [] b below = (b, tt)
  put-IsBelow (suc c) client [] b below = (b, tt)
  put-IsBelow zero client (y ∷ ys) b (h, below) = elim (Bool-cases (y.socket == 0)) [
    | inl free ↦ rw free (b, below)
    | inr used ↦ rw used (h, put-IsBelow zero client ys b below)
  ]
  put-IsBelow (suc c) client (y ∷ ys) b (h, below) = (h, put-IsBelow c client ys b below)

  pub copy_connections-IsBelow :
      (tid c : ℕ) (w : Worker) (qs : List Client)
      → All (IsBelow n) w.clients
      → All (IsBelow n) qs
      → All (IsBelow n) (copy_connections tid c w qs).0.clients
  unfolding copy_connections
  copy_connections-IsBelow tid c w [] below queued = below
  copy_connections-IsBelow tid c w (q ∷ qs) below (b, queued) =
      elim (Bool-cases (q.thread == tid)) [
        | inl mine ↦ rw mine (
            let placed = put c (taken q) w.clients in
            copy_connections-IsBelow tid placed.1
              (record { clients = placed.0; clients_active = w.clients_active + 1 }) qs
              (put-IsBelow c (taken q) w.clients b below) queued)
        | inr other ↦ rw other (copy_connections-IsBelow tid c w qs below queued)
      ]

  pub free-IsBelow :
      (k : ℕ) (fresh : Client) (cs : List Client)
      → fresh.socket ≡ 0
      → All (IsBelow n) cs
      → All (IsBelow n) (cs ++ replicate k fresh)
  free-IsBelow zero fresh [] free below = tt
  free-IsBelow (suc k) fresh [] free below =
      (omega (arith, free, some_bit), free-IsBelow k fresh [] free tt)
  free-IsBelow k fresh (c ∷ cs) free (b, below) = (b, free-IsBelow k fresh cs free below)

  pub advance-IsBelow : (cs : List Client) → All (IsBelow n) cs → All (IsBelow n) (advance cs)
  unfolding advance
  advance-IsBelow [] below = tt
  advance-IsBelow (c ∷ cs) (b, below) = elim (Bool-cases (c.socket == 0)) [
    | inl free ↦ rw free (b, advance-IsBelow cs below)
    | inr used ↦ rw used (b, advance-IsBelow cs below)
  ]

  pub serve-IsBelow :
      (readable : ℕ → Bool) (parse_socket : Client → Bool) (cs : List Client) (active : ℕ)
      → All (IsBelow n) cs
      → All (IsBelow n) (serve readable parse_socket cs active).clients
  unfolding serve
  serve-IsBelow readable parse_socket [] active below = tt
  serve-IsBelow readable parse_socket (c ∷ cs) active (b, below) =
      elim (Bool-cases (c.socket == 0 || not (is_over readable parse_socket c))) [
        | inl kept ↦ rw kept (b, serve-IsBelow readable parse_socket cs active below)
        | inr closed ↦
            rw closed (some_bit, serve-IsBelow readable parse_socket cs (active - 1) below)
      ]

  pub pick_up-IsBelow :
      (tid : ℕ) (fresh : Client) (clients counted queue : List Client)
      → All (IsBelow n) clients
      → All (IsBelow n) queue
      → All (IsBelow n) (pick_up tid fresh clients counted queue).0.clients
  unfolding pick_up expand
  pick_up-IsBelow tid fresh clients counted queue below queued =
      copy_connections-IsBelow tid 0 _ queue
        (free-IsBelow (count_queued tid counted + count_active clients - length clients)
          (record { thread = fresh.thread; socket = 0; recv_iter = fresh.recv_iter }) clients refl
          below)
        queued

  pub watch-Returns : (cs : List Client) → All (IsBelow n) cs → Returns (λ m. Unit {0}) (watch n cs)
  unfolding watch
  watch-Returns [] below = (0, refl, tt)
  watch-Returns (c ∷ cs) (b, below) = elim (Bool-cases (c.socket == 0)) [
    | inl free ↦ rw free (watch-Returns cs below)
    | inr used ↦
        let inside : ltb c.socket n ≡ true = ground (arith, b) in
        rw (used, inside) (Returns-bind _ (watch-Returns cs below) (λ m u. (_, refl, tt)))
  ]

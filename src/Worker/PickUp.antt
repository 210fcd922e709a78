-- ===== src/Worker/PickUp.antt =====
-- What a worker takes from the queue: no connection is lost, and none is taken twice.
use traccoon.Worker.{
  Client, Worker, count_active, count_queued, expand, put, taken, copy_connections, pick_up,
}
use traccoon.Prelude.{
  ℕ, zero, suc, ◌+◌, ◌-◌, ◌≡◌, ◌≢◌, refl, ap, ◌∙◌, inl, inr, Bool-cases, List, [], ◌∷◌, ◌++◌,
  length, replicate, All, ◌==◌, if◌then◌else◌, arith,
}

-- how often the connection `x` stands in a buffer or in the queue
unfoldable pub holds : ℕ → List Client → ℕ
holds x [] = 0
holds x (c ∷ cs) = if c.socket == x then suc (holds x cs) else holds x cs

-- A slot that is assigned to a worker has a connection.
abbrev pub IsAssigned : ℕ → Client → Type 0
IsAssigned tid q = q.thread ≡ tid → q.socket ≢ 0

module _ (x : ℕ) (nz : x ≢ 0) where
  holds-put :
      (c : ℕ) (client : Client) (cs : List Client)
      → holds x (put c client cs).0 ≡ holds x (client ∷ []) + holds x cs
  unfolding holds put
  holds-put zero client [] = ground arith
  holds-put (suc c) client [] = ground arith
  holds-put zero client (y ∷ ys) = ground (arith, holds-put zero client ys)
  holds-put (suc c) client (y ∷ ys) = ground (arith, holds-put c client ys)

  pub holds-free :
      (n : ℕ) (fresh : Client) (cs : List Client)
      → fresh.socket ≡ 0
      → holds x (cs ++ replicate n fresh) ≡ holds x cs
  unfolding holds
  holds-free zero fresh [] free = refl
  holds-free (suc n) fresh [] free = ground (arith, holds-free n fresh [] free)
  holds-free n fresh (y ∷ ys) free = ground (arith, holds-free n fresh ys free)

  pub holds-copy_connections :
      (tid c : ℕ) (w : Worker) (qs : List Client)
      → holds x (copy_connections tid c w qs).0.clients + holds x (copy_connections tid c w qs).1
        ≡ holds x w.clients + holds x qs
  unfolding copy_connections holds
  holds-copy_connections tid c w [] = refl
  holds-copy_connections tid c w (q ∷ qs) = elim (Bool-cases (q.thread == tid)) [
    | inl mine ↦ rw mine (
        let placed = put c (taken q) w.clients in
        ground (
          arith,
          nz,
          holds-put c (taken q) w.clients,
          holds-copy_connections tid placed.1
              (record { clients = placed.0; clients_active = w.clients_active + 1 }) qs,
        ))
    | inr other ↦ rw other (ground (arith, holds-copy_connections tid c w qs))
  ]

  -- What a worker picks up leaves the queue and stands in its buffer: no connection is lost, and
  -- none is there twice, whatever the main thread added to the queue in between.
  pub holds-pick_up :
      (tid : ℕ) (fresh : Client) (clients counted queue : List Client)
      → holds x (pick_up tid fresh clients counted queue).0.clients
          + holds x (pick_up tid fresh clients counted queue).1
        ≡ holds x clients + holds x queue
  unfolding pick_up expand
  holds-pick_up tid fresh clients counted queue =
      holds-copy_connections tid 0 _ queue
      ∙ ap (λ n. n + holds x queue)
          (holds-free (count_queued tid counted + count_active clients - length clients) _ clients
            refl)

-- Behind a copy, no slot of the queue is assigned to the worker.
count_queued-copy_connections :
    (tid c : ℕ) (w : Worker) (qs : List Client)
    → tid ≢ 0
    → count_queued tid (copy_connections tid c w qs).1 ≡ 0
unfolding copy_connections count_queued
count_queued-copy_connections tid c w [] nz = refl
count_queued-copy_connections tid c w (q ∷ qs) nz = elim (Bool-cases (q.thread == tid)) [
  | inl mine ↦ rw mine (
      let placed = put c (taken q) w.clients in
      ground (
        arith,
        nz,
        count_queued-copy_connections tid placed.1
            (record { clients = placed.0; clients_active = w.clients_active + 1 }) qs nz,
      ))
  | inr other ↦ rw other (ground (arith, other, count_queued-copy_connections tid c w qs nz))
]

count_active-put :
    (c : ℕ) (client : Client) (cs : List Client)
    → client.socket ≢ 0
    → count_active (put c client cs).0 ≡ suc (count_active cs)
unfolding put count_active
count_active-put zero client [] nz = ground arith
count_active-put (suc c) client [] nz = ground arith
count_active-put zero client (y ∷ ys) nz = ground (arith, count_active-put zero client ys nz)
count_active-put (suc c) client (y ∷ ys) nz = ground (arith, count_active-put c client ys nz)

pub count_active-free :
    (n : ℕ) (fresh : Client) (cs : List Client)
    → fresh.socket ≡ 0
    → count_active (cs ++ replicate n fresh) ≡ count_active cs
unfolding count_active
count_active-free zero fresh [] free = refl
count_active-free (suc n) fresh [] free = ground (arith, count_active-free n fresh [] free)
count_active-free n fresh (y ∷ ys) free = ground (arith, count_active-free n fresh ys free)

-- `clients_active` keeps the number of the connections in the buffer.
pub count_active-copy_connections :
    (tid c : ℕ) (w : Worker) (qs : List Client)
    → All (IsAssigned tid) qs
    → w.clients_active ≡ count_active w.clients
    → (copy_connections tid c w qs).0.clients_active
      ≡ count_active (copy_connections tid c w qs).0.clients
unfolding copy_connections
count_active-copy_connections tid c w [] _ same = same
count_active-copy_connections tid c w (q ∷ qs) (assigned, more) same =
    elim (Bool-cases (q.thread == tid)) [
      | inl mine ↦ rw mine (
          let placed = put c (taken q) w.clients in
          count_active-copy_connections tid placed.1
            (record { clients = placed.0; clients_active = w.clients_active + 1 }) qs more
            (omega (arith, same, count_active-put c (taken q) w.clients (assigned (ground arith)))))
      | inr other ↦ rw other (count_active-copy_connections tid c w qs more same)
    ]

-- After the copies the queue has no slot of the worker, whose number is not 0: all are picked up.
pub count_queued-pick_up :
    (tid : ℕ) (fresh : Client) (clients counted queue : List Client)
    → tid ≢ 0
    → count_queued tid (pick_up tid fresh clients counted queue).1 ≡ 0
unfolding pick_up
count_queued-pick_up tid fresh clients counted queue nz =
    count_queued-copy_connections tid 0 _ queue nz

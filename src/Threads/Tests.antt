-- ===== src/Threads/Tests.antt =====
-- Two workers: a connection is accepted, and the first worker takes it and closes it.
use traccoon.Main.{accept_pass}
use traccoon.Threads.Owned.{Owned, Reach-Owned}
use traccoon.Threads.{Server, accepts, picks_up, serves, tid_of, start, Reach, started, later}
use traccoon.Worker.Closings.{count}
use traccoon.Worker.PickUp.{holds}
use traccoon.Worker.Thread.{over_sockets}
use traccoon.Worker.{Client, count_active, pick_up, advance, serve}
use traccoon.Prelude.{ℕ, refl, true, List, [], ◌∷◌, arith}

abbrev slot : ℕ → ℕ → Client
slot thread socket = record { thread = thread; socket = socket; recv_iter = 0 }

abbrev slots : List Client
slots = slot 0 0 ∷ slot 0 0 ∷ []

abbrev full : List Client
full = slot 1 7 ∷ slot 0 0 ∷ []

abbrev connected : Server
connected = record (start 2 slots) { queue = full; accepted = 7 ∷ [] }

abbrev taken_up : Server
taken_up = record connected {
  queue = (pick_up (tid_of []) (slot 8 8) [] full full).1;
  buffers = (pick_up (tid_of []) (slot 8 8) [] full full).0.clients ∷ [] ∷ [];
}

abbrev answered : Server
answered = record taken_up {
  buffers =
      (serve (λ s. true) (λ c. true)
        (advance (pick_up (tid_of []) (slot 8 8) [] full full).0.clients)
        (count_active (pick_up (tid_of []) (slot 8 8) [] full full).0.clients)).clients
      ∷ []
      ∷ [];
  closed =
      over_sockets (λ s. true) (λ c. true)
        (advance (pick_up (tid_of []) (slot 8 8) [] full full).0.clients);
}

answered-Reach : Reach 2 slots answered
unfolding accept_pass count
answered-Reach =
    later
      (later (later started (accepts 7 full (omega arith) refl refl))
        (picks_up [] ([] ∷ []) [] full (slot 8 8) refl))
      (serves [] ([] ∷ []) _ (λ s. true) (λ c. true) refl)

Reach-Owned_example : Owned 7 answered
unfolding holds
Reach-Owned_example = Reach-Owned 7 2 slots (omega arith) refl answered-Reach

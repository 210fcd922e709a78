-- ===== src/Worker/Tests.antt =====
-- A worker with two connections, and a queue with two more for it.
use traccoon.Worker.{
  release_waiting, LaziestWorker, Client, Worker, count_active, count_queued, pick_up, work_round,
}
use traccoon.Worker.PickUp.{holds, holds-pick_up}
use traccoon.Worker.Serve.{IsRecent, work_round-IsRecent}
use traccoon.Memory.{Returns}
use traccoon.Worker.Conserved.{Outcome, worker_thread-Outcome}
use traccoon.Worker.Thread.{Round, Finish, worker_thread}
use traccoon.Worker.Drain.{serve_rounds, serve_rounds-count_active}
use traccoon.Prelude.{ℕ, ◌+◌, ◌≡◌, refl, true, List, [], ◌∷◌, replicate, All, ◌==◌, arith}

abbrev client : ℕ → ℕ → ℕ → Client
client t s n = record { thread = t; socket = s; recv_iter = n }

abbrev clients : List Client
clients = client 2 9 200 ∷ client 2 0 4 ∷ client 2 11 3 ∷ []

abbrev queue : List Client
queue = client 0 0 0 ∷ client 2 14 0 ∷ client 1 15 0 ∷ client 2 16 0 ∷ []

taken_over :
    (pick_up 2 (client 8 8 8) clients queue queue).0.clients
    ≡ client 2 9 200 ∷ client 2 14 0 ∷ client 2 11 3 ∷ client 2 16 0 ∷ []
unfolding pick_up traccoon.Worker.copy_connections traccoon.Worker.put traccoon.Worker.expand
    count_queued count_active
taken_over = refl

holds-pick_up_example :
    holds 14 (pick_up 2 (client 8 8 8) clients queue queue).0.clients
      + holds 14 (pick_up 2 (client 8 8 8) clients queue queue).1
    ≡ holds 14 clients + holds 14 queue
holds-pick_up_example = holds-pick_up 14 (omega arith) 2 (client 8 8 8) clients queue queue

work_round-IsRecent_example :
    ((work_round 2
        (client 8 8 8)
        (λ s. true)
        (λ c. c.socket == 11)
        clients
        queue
        queue).0.clients_active
      ≡ count_active
          (work_round 2
            (client 8 8 8)
            (λ s. true)
            (λ c. c.socket == 11)
            clients
            queue
            queue).0.clients)
    × All IsRecent
        (work_round 2
          (client 8 8 8)
          (λ s. true)
          (λ c. c.socket == 11)
          clients
          queue
          queue).0.clients
work_round-IsRecent_example =
    work_round-IsRecent 2 (client 8 8 8) (λ s. true) (λ c. c.socket == 11) clients queue queue
      (λ e. absurd (omega arith), (λ e. omega arith, (λ e. omega arith, (λ e. omega arith, tt))))

clients-IsRecent : All IsRecent clients
clients-IsRecent = (refl, (refl, (refl, tt)))

serve_rounds-count_active_example :
    count_active
      (serve_rounds
        (replicate 201 ((λ s. true), (λ c. c.socket == 11)))
        (record { clients = clients; clients_active = 2 })).clients
    ≡ 0
serve_rounds-count_active_example =
    serve_rounds-count_active (replicate 201 ((λ s. true), (λ c. c.socket == 11)))
      (record { clients = clients; clients_active = 2 }) refl clients-IsRecent

-- a round that finds the queue, and the end of the server
abbrev found : Round
found = record {
  counted = queue;
  queue = queue;
  fresh = client 8 8 8;
  expands = true;
  grows = λ i. true;
  laziest = record { thread_id = 1; active_sockets = 0 };
  readable = λ s. true;
  parse_socket = λ c. c.socket == 14;
}

abbrev finish : Finish
finish = record {
  balancing = record { thread_id = 2; active_sockets = 1 };
  seen = (2, true) ∷ [];
  killserver = true;
  laziest = 1;
  queue = queue;
}

worker_thread-Outcome_example : Returns (Outcome 14) (
    worker_thread 1024 2 true
      (record { thread_id = 1; active_sockets = 0 })
      (found ∷ found ∷ [])
      finish)
worker_thread-Outcome_example =
    worker_thread-Outcome 14 1024 2 true (record { thread_id = 1; active_sockets = 0 })
      (found ∷ found ∷ []) finish 2 [] (omega arith) (omega arith) (omega arith) refl

-- ===== src/Worker.antt =====
-- thread.c: the loop of a worker. A connection is a socket, and 0 is no socket; a slot of the queue
-- with the worker's number holds a connection that the worker is to take.
pub mod PickUp
pub mod Serve
pub mod Drain
pub mod Shutdown
pub mod Thread
pub mod Closings
pub mod Watched
pub mod Conserved
mod Tests
use traccoon.Prelude.{
  ℕ, zero, suc, ◌+◌, ◌-◌, Bool, true, false, not, ◌&&◌, ◌||◌, List, [], ◌∷◌, ◌++◌, length,
  replicate, ltb, leb, ◌==◌, if◌then◌else◌,
}

-- `MAX_RECV_ITER`
abbrev pub max_recv_iter : ℕ
max_recv_iter = 200

-- `_CLIENT`
pub record Client : Type 0 where
  pub thread : ℕ
  pub socket : ℕ
  pub recv_iter : ℕ

-- `clients` with its length `clients_size`, and `clients_active`
pub record Worker : Type 0 where
  pub clients : List Client
  pub clients_active : ℕ

-- `LAZIEST_WORKER`
pub record LaziestWorker : Type 0 where
  pub thread_id : ℕ
  pub active_sockets : ℕ

unfoldable pub count_active : List Client → ℕ
count_active [] = 0
count_active (c ∷ cs) = if c.socket == 0 then count_active cs else suc (count_active cs)

unfoldable pub count_queued : ℕ → List Client → ℕ
count_queued tid [] = 0
count_queued tid (q ∷ qs) =
    if q.thread == tid then suc (count_queued tid qs) else count_queued tid qs

-- The expansion of the buffer by the number of queued connections that have no free slot, if it is
-- positive. `fresh` is what `realloc` leaves in the thread and the counter of a new slot.
unfoldable pub expand : Client → ℕ → List Client → List Client
expand fresh queued clients =
    clients
    ++ replicate (queued + count_active clients - length clients)
        (record { thread = fresh.thread; socket = 0; recv_iter = fresh.recv_iter })

-- The search for a free slot from index `c` on, and the copy to it; without one, the buffer grows
-- by a slot. The result has the index of the slot.
unfoldable pub put : ℕ → Client → List Client → List Client × ℕ
put c client [] = (client ∷ [], 0)
put zero client (x ∷ xs) =
    let rest = put zero client xs in
    if x.socket == 0 then (client ∷ xs, 0) else (x ∷ rest.0, suc rest.1)
put (suc c) client (x ∷ xs) = let rest = put c client xs in (x ∷ rest.0, suc rest.1)

-- `memcpy` of a queue slot, and `recv_iter=0`
abbrev pub taken : Client → Client
taken q = record { thread = q.thread; socket = q.socket; recv_iter = 0 }

-- a queue slot that is released
abbrev pub released : Client → Client
released q = record { thread = 0; socket = 0; recv_iter = q.recv_iter }

-- The loop over the queue, from index `c` of the buffer on: the worker, and the queue it leaves.
unfoldable pub copy_connections : ℕ → ℕ → Worker → List Client → Worker × List Client
copy_connections tid c w [] = (w, [])
copy_connections tid c w (q ∷ qs) =
    let placed = put c (taken q) w.clients in
    let rest =
      copy_connections tid placed.1
        (record { clients = placed.0; clients_active = w.clients_active + 1 }) qs in
    let skipped = copy_connections tid c w qs in
    if q.thread == tid then (rest.0, released q ∷ rest.1) else (skipped.0, q ∷ skipped.1)

-- The loop's body up to the copies. The main thread may fill slots between the two passes over the
-- queue: `counted` is the queue at the first, `queue` at the second.
unfoldable pub pick_up : ℕ → Client → List Client → List Client → List Client → Worker × List Client
pick_up tid fresh clients counted queue =
    copy_connections tid 0
      (record {
        clients = expand fresh (count_queued tid counted) clients;
        clients_active = count_active clients;
      })
      queue

-- the update of the load balancing
unfoldable pub update_laziest : ℕ → ℕ → LaziestWorker → LaziestWorker
update_laziest tid clients_active l =
    if l.thread_id == tid || ltb clients_active l.active_sockets
    then record { thread_id = tid; active_sockets = clients_active }
    else l

-- `recv_iter++` on each connection
unfoldable pub advance : List Client → List Client
advance [] = []
advance (c ∷ cs) =
    (if c.socket == 0
      then c
      else record { thread = c.thread; socket = c.socket; recv_iter = c.recv_iter + 1 })
    ∷ advance cs

-- Whether a connection is closed in this round: `parse_socket` is called if there is something to
-- read, and a connection that it does not close is closed once it was looked at too often.
unfoldable pub is_over : (ℕ → Bool) → (Client → Bool) → Client → Bool
is_over readable parse_socket c =
    (readable c.socket && parse_socket c) || ltb max_recv_iter c.recv_iter

-- The loop behind `select`, where `readable` stands for `FD_ISSET` and `parse_socket` for the
-- function of comm.c.
unfoldable pub serve : (ℕ → Bool) → (Client → Bool) → List Client → ℕ → Worker
serve readable parse_socket [] active = record { clients = []; clients_active = active }
serve readable parse_socket (c ∷ cs) active =
    let kept = serve readable parse_socket cs active in
    let closed = serve readable parse_socket cs (active - 1) in
    if c.socket == 0 || not (is_over readable parse_socket c)
    then record { clients = c ∷ kept.clients; clients_active = kept.clients_active }
    else record {
      clients = record { thread = c.thread; socket = 0; recv_iter = c.recv_iter } ∷ closed.clients;
      clients_active = closed.clients_active;
    }

-- One round of the loop: the worker, and the queue it leaves.
unfoldable pub work_round :
    ℕ
    → Client
    → (ℕ → Bool)
    → (Client → Bool)
    → List Client
    → List Client
    → List Client
    → Worker × List Client
work_round tid fresh readable parse_socket clients counted queue =
    let picked = pick_up tid fresh clients counted queue in
    (serve readable parse_socket (advance picked.0.clients) picked.0.clients_active, picked.1)

-- What a worker that shuts down does with the slots of the queue that are assigned to it: their
-- connections are closed if the server ends, and go to the laziest worker if not.
unfoldable pub release_waiting : Bool → ℕ → ℕ → List Client → List Client
release_waiting killserver tid laziest [] = []
release_waiting killserver tid laziest (q ∷ qs) =
    (if q.thread == tid
      then (if killserver
          then released q
          else record { thread = laziest; socket = q.socket; recv_iter = q.recv_iter })
      else q)
    ∷ release_waiting killserver tid laziest qs

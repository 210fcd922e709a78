-- ===== src/Worker/Thread.antt =====
-- thread.c: `workerthread`, from the start of a worker to its end. What the worker meets in a round
-- is a parameter: what the main thread has made of the queue, and what the system answers.
use traccoon.Memory.{Run, returns, fault, out_of_fuel, ◌>>=◌}
use traccoon.Worker.{
  Client, Worker, LaziestWorker, count_active, count_queued, put, taken, copy_connections, expand,
  pick_up, update_laziest, advance, is_over, serve, release_waiting,
}
use traccoon.Prelude.{
  ◌^◌, ℕ, ◌+◌, ◌-◌, Bool, true, false, not, ◌&&◌, ◌||◌, Option, none, some, List, [], ◌∷◌, ◌++◌,
  length, take, drop, ltb, ◌==◌, if◌then◌else◌,
}

pub record Round : Type 0 where
  -- the queue as it is counted, and as its connections are copied
  pub counted : List Client
  pub queue : List Client
  -- what `realloc` leaves in new slots
  pub fresh : Client
  -- whether `realloc` succeeds before the copies, and on demand for the slot with an index
  pub expands : Bool
  pub grows : ℕ → Bool
  pub laziest : LaziestWorker
  pub readable : ℕ → Bool
  pub parse_socket : Client → Bool

-- What a worker has, with the connections that it has closed, and the queue as it found and left it
-- in each round.
pub record Thread : Type 0 where
  pub clients : List Client
  pub closed : List ℕ
  pub queues : List (List Client × List Client)
  pub laziest : LaziestWorker

-- The thread goes on, or it has returned NULL.
pub data Progress : Type 0 where
  goes_on : Thread → Progress
  aborts : Thread → Progress

-- The index in the queue where the buffer must grow and cannot, from index `i` on.
unfoldable pub first_failure : (ℕ → Bool) → ℕ → ℕ → ℕ → Worker → List Client → Option ℕ
first_failure grows i tid c w [] = none
first_failure grows i tid c w (q ∷ qs) =
    let placed = put c (taken q) w.clients in
    let behind =
      first_failure grows (i + 1) tid placed.1
        (record { clients = placed.0; clients_active = w.clients_active + 1 }) qs in
    let skipped = first_failure grows (i + 1) tid c w qs in
    if q.thread == tid
    then (if length placed.0 == length w.clients || grows i then behind else some i)
    else skipped

-- what was seen of the queue and left of it
abbrev pub note : List Client → List Client → Thread → Thread
note seen left t = record t { queues = (seen, left) ∷ t.queues }

-- The sockets that are watched are put in a set of `fd_setsize` bits: the greatest of them.
unfoldable pub watch : ℕ → List Client → Run ℕ
watch fd_setsize [] = returns 0
watch fd_setsize (c ∷ cs) =
    let rest = watch fd_setsize cs in
    if c.socket == 0
    then rest
    else if ltb c.socket fd_setsize
    then (rest >>= λ fdmax. returns (if ltb fdmax c.socket then c.socket else fdmax))
    else fault

-- the sockets that the loop behind `select` closes
unfoldable pub over_sockets : (ℕ → Bool) → (Client → Bool) → List Client → List ℕ
over_sockets readable parse_socket [] = []
over_sockets readable parse_socket (c ∷ cs) =
    let rest = over_sockets readable parse_socket cs in
    if c.socket == 0 || not (is_over readable parse_socket c) then rest else c.socket ∷ rest

-- Without a connection, the worker sleeps.
abbrev pub attend : Round → List Client → ℕ → Thread → Bool → Thread
attend r clients active t false = record t { clients = clients }
attend r clients active t true = record t {
  clients = (serve r.readable r.parse_socket clients active).clients;
  closed = t.closed ++ over_sockets r.readable r.parse_socket clients;
}

-- The round behind the copies.
unfoldable pub look_after : ℕ → ℕ → Round → Worker → Thread → Run Progress
look_after fd_setsize tid r w t = do
  fdmax ← watch fd_setsize w.clients
  returns (
      goes_on (
        attend r (advance w.clients) w.clients_active
          (record t { laziest = update_laziest tid w.clients_active r.laziest }) (ltb 0 fdmax)))

-- the buffer before the copies, and the copies up to an index of the queue
abbrev pub buffer : ℕ → Round → Thread → Worker
buffer tid r t = record {
  clients = expand r.fresh (count_queued tid r.counted) t.clients;
  clients_active = count_active t.clients;
}

abbrev pub copied : ℕ → Round → Thread → ℕ → Worker × List Client
copied tid r t i =
    let part = copy_connections tid 0 (buffer tid r t) (take i r.queue) in
    (part.0, part.1 ++ drop i r.queue)

-- A round. Where `realloc` fails, the worker returns with its connections open.
unfoldable pub thread_round : ℕ → ℕ → Round → Thread → Run Progress
thread_round fd_setsize tid r t =
    if ltb (length t.clients) (count_queued tid r.counted + count_active t.clients) && not r.expands
    then returns (aborts (note r.queue r.queue t))
    else elim (first_failure r.grows 0 tid 0 (buffer tid r t) r.queue) [
      | some i ↦ returns (
          aborts (
            note r.queue (copied tid r t i).1
              (record t { clients = (copied tid r t i).0.clients })))
      | none ↦
          let picked = pick_up tid r.fresh t.clients r.counted r.queue in
          look_after fd_setsize tid r picked.0 (note r.queue picked.1 t)
    ]

-- the rounds until the worker is told to end
unfoldable pub thread_rounds : ℕ → ℕ → List Round → Thread → Run Progress
thread_rounds fd_setsize tid [] t = returns (goes_on t)
thread_rounds fd_setsize tid (r ∷ rs) t = thread_round fd_setsize tid r t >>= λ p. elim p [
  | goes_on u ↦ thread_rounds fd_setsize tid rs u
  | aborts u ↦ returns (aborts u)
]

-- `INT_MAX`
abbrev pub int_max : ℕ
int_max = 2 ^ 31 - 1

-- What the worker sees while it leaves the load balancing: the number of the laziest one, and
-- whether the server ends.
unfoldable pub wait_for_other : ℕ → List (ℕ × Bool) → Run (Unit {0})
wait_for_other tid [] = out_of_fuel
wait_for_other tid ((laziest, killserver) ∷ seen) =
    let rest = wait_for_other tid seen in
    if laziest == tid && not killserver then rest else returns tt

unfoldable pub leave_balancing : ℕ → List (ℕ × Bool) → LaziestWorker → Run LaziestWorker
leave_balancing tid seen l =
    let waited = wait_for_other tid seen in
    if l.thread_id == tid
    then (waited >>= λ u. returns (record l { active_sockets = int_max }))
    else returns l

-- the open connections of a buffer, and the waiting ones that the worker closes
unfoldable pub open_sockets : List Client → List ℕ
open_sockets [] = []
open_sockets (c ∷ cs) = if c.socket == 0 then open_sockets cs else c.socket ∷ open_sockets cs

unfoldable pub released_sockets : Bool → ℕ → List Client → List ℕ
released_sockets killserver tid [] = []
released_sockets killserver tid (q ∷ qs) =
    let rest = released_sockets killserver tid qs in
    if q.thread == tid && killserver then q.socket ∷ rest else rest

-- What the worker meets at its end.
pub record Finish : Type 0 where
  pub balancing : LaziestWorker
  pub seen : List (ℕ × Bool)
  pub killserver : Bool
  pub laziest : ℕ
  pub queue : List Client

unfoldable pub clean_up : ℕ → Finish → Thread → Run Progress
clean_up tid f t = do
  laziest ← leave_balancing tid f.seen f.balancing
  returns (
      goes_on (record {
        clients = [];
        closed = t.closed ++ open_sockets t.clients ++ released_sockets f.killserver tid f.queue;
        queues = (f.queue, release_waiting f.killserver tid f.laziest f.queue) ∷ t.queues;
        laziest = laziest;
      }))

-- before the first round
abbrev pub no_clients : LaziestWorker → Thread
no_clients laziest = record { clients = []; closed = []; queues = []; laziest = laziest }

-- The thread, whose database opens or not.
unfoldable pub worker_thread : ℕ → ℕ → Bool → LaziestWorker → List Round → Finish → Run Progress
worker_thread fd_setsize tid opens laziest rs f =
    if opens
    then (thread_rounds fd_setsize tid rs (no_clients laziest) >>= λ p. elim p [
      | goes_on t ↦ clean_up tid f t
      | aborts t ↦ returns (aborts t)
    ])
    else returns (aborts (no_clients laziest))

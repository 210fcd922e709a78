-- ===== src/Main/Server.antt =====
-- traccoon.c: `main` around the accept loop. Fuel bounds the loop, and the rounds of the search for
-- a socket.
use traccoon.Db.Create.{db_error}
use traccoon.Main.Options.{Settings, starts, exits, read_arguments}
use traccoon.Main.Serving.{exhausted, crash, set_shared, kill_server, look, serve_clients}
use traccoon.Main.System.{
  malloc_threads, malloc_queue, open_database, busy_timeout, count_torrents, pthread_create,
  getaddrinfo, socket, set_reuse, bind, listen, close_server, freeaddrinfo, shut_down, pthread_join,
  close, close_database, free_threads, free_queue, System, ThreadParam, World, Action, ask,
  current_time, descriptor, mem_error, threadcreation_error, socket_error, general_failure,
}
use traccoon.Memory.State.{◌>>=◌, give}
use traccoon.Memory.{Run, returns, fault, out_of_fuel}
use traccoon.Worker.{Client}
use traccoon.Prelude.{
  if◌then◌else◌, pos_part, ℕ, zero, suc, true, false, Option, none, some, List, [], ◌∷◌, ◌++◌,
  Bytes, replicate, ◌==◌, ℤ, pos, minus_one, ==ℤ,
}

unfoldable pub add_thread : ThreadParam → Action Unit
add_thread t w = returns (tt, record w { threads = w.threads ++ t ∷ [] })

-- what the thread with the number `tid` gets
abbrev pub param : Settings → ℕ → ThreadParam
param s tid = record {
  tid = tid;
  database_file = s.database_file;
  queue_size = s.queue_size;
  shutdown = false;
  announce_interval = s.announce_interval;
}

-- The threads from the number `tid` on, and THREADCREATION_ERROR if one is not created.
unfoldable pub spawn_workers : System → Settings → ℕ → ℕ → Action ℤ
spawn_workers sys s zero tid = give (pos 0)
spawn_workers sys s (suc n) tid = do
  added ← add_thread (param s tid)
  e ← ask sys (pthread_create tid)
  elim (==ℤ e (pos 0)) [
    | true ↦ spawn_workers sys s n (suc tid)
    | false ↦ give threadcreation_error
  ]

-- The search for a socket: it looks at the first address only, and ends if this is the last one.
unfoldable pub find_socket : System → ℕ → Action (Option ℕ)
find_socket sys zero = exhausted
find_socket sys (suc n) = do
  e ← ask sys socket
  elim (descriptor e) [
    | some s ↦ give (some s)
    | none ↦ elim sys.more_addresses [ true ↦ find_socket sys n | false ↦ give none ]
  ]

-- From `setsockopt` to the end of the loop.
unfoldable pub listen_and_serve : System → Settings → ℕ → ℤ → Action ℤ
listen_and_serve sys s fuel start = do
  e ← ask sys set_reuse
  elim (==ℤ e minus_one) [
    | true ↦ give socket_error
    | false ↦ do
      b ← ask sys bind
      elim (==ℤ b minus_one) [
        | true ↦ give socket_error
        | false ↦ do
          l ← ask sys listen
          elim (==ℤ l minus_one) [
            | true ↦ give socket_error
            | false ↦ serve_clients sys s fuel fuel l (pos 0) start
          ]
      ]
  ]

unfoldable pub with_socket : System → Settings → ℕ → ℤ → Action ℤ
with_socket sys s fuel start = do
  found ← find_socket sys fuel
  elim found [
    | none ↦ give socket_error
    | some servsock ↦ do
      error ← listen_and_serve sys s fuel start
      closed ← ask sys close_server
      give error
  ]

-- what `servinfo` holds: it is declared without a value
pub data Servinfo : Type 0 where
  unset addresses : Servinfo

-- `getaddrinfo` sets it if it returns 0.
abbrev pub servinfo_behind : ℤ → Servinfo
servinfo_behind e = if ==ℤ e (pos 0) then addresses else unset

-- `freeaddrinfo(servinfo)`, which reads a pointer that may hold anything where it was not set
unfoldable pub free_servinfo : System → Servinfo → Action ℤ
free_servinfo sys unset = crash
free_servinfo sys addresses = ask sys freeaddrinfo

-- From `getaddrinfo` on.
unfoldable pub with_addresses : System → Settings → ℕ → ℤ → Action ℤ
with_addresses sys s fuel start = do
  e ← ask sys getaddrinfo
  error ← elim (==ℤ e (pos 0)) [ true ↦ with_socket sys s fuel start | false ↦ give socket_error ]
  freed ← free_servinfo sys (servinfo_behind e)
  give error

-- From the creation of the workers on.
unfoldable pub with_workers : System → Settings → ℕ → ℤ → Action ℤ
with_workers sys s fuel start = do
  error ← spawn_workers sys s (pos_part s.workers) 1
  shared ← look sys
  reset ← set_shared (record shared { laziest = record { thread_id = 1; active_sockets = 0 } })
  elim (==ℤ error (pos 0)) [ true ↦ with_addresses sys s fuel start | false ↦ give error ]

-- From `sqlite3_open_v2` on: `error` at the end of the server.
unfoldable pub with_database : System → Settings → ℕ → ℤ → Action ℤ
with_database sys s fuel start = do
  e ← ask sys open_database
  elim (==ℤ e (pos 0)) [
    | false ↦ give db_error
    | true ↦ do
      timeout ← ask sys busy_timeout
      q ← ask sys count_torrents
      elim (==ℤ q (pos 0)) [ true ↦ with_workers sys s fuel start | false ↦ give q ]
  ]

-- Each thread that is waited for was told to end. An element of `threads` that was not set up
-- names no thread.
unfoldable pub join_workers : System → ℕ → List ThreadParam → Action Unit
join_workers sys zero ts = give tt
join_workers sys (suc n) [] = crash
join_workers sys (suc n) (t ∷ ts) = do
  told ← ask sys (shut_down t.tid)
  joined ← ask sys (pthread_join t.tid)
  join_workers sys n ts

unfoldable pub all_threads : Action (List ThreadParam)
all_threads w = returns (w.threads, w)

unfoldable pub stop_workers : System → Settings → ℤ → Action Unit
stop_workers sys s error = elim (==ℤ error threadcreation_error) [
  | true ↦ give tt
  | false ↦ do threads ← all_threads; join_workers sys (pos_part s.workers) threads
]

-- The connections that stand in the queue at the end.
unfoldable pub close_strays : System → List Client → Action Unit
close_strays sys [] = give tt
close_strays sys (q ∷ qs) = elim (q.socket == 0) [
  | true ↦ close_strays sys qs
  | false ↦ do closed ← ask sys (close q.socket); close_strays sys qs
]

-- From the end of the server on.
unfoldable pub clean_up : System → Settings → ℤ → Action ℤ
clean_up sys s error = do
  killed ← kill_server
  stopped ← stop_workers sys s error
  shared ← look sys
  strays ← close_strays sys shared.queue
  closed ← ask sys close_database
  threads ← ask sys free_threads
  queue ← ask sys free_queue
  give error

-- a slot of the queue behind `memset`
abbrev pub empty_slot : Client
empty_slot = record { thread = 0; socket = 0; recv_iter = 0 }

-- The program behind the options: its status.
unfoldable pub run_server : System → Settings → ℕ → Action ℤ
run_server sys s fuel = do
  t ← ask sys (malloc_threads s.workers)
  elim (==ℤ t (pos 0)) [
    | true ↦ give mem_error
    | false ↦ do
      q ← ask sys (malloc_queue s.queue_size)
      elim (==ℤ q (pos 0)) [
        | true ↦ do freed ← ask sys free_threads; give mem_error
        | false ↦ do
          cleared ← set_shared (record {
            queue = replicate (pos_part s.queue_size) empty_slot;
            laziest = record { thread_id = 0; active_sockets = 0 };
          })
          time ← current_time sys
          elim time [
            | none ↦ do
              threads ← ask sys free_threads
              queue ← ask sys free_queue
              give general_failure
            | some start ↦ do error ← with_database sys s fuel start; clean_up sys s error
          ]
      ]
  ]

-- before the first call
abbrev pub initial : World
initial = record {
  calls = [];
  shared = record { queue = []; laziest = record { thread_id = 0; active_sockets = 0 } };
  killserver = false;
  threads = [];
  statements = [];
}

-- `main` on the arguments behind the name of the program: its status, and what it leaves.
unfoldable pub main : System → ℕ → List Bytes → Run (ℤ × World)
main sys fuel args = elim (read_arguments sys.setup args) [
  | returns (exits n) ↦ returns (n, initial)
  | returns (starts s) ↦ run_server sys s fuel initial
  | fault ↦ fault
  | out_of_fuel ↦ out_of_fuel
]

-- ===== src/Main/System.antt =====
-- traccoon.c: what the main thread asks of the system, and what it keeps. The answers of the system
-- are a parameter: any function of the calls before, of which the newest stands first; so is what
-- the workers have done to the memory they share when the main thread looks at it.
use traccoon.Db.Calls.{Library}
use traccoon.Db.Calls.{Call as DbCall}
use traccoon.Db.Create.{SetupCall}
use traccoon.Memory.{returns}
use traccoon.Memory.State.{Stateful}
use traccoon.Worker.{Client, LaziestWorker}
use traccoon.Prelude.{
  pos_part, ℕ, Bool, Option, none, some, List, ◌∷◌, Bytes, if◌then◌else◌, ℤ, pos, minus_one, ==ℤ,
}

-- Calls of the C library, of POSIX and of SQLite. `shut_down` is the store to the flag of a worker,
-- `close_server` the `close` of the socket that listens; a worker is named by its number.
pub data Call : Type 0 where
  malloc_threads malloc_queue : ℤ → Call
  gettimeofday open_database busy_timeout count_torrents : Call
  pthread_create : ℕ → Call
  getaddrinfo socket set_reuse bind listen accept usleep close_server freeaddrinfo : Call
  shut_down pthread_join close : ℕ → Call
  close_database free_threads free_queue : Call

-- `aqueue` and `LAZIEST_WORKER`
pub record Shared : Type 0 where
  pub queue : List Client
  pub laziest : LaziestWorker

pub record System : Type 0 where
  -- what a call returns; 0 is NULL
  pub answer : List Call → Call → ℤ
  -- `tv_sec` of a time that `gettimeofday` got
  pub clock : List Call → ℤ
  -- whether `getaddrinfo` gave more than one address
  pub more_addresses : Bool
  -- whether `sigint_handler` has set `killserver`
  pub interrupted : List Call → Bool
  -- what the workers have made of the shared memory
  pub workers_did : List Call → Shared → Shared
  -- SQLite under `prunePeers` and under `createEmptyDatabase`
  pub library : Library
  pub setup : List SetupCall → SetupCall → ℤ

-- `_WORKER`; its thread and the shared queue are left out
pub record ThreadParam : Type 0 where
  pub tid : ℕ
  pub database_file : Bytes
  pub queue_size : ℤ
  pub shutdown : Bool
  pub announce_interval : ℤ

pub record World : Type 0 where
  pub calls : List Call
  pub shared : Shared
  -- `GLOBALSTATE.killserver` as the main thread sets it
  pub killserver : Bool
  -- the elements of `threads` that were set up
  pub threads : List ThreadParam
  -- the calls of `prunePeers`
  pub statements : List DbCall

abbrev pub Action : Type 0 → Type 0
Action A = Stateful World A

unfoldable pub ask : System → Call → Action ℤ
ask sys c w = returns (sys.answer w.calls c, record w { calls = c ∷ w.calls })

-- `gettimeofday(&time,NULL)`: the seconds, or `none` if it failed
unfoldable pub current_time : System → Action (Option ℤ)
current_time sys w = returns (
  (if ==ℤ (sys.answer w.calls gettimeofday) (pos 0) then some (sys.clock w.calls) else none),
  record w { calls = gettimeofday ∷ w.calls },
)

-- a file descriptor, or `none` for -1
abbrev pub descriptor : ℤ → Option ℕ
descriptor e = if ==ℤ e minus_one then none else some (pos_part e)

-- the codes of traccoon.h
abbrev pub mem_error : ℤ
mem_error = pos 9002

abbrev pub threadcreation_error : ℤ
threadcreation_error = pos 9003

abbrev pub socket_error : ℤ
socket_error = pos 9004

abbrev pub general_failure : ℤ
general_failure = pos 9005

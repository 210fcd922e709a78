-- ===== src/Main/Serving.antt =====
-- traccoon.c: the accept loop of `main`. Fuel bounds its rounds and the passes over a full queue.
use traccoon.Db.Calls.{Session, Call as DbCall}
use traccoon.Db.{prune_peers}
use traccoon.Main.Options.{Settings}
use traccoon.Main.System.{
  accept, usleep, Shared, System, World, Action, ask, current_time, descriptor, general_failure,
}
use traccoon.Main.{accept_pass}
use traccoon.Memory.State.{◌>>=◌, give}
use traccoon.Memory.{Run, returns, fault, out_of_fuel}
use traccoon.Prelude.{
  pos_part, ℕ, zero, suc, Bool, true, false, ◌||◌, Option, none, some, List, leb, ℤ, ltb_ℤ, to_int,
  ◌+ℤ◌, ◌-ℤ◌,
}

-- undefined behaviour, and a loop that goes on
abbrev pub crash : {A : Type 0} → Action A
crash w = fault

abbrev pub exhausted : {A : Type 0} → Action A
exhausted w = out_of_fuel

-- Stores to what the main thread keeps.
unfoldable pub set_shared : Shared → Action Unit
set_shared shared w = returns (tt, record w { shared = shared })

unfoldable pub kill_server : Action Unit
kill_server w = returns (tt, record w { killserver = true })

-- the shared memory as the workers have left it
unfoldable pub look : System → Action Shared
look sys w = returns (sys.workers_did w.calls w.shared, w)

-- Whether the loop of the server ends.
unfoldable pub is_killed : System → Action Bool
is_killed sys w = returns (w.killserver || sys.interrupted w.calls, w)

-- what `accept` returns next
unfoldable pub next_accept : System → Action ℤ
next_accept sys w = returns (sys.answer w.calls accept, w)

-- A connection is accepted once the workers have left a slot free; the main thread stalls before.
-- While `accept` waits, workers change slots only that hold a connection.
unfoldable pub accept_client : System → ℕ → Action Unit
accept_client sys zero = exhausted
accept_client sys (suc n) = do
  seen ← look sys
  e ← next_accept sys
  elim (accept_pass (descriptor e) seen.laziest.thread_id seen.queue) [
    | none ↦ do kept ← set_shared seen; slept ← ask sys usleep; accept_client sys n
    | some queue ↦ do accepted ← ask sys accept; set_shared (record seen { queue = queue })
  ]

-- A queue without a slot is read at index 0.
unfoldable pub accept_next : System → Settings → ℕ → Action Unit
accept_next sys s stalls = elim (leb 1 (pos_part s.queue_size)) [
  | true ↦ accept_client sys stalls
  | false ↦ crash
]

-- `error` and `killserver` behind a call of `gettimeofday` in the loop
unfoldable pub note_failure : Option ℤ → ℤ → Action ℤ
note_failure (some now) error = give error
note_failure none error = do killed ← kill_server; give general_failure

abbrev pub latest : Option ℤ → ℤ → ℤ
latest none now = now
latest (some t) now = t

-- a call of db.c on the connection of the main thread
abbrev pub after_statements : {A : Type 0} → World → Run (A × List DbCall) → Run (A × World)
after_statements w (returns r) = returns (r.0, record w { statements = r.1 })
after_statements w fault = fault
after_statements w out_of_fuel = out_of_fuel

unfoldable pub on_database : {A : Type 0} → Session A → Action A
on_database s w = after_statements w (s w.statements)

-- three announce intervals
abbrev pub expiry : ℤ → ℤ
expiry interval = to_int (interval +ℤ interval +ℤ interval)

-- The pruning, if the last one is long enough ago: the time of the last one.
unfoldable pub prune : System → ℤ → ℤ → ℤ → Action ℤ
prune sys interval now last = elim (ltb_ℤ (now -ℤ last) (expiry interval)) [
  | true ↦ give last
  | false ↦ do pruned ← on_database (prune_peers sys.library (expiry interval)); give now
]

-- The loop of the server.
unfoldable pub serve_clients : System → Settings → ℕ → ℕ → ℤ → ℤ → ℤ → Action ℤ
serve_clients sys s stalls zero error now last = exhausted
serve_clients sys s stalls (suc n) error now last = do
  killed ← is_killed sys
  elim killed [
    | true ↦ give error
    | false ↦ do
      accepted ← accept_next sys s stalls
      time ← current_time sys
      error' ← note_failure time error
      last' ← prune sys s.announce_interval (latest time now) last
      serve_clients sys s stalls n error' (latest time now) last'
  ]

-- ===== src/Main/Ledger.antt =====
-- What the calls of the main thread have acquired and not released.
use traccoon.Db.Open.{Holds, Achieves}
use traccoon.Main.System.{
  Call, malloc_threads, malloc_queue, gettimeofday, open_database, pthread_create, getaddrinfo,
  socket, close_server, freeaddrinfo, shut_down, pthread_join, close_database, free_threads,
  free_queue, System, ThreadParam, World, ask, current_time,
}
use traccoon.Prelude.{
  ℕ, suc, ◌≤◌, ◌≡◌, refl, ap, Bool, true, false, not, ◌&&◌, Option, none, some, List, [], ◌∷◌, ◌++◌,
  length, ◌==◌, if◌then◌else◌, ℤ, pos, minus_one, ==ℤ, arith,
}

-- The objects that are held: the array of threads, the queue, the database, the list of addresses,
-- the socket that listens, and the workers that run, of which `told` was told to end last.
pub record Holding : Type 0 where
  pub threads : Bool
  pub queue : Bool
  pub database : Bool
  pub addresses : Bool
  pub listener : Bool
  pub running : List ℕ
  pub told : ℕ

-- Something is acquired if the call succeeds, and must not be held already.
abbrev pub acquire : Bool → Bool → Holding → Holding → Option Holding
acquire success held l l' = if success then (if held then none else some l') else some l

-- Something is released that must be held.
abbrev pub release : Bool → Holding → Option Holding
release held l = if held then some l else none

-- The first worker that runs is waited for, after it was told to end.
abbrev pub joined : ℕ → Holding → List ℕ → Option Holding
joined tid l [] = none
joined tid l (t ∷ ts) = if t == tid && l.told == tid then some (record l { running = ts }) else none

abbrev pub is_empty : List ℕ → Bool
is_empty [] = true
is_empty (t ∷ ts) = false

-- What is held behind a call that returned `e`; `none` for a misuse. The workers use the queue and
-- the array of threads.
abbrev pub enter : Call → ℤ → Holding → Option Holding
enter (malloc_threads n) e l =
    acquire (not (==ℤ e (pos 0))) l.threads l (record l { threads = true })
enter (malloc_queue n) e l = acquire (not (==ℤ e (pos 0))) l.queue l (record l { queue = true })
enter open_database e l = acquire true l.database l (record l { database = true })
enter (pthread_create tid) e l =
    acquire (==ℤ e (pos 0)) (not (l.threads && l.queue)) l
      (record l { running = l.running ++ tid ∷ [] })
enter getaddrinfo e l = acquire (==ℤ e (pos 0)) l.addresses l (record l { addresses = true })
enter socket e l = acquire (not (==ℤ e minus_one)) l.listener l (record l { listener = true })
enter close_server e l = release l.listener (record l { listener = false })
enter freeaddrinfo e l = release l.addresses (record l { addresses = false })
enter (shut_down tid) e l = some (record l { told = tid })
enter (pthread_join tid) e l = joined tid l l.running
enter close_database e l = release l.database (record l { database = false })
enter free_threads e l = release (l.threads && is_empty l.running) (record l { threads = false })
enter free_queue e l = release (l.queue && is_empty l.running) (record l { queue = false })
enter _ e l = some l

-- before the first call
abbrev pub nothing : Holding
nothing = record {
  threads = false;
  queue = false;
  database = false;
  addresses = false;
  listener = false;
  running = [];
  told = 0;
}

abbrev pub go_on_with : Call → ℤ → Option Holding → Option Holding
go_on_with c e none = none
go_on_with c e (some l) = enter c e l

-- What is held behind a history of calls; `none` if something was misused.
unfoldable pub ledger : System → List Call → Option Holding
ledger sys [] = some nothing
ledger sys (c ∷ h) = go_on_with c (sys.answer h c) (ledger sys h)

-- A state of the main thread: what it holds, its threads, and at least `k` calls made. The
-- statements of the database are finalised.
pub record At (sys : System) (o : Option Holding) (ts : List ThreadParam) (k : ℕ) (w : World)
    : Type 0 where
  pub held : ledger sys w.calls ≡ o
  pub threads : w.threads ≡ ts
  pub made : k ≤ length w.calls
  pub statements : Holds sys.library [] 0 w.statements

-- a value that a call has returned at some time
abbrev pub Answered : System → Call → ℤ → Type 0
Answered sys c e = (h : List Call) × (e ≡ sys.answer h c)

pub Achieves-ask :
    (sys : System) (l : Holding) (ts : List ThreadParam) (k : ℕ) (c : Call)
    → Achieves
        (At sys (some l) ts k)
        (ask sys c)
        (λ e w. At sys (enter c e l) ts (suc k) w × Answered sys c e)
unfolding ask ledger
Achieves-ask sys l ts k c = record {
  outcome = λ w p. (
    sys.answer w.calls c,
    record w { calls = c ∷ w.calls },
    refl,
    (
      record {
        held = ap (go_on_with c (sys.answer w.calls c)) p.held;
        threads = p.threads;
        made = omega (arith, p.made);
        statements = p.statements;
      },
      (w.calls, refl),
    ),
  );
}

-- a time that was got at some time
abbrev pub Timed : System → Option ℤ → Type 0
Timed sys t =
    (h : List Call) × (t
      ≡ (if ==ℤ (sys.answer h gettimeofday) (pos 0) then some (sys.clock h) else none))

pub Achieves-time :
    (sys : System) (l : Holding) (ts : List ThreadParam) (k : ℕ)
    → Achieves
        (At sys (some l) ts k)
        (current_time sys)
        (λ t w. At sys (some l) ts (suc k) w × Timed sys t)
unfolding current_time ledger
Achieves-time sys l ts k = record {
  outcome = λ w p. (
    _,
    record w { calls = gettimeofday ∷ w.calls },
    refl,
    (
      record {
        held = ap (go_on_with gettimeofday (sys.answer w.calls gettimeofday)) p.held;
        threads = p.threads;
        made = omega (arith, p.made);
        statements = p.statements;
      },
      (w.calls, refl),
    ),
  );
}

-- ===== src/Main/Tests.antt =====
-- The accept loop at a queue with a free slot, the options, and a system that ends the server after
-- some calls.
use traccoon.Main.Exit.{Settled, main-Settled}
use traccoon.Main.Last.{Configured, parse_options-Configured}
use traccoon.Main.Options.{Settings, defaults, starts, read_arguments, pairs, parse_options, option}
use traccoon.Main.Rounds.{Works}
use traccoon.Main.Server.{main, empty_slot}
use traccoon.Memory.{returns}
use traccoon.Main.System.{Call, malloc_threads, malloc_queue, open_database, socket, accept, System}
use traccoon.Main.{accept_pass}
use traccoon.Main.Accept.{AcceptOutcome, accept_pass-AcceptOutcome}
use traccoon.Worker.{Client}
use traccoon.Prelude.{
  ◌≡◌, refl, inl, false, some, List, [], ◌∷◌, Bytes, codes, length, replicate, leb, ℤ, pos, arith,
}
use traccoon.Db.Sample.{small, small-StepsNotOk}

abbrev queue : List Client
queue =
    record { thread = 1; socket = 7; recv_iter = 0 }
    ∷ record { thread = 0; socket = 0; recv_iter = 0 }
    ∷ record { thread = 2; socket = 8; recv_iter = 0 }
    ∷ []

accept_pass-AcceptOutcome_example : AcceptOutcome 9 2 queue (accept_pass (some 9) 2 queue)
accept_pass-AcceptOutcome_example =
    accept_pass-AcceptOutcome 9 2 2 queue (omega arith)
      (λ e. omega arith, (λ e. absurd (omega arith), (λ e. omega arith, tt)))

abbrev answer : List Call → Call → ℤ
answer h (malloc_threads n) = pos 1
answer h (malloc_queue n) = pos 1
answer h socket = pos 3
answer h accept = pos 9
answer h _ = pos 0

-- The workers leave an empty queue.
abbrev system : System
system = record {
  answer = answer;
  clock = λ h. pos 1700000000;
  more_addresses = false;
  interrupted = λ h. leb 30 (length h);
  workers_did = λ h x. record x { queue = replicate 20 empty_slot };
  library = small;
  setup = λ h c. pos 0;
}

abbrev arguments : List Bytes
arguments = codes "-p" ∷ codes "7000" ∷ []

abbrev settings : Settings
settings = record defaults { port = codes "7000" }

arguments_read : read_arguments system.setup arguments ≡ returns (starts settings)
unfolding read_arguments pairs parse_options option
arguments_read = refl

system-Works : Works system 30
unfolding accept_pass
system-Works = record {
  opens = λ h. refl;
  counts = λ h. refl;
  creates = λ h tid. refl;
  resolves = λ h. refl;
  one_address = refl;
  steps = small-StepsNotOk;
  ends = λ h le. ground (arith, le);
  listens = λ h. inl refl;
  frees = λ h x c le. λ full. cc;
}

main-Settled_example : Settled system (main system 40 arguments)
main-Settled_example =
    main-Settled system 30 40 arguments settings system-Works arguments_read (omega arith)
      (omega arith)

-- A database that does not open.
abbrev closed_answer : List Call → Call → ℤ
closed_answer h open_database = pos 14
closed_answer h c = answer h c

abbrev closed : System
closed = record system { answer = closed_answer }

parse_options-Configured_example :
    (t : Settings) × (parse_options
        (λ h c. pos 0)
        ((codes "-p", codes "1") ∷ (codes "x", codes "y") ∷ (codes "-p", codes "7000") ∷ [])
        defaults
      ≡ returns (starts t))
    × Configured
        ((codes "-p", codes "1") ∷ (codes "x", codes "y") ∷ (codes "-p", codes "7000") ∷ [])
        defaults
        t
parse_options-Configured_example =
    parse_options-Configured (λ h c. pos 0)
      ((codes "-p", codes "1") ∷ (codes "x", codes "y") ∷ (codes "-p", codes "7000") ∷ []) defaults
      (refl, (refl, (refl, tt)))

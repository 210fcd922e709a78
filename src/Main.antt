-- ===== src/Main.antt =====
-- traccoon.c: the accept loop of the main thread. Sockets and the numbers of workers are as in
-- Worker; `accept` returns a parameter, `none` for -1.
pub mod Accept
pub mod Options
pub mod Sets
pub mod Last
pub mod System
pub mod Serving
pub mod Server
pub mod Ledger
pub mod Stores
pub mod Rounds
pub mod Settled
pub mod Exit
mod Tests
use traccoon.Worker.{Client}
use traccoon.Prelude.{
  ℕ, Option, none, some, List, [], ◌∷◌, ◌*◌, ◌==◌, leb, if◌then◌else◌, Bool, ℤ, ◌-ℤ◌, pos, ltb_ℤ,
  not,
}

-- The free slot after `accept`, which gives the connection to the laziest worker.
abbrev pub accepted : Option ℕ → ℕ → Client → Client
accepted none laziest q = record { thread = 0; socket = 0; recv_iter = q.recv_iter }
accepted (some s) laziest q = record { thread = laziest; socket = s; recv_iter = q.recv_iter }

-- One pass over the queue: `none` if no slot is free, where the loop stalls and starts again.
unfoldable pub accept_pass : Option ℕ → ℕ → List Client → Option (List Client)
accept_pass connection laziest [] = none
accept_pass connection laziest (q ∷ qs) =
    let rest = accept_pass connection laziest qs in
    if q.socket == 0
    then some (accepted connection laziest q ∷ qs)
    else elim rest [ none ↦ none | some qs' ↦ some (q ∷ qs') ]

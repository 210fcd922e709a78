-- ===== src/Main/Stores.antt =====
-- Stores to what the main thread keeps, and looks at it, leave what it holds.
use traccoon.Main.Ledger.{At, Holding}
use traccoon.Main.Serving.{look, set_shared, kill_server}
use traccoon.Main.Server.{add_thread, all_threads}
use traccoon.Memory.State.{Achieves}
use traccoon.Main.System.{Shared, System, ThreadParam}
use traccoon.Prelude.{ℕ, ◌≡◌, refl, ap, true, Option, List, [], ◌∷◌, ◌++◌}

module _ (sys : System) where
  pub set_shared-At :
      (o : Option Holding) (ts : List ThreadParam) (k : ℕ) (shared : Shared)
      → Achieves (At sys o ts k) (set_shared shared) (λ u. At sys o ts k)
  unfolding set_shared
  set_shared-At o ts k shared = record {
    outcome = λ w p. (
      tt,
      record w { shared = shared },
      refl,
      record { held = p.held; threads = p.threads; made = p.made; statements = p.statements },
    );
  }

  pub kill_server-At :
      (o : Option Holding) (ts : List ThreadParam) (k : ℕ)
      → Achieves (At sys o ts k) kill_server (λ u. At sys o ts k)
  unfolding kill_server
  kill_server-At o ts k = record {
    outcome = λ w p. (
      tt,
      record w { killserver = true },
      refl,
      record { held = p.held; threads = p.threads; made = p.made; statements = p.statements },
    );
  }

  pub look-At :
      (o : Option Holding) (ts : List ThreadParam) (k : ℕ)
      → Achieves (At sys o ts k) (look sys) (λ seen. At sys o ts k)
  unfolding look
  look-At o ts k = record { outcome = λ w p. (_, w, refl, p) }

  pub all_threads-At :
      (o : Option Holding) (ts : List ThreadParam) (k : ℕ)
      → Achieves (At sys o ts k) all_threads (λ all w. At sys o ts k w × (all ≡ ts))
  unfolding all_threads
  all_threads-At o ts k = record { outcome = λ w p. (w.threads, w, refl, (p, p.threads)) }

  pub add_thread-At :
      (o : Option Holding) (ts : List ThreadParam) (k : ℕ) (t : ThreadParam)
      → Achieves (At sys o ts k) (add_thread t) (λ u. At sys o (ts ++ t ∷ []) k)
  unfolding add_thread
  add_thread-At o ts k t = record {
    outcome = λ w p. (
      tt,
      record w { threads = w.threads ++ t ∷ [] },
      refl,
      record {
        held = p.held;
        threads = ap (λ xs. xs ++ t ∷ []) p.threads;
        made = p.made;
        statements = p.statements;
      },
    );
  }

-- ===== src/Main/Exit.antt =====
-- What the server holds when `main` ends.
use traccoon.Db.Open.{
  downloads_counted, IsDisciplined, opened, Achieves, Achieves-bind, Achieves-give, Achieves-weaken,
  Achieves-given,
}
use traccoon.Main.Ledger.{At, Achieves-ask, Achieves-time, Holding, nothing, ledger}
use traccoon.Main.Options.{Settings, starts, read_arguments}
use traccoon.Main.Rounds.{Works, Status, At-later}
use traccoon.Main.Stores.{set_shared-At, kill_server-At, look-At, all_threads-At}
use traccoon.Main.Server.{
  with_workers, with_database, stop_workers, clean_up, run_server, main, initial,
}
use traccoon.Main.Settled.{
  holding, numbers, params, last_told, spawn_workers-At, join_workers-At, close_strays-At,
  with_addresses-At,
}
use traccoon.Main.System.{
  malloc_threads, malloc_queue, open_database, busy_timeout, count_torrents, close_database,
  free_threads, free_queue, System, ThreadParam, World, ask, mem_error, threadcreation_error,
  general_failure,
}
use traccoon.Memory.State.{◌>>=◌, give}
use traccoon.Memory.{Run, returns}
use traccoon.Prelude.{
  pos_part, ℕ, suc, ◌<◌, ◌≡◌, refl, sym, subst, ◌∙◌, ◌⊎◌, inl, inr, true, false, Bool-cases, Option,
  none, some, List, [], Bytes, ℤ, pos, ==ℤ, arith,
}

module _ (sys : System) (limit : ℕ) (works : Works sys limit) where
  module _ (s : Settings) (slots : 0 < pos_part s.queue_size) where
    abbrev count : ℕ
    count = pos_part s.workers

    -- the server with its workers
    abbrev AtWork : ℕ → World → Type 0
    AtWork k = At sys (some (holding (numbers count 1) 0 true false false)) (params s count 1) k

    with_workers-At :
        (fuel k : ℕ) (start : ℤ)
        → limit < fuel
        → Achieves
            (At sys (some (holding [] 0 true false false)) [] k)
            (with_workers sys s fuel start)
            (λ e w. AtWork k w × Status e)
    unfolding with_workers
    with_workers-At fuel k start enough =
        Achieves-bind (spawn_workers-At sys works.creates s count 1 k [] []) (λ error.
          Achieves-given (λ created. Achieves-bind (look-At sys _ _ k) (λ shared.
            Achieves-bind (set_shared-At sys _ _ k _) (λ u.
              rw created (with_addresses-At sys limit works s fuel k 0 start _ _ slots enough)))))

    with_database-At :
        (fuel k : ℕ) (start : ℤ)
        → limit < fuel
        → Achieves
            (At sys (some (holding [] 0 false false false)) [] k)
            (with_database sys s fuel start)
            (λ e w. AtWork k w × Status e)
    unfolding with_database
    with_database-At fuel k start enough =
        Achieves-bind (Achieves-ask sys _ [] k open_database) (λ e. Achieves-given (λ x.
          rw (x.1 ∙ works.opens x.0) (
            Achieves-bind (Achieves-ask sys _ [] (suc k) busy_timeout) (λ t. Achieves-given (λ y.
              Achieves-bind (Achieves-ask sys _ [] (suc (suc k)) count_torrents) (λ q.
                Achieves-given (λ z. rw (z.1 ∙ works.counts z.0) (
                  Achieves-weaken (with_workers-At fuel (suc (suc (suc k))) start enough)
                    (λ e w p. (At-later k (suc (suc (suc k))) (omega arith) p.0, p.1))))))))))

    stop_workers-At :
        (k : ℕ) (e : ℤ)
        → Status e
        → Achieves (AtWork k) (stop_workers sys s e) (λ u.
          At sys (some (holding [] (last_told count 1 0) true false false)) (params s count 1) k)
    unfolding stop_workers
    stop_workers-At k e status =
        let ordinary : ==ℤ e threadcreation_error ≡ false = elim status [
          | inl ok ↦ rw ok refl
          | inr (inl failed) ↦ rw failed refl
          | inr (inr failed) ↦ rw failed refl
        ] in
        rw (ordinary, stop_workers)
          (Achieves-bind (all_threads-At sys _ _ k) (λ threads.
            Achieves-given (λ all. rw all (join_workers-At sys limit works s count 1 k 0 _))))

    -- What is left at the end: no worker runs.
    abbrev at_end : Option Holding
    at_end = some (record nothing { told = last_told count 1 0 })

    clean_up-At :
        (k : ℕ) (e : ℤ)
        → Status e
        → Achieves
            (AtWork k)
            (clean_up sys s e)
            (λ r w. At sys at_end (params s count 1) k w × (r ≡ e))
    unfolding clean_up
    clean_up-At k e status = Achieves-bind (kill_server-At sys _ _ k) (λ u.
        Achieves-bind (stop_workers-At k e status) (λ u.
          Achieves-bind (look-At sys _ _ k) (λ shared.
            Achieves-bind (close_strays-At sys limit works _ _ k shared.queue) (λ u.
              Achieves-bind (Achieves-ask sys _ _ k close_database) (λ a. Achieves-given (λ x.
                Achieves-bind (Achieves-ask sys _ _ (suc k) free_threads) (λ b. Achieves-given (λ y.
                  Achieves-bind (Achieves-ask sys _ _ (suc (suc k)) free_queue) (λ c.
                    Achieves-given (λ z.
                      Achieves-give e
                        (λ w p. (At-later k (suc (suc (suc k))) (omega arith) p, refl))))))))))))

-- The end of a run that has misused nothing: `status` is 0 or a code of traccoon.h, no worker runs,
-- and no memory, socket, list of addresses or database is held; the statements are finalised.
pub record Settled (sys : System) (run : Run (ℤ × World)) : Type 0 where
  pub status : ℤ
  pub world : World
  pub last : ℕ
  pub ends : run ≡ returns (status, world)
  pub held : ledger sys world.calls ≡ some (record nothing { told = last })
  pub disciplined : IsDisciplined sys.library world.statements
  pub finalised : opened sys.library world.statements ≡ []
  pub code : (status ≡ mem_error) ⊎ Status status

module _ (sys : System) (limit : ℕ) (works : Works sys limit) (s : Settings)
    (slots : 0 < pos_part s.queue_size) where
  -- what `run_server` leaves
  Ends : ℤ → World → Type 0
  Ends e w =
      (last : ℕ) × (ts : List ThreadParam) × At sys (some (record nothing { told = last })) ts 0 w
      × ((e ≡ mem_error) ⊎ Status e)

  over :
      (ts : List ThreadParam) (k : ℕ) (e : ℤ)
      → (e ≡ mem_error) ⊎ Status e
      → Achieves (At sys (some nothing) ts k) (give e) Ends
  unfolding Ends
  over ts k e code = Achieves-give e (λ w p. (0, ts, At-later 0 k (omega arith) p, code))

  abbrev arrays : Holding
  arrays = holding [] 0 false false false

  timed :
      (fuel k : ℕ) (time : Option ℤ)
      → limit < fuel
      → Achieves
          (At sys (some arrays) [] k)
          (elim time [
            | none ↦ do
              threads ← ask sys free_threads
              queue ← ask sys free_queue
              give general_failure
            | some start ↦ do error ← with_database sys s fuel start; clean_up sys s error
          ])
          Ends
  timed fuel k none enough = Achieves-bind (Achieves-ask sys _ [] k free_threads) (λ a.
      Achieves-given (λ x.
        Achieves-bind (Achieves-ask sys _ [] (suc k) free_queue) (λ b.
          Achieves-given (λ y. over [] (suc (suc k)) general_failure (inr (inr (inr refl)))))))
  timed fuel k (some start) enough =
      Achieves-bind (with_database-At sys limit works s slots fuel k start enough) (λ error.
        Achieves-given (λ status.
          Achieves-weaken (clean_up-At sys limit works s slots k error status) (λ e w p.
            unfold Ends in
            (
              last_told (pos_part s.workers) 1 0,
              _,
              At-later 0 k (omega arith) p.0,
              subst (λ v. (v ≡ mem_error) ⊎ Status v) (sym p.1) (inr status),
            ))))

  run_server-Ends :
      (fuel : ℕ) → limit < fuel → Achieves (At sys (some nothing) [] 0) (run_server sys s fuel) Ends
  unfolding run_server
  run_server-Ends fuel enough =
      Achieves-bind (Achieves-ask sys nothing [] 0 (malloc_threads s.workers)) (λ t.
        Achieves-given (λ x. elim (Bool-cases (==ℤ t (pos 0))) [
          | inl fails ↦ rw fails (over [] 1 mem_error (inl refl))
          | inr ok ↦ rw ok (
              Achieves-bind (Achieves-ask sys _ [] 1 (malloc_queue s.queue_size)) (λ q.
                Achieves-given (λ y. elim (Bool-cases (==ℤ q (pos 0))) [
                  | inl fails ↦ rw fails (
                      Achieves-bind (Achieves-ask sys _ [] 2 free_threads)
                        (λ a. Achieves-given (λ z. over [] 3 mem_error (inl refl))))
                  | inr ok' ↦ rw ok' (
                      Achieves-bind (set_shared-At sys (some arrays) [] 2 _) (λ u.
                        Achieves-bind (Achieves-time sys arrays [] 2)
                          (λ time. Achieves-given (λ x. timed fuel 3 time enough))))
                ])))
        ]))

-- On a system where the database opens and answers, the threads start, `getaddrinfo` gives one
-- address, and after `limit` calls SIGINT has come and the workers have left a slot free, `main`
-- ends, for a queue with a slot and more rounds than `limit`. Its status is 0 or a code of
-- traccoon.h; nothing was misused: each worker was told to end before it was waited
-- for, and waited for before the queue was freed, `main` itself released nothing twice, and no
-- memory, socket, list of addresses or database is held; the statements of the prunings are
-- finalised.
pub main-Settled :
    (sys : System) (limit fuel : ℕ) (args : List Bytes) (s : Settings)
    → Works sys limit
    → read_arguments sys.setup args ≡ returns (starts s)
    → 0 < pos_part s.queue_size
    → limit < fuel
    → Settled sys (main sys fuel args)
unfolding main ledger IsDisciplined opened downloads_counted Ends
main-Settled sys limit fuel args s works options slots enough =
    let (e, w, ends, (last, ts, p, code)) =
      (run_server-Ends sys limit works s slots fuel enough).outcome initial (record {
        held = refl;
        threads = refl;
        made = omega arith;
        statements = record { disciplined = tt; open_now = refl; counted = refl };
      }) in
    record {
      status = e;
      world = w;
      last = last;
      ends = rw (options, main) ends;
      held = p.held;
      disciplined = p.statements.disciplined;
      finalised = p.statements.open_now;
      code = code;
    }

-- ===== src/Worker/Conserved.antt =====
-- Over the life of a worker, each connection that it takes from the queue is closed by it.
use traccoon.Worker.Closings.{
  count, count-append, count-append_two, holds-advance, holds-serve, count-open_sockets,
  holds-released, holds-copied,
}
use traccoon.Worker.Watched.{
  IsBelow, advance-IsBelow, serve-IsBelow, pick_up-IsBelow, watch-Returns,
}
use traccoon.Memory.{Run, returns, Returns, Returns-bind}
use traccoon.Worker.PickUp.{holds, holds-pick_up}
use traccoon.Worker.Thread.{
  Round, Thread, Progress, goes_on, aborts, first_failure, over_sockets, attend, look_after, buffer,
  thread_round, thread_rounds, wait_for_other, leave_balancing, open_sockets, released_sockets,
  Finish, clean_up, no_clients, worker_thread,
}
use traccoon.Worker.{
  update_laziest, Client, Worker, LaziestWorker, count_active, count_queued, pick_up, advance,
}
use traccoon.Prelude.{
  ℕ, ◌+◌, ◌<◌, ◌≡◌, ◌≢◌, refl, sym, subst, inl, inr, Bool, true, false, not, ◌&&◌, Bool-cases,
  Option-cases, List, [], ◌∷◌, length, All, ltb, ◌==◌, arith,
}

-- how often a connection stood in the queue when the worker found it, and when it left it, over its
-- rounds
unfoldable pub seen : ℕ → List (List Client × List Client) → ℕ
seen x [] = 0
seen x ((before, after) ∷ queues) = holds x before + seen x queues

unfoldable pub left : ℕ → List (List Client × List Client) → ℕ
left x [] = 0
left x ((before, after) ∷ queues) = holds x after + left x queues

-- What the worker has taken from the queue it has closed, or it stands in its buffer.
abbrev pub Conserved : ℕ → Thread → Type 0
Conserved x t = seen x t.queues ≡ left x t.queues + count x t.closed + holds x t.clients

-- Without `Conserved` of the buffer: the worker has ended and closed all.
abbrev pub Outcome : ℕ → Progress → Type 0
Outcome x (goes_on t) = (t.clients ≡ []) × Conserved x t
Outcome x (aborts t) = Conserved x t

-- A worker that goes on watches only what it can watch.
abbrev Goes : ℕ → ℕ → Progress → Type 0
Goes fd_setsize x (goes_on t) = Conserved x t × All (IsBelow fd_setsize) t.clients
Goes fd_setsize x (aborts t) = Conserved x t

module _ (x : ℕ) (nz : x ≢ 0) (n : ℕ) (some_bit : 0 < n) where
  attend-Goes :
      (r : Round) (cs : List Client) (active : ℕ) (t : Thread) (b : Bool)
      → seen x t.queues ≡ left x t.queues + count x t.closed + holds x cs
      → All (IsBelow n) cs
      → Goes n x (goes_on (attend r cs active t b))
  attend-Goes r cs active t false kept below = (kept, below)
  attend-Goes r cs active t true kept below = (
    omega (
      arith,
      kept,
      holds-serve x nz r.readable r.parse_socket cs active,
      count-append x t.closed (over_sockets r.readable r.parse_socket cs),
    ),
    serve-IsBelow n some_bit r.readable r.parse_socket cs active below,
  )

  look_after-Goes :
      (tid : ℕ) (r : Round) (w : Worker) (t : Thread)
      → seen x t.queues ≡ left x t.queues + count x t.closed + holds x w.clients
      → All (IsBelow n) w.clients
      → Returns (Goes n x) (look_after n tid r w t)
  unfolding look_after
  look_after-Goes tid r w t kept below =
      Returns-bind _ (watch-Returns n some_bit w.clients below) (λ fdmax u. (
        _,
        refl,
        attend-Goes r (advance w.clients) w.clients_active
            (record t { laziest = update_laziest tid w.clients_active r.laziest }) (ltb 0 fdmax)
            (omega (arith, kept, holds-advance x nz w.clients))
            (advance-IsBelow n some_bit w.clients below),
      ))

  thread_round-Goes :
      (tid : ℕ) (r : Round) (t : Thread)
      → Conserved x t
      → All (IsBelow n) t.clients
      → All (IsBelow n) r.queue
      → Returns (Goes n x) (thread_round n tid r t)
  unfolding thread_round seen left
  thread_round-Goes tid r t kept below queued =
      elim (Bool-cases (
        ltb (length t.clients) (count_queued tid r.counted + count_active t.clients)
        && not r.expands)) [
          | inl fails ↦ rw (fails, thread_round) (_, refl, omega (arith, kept))
          | inr expanded ↦
              rw (expanded, thread_round)
                (elim (Option-cases (first_failure r.grows 0 tid 0 (buffer tid r t) r.queue)) [
                  | inr (i, fails) ↦
                      rw fails (_, refl, omega (arith, kept, holds-copied x nz tid i r t))
                  | inl grown ↦ rw grown (
                      look_after-Goes tid r (pick_up tid r.fresh t.clients r.counted r.queue).0 _
                        (omega
                          (arith, kept, holds-pick_up x nz tid r.fresh t.clients r.counted r.queue))
                        (pick_up-IsBelow n some_bit tid r.fresh t.clients r.counted r.queue below
                          queued))
                ])
        ]

  and_then :
      (Q : Progress → Type 0) (next : Thread → Run Progress)
      → ((u : Thread) → Conserved x u → All (IsBelow n) u.clients → Returns Q (next u))
      → ((u : Thread) → Conserved x u → Q (aborts u))
      → (p : Progress) → Goes n x p
      → Returns Q (elim p [ goes_on u ↦ next u | aborts u ↦ returns (aborts u) ])
  and_then Q next on off (goes_on u) (kept, below) = on u kept below
  and_then Q next on off (aborts u) kept = (_, refl, off u kept)

  thread_rounds-Goes :
      (tid : ℕ) (rs : List Round) (t : Thread)
      → Conserved x t
      → All (IsBelow n) t.clients
      → All (λ (r : Round). All (IsBelow n) r.queue) rs
      → Returns (Goes n x) (thread_rounds n tid rs t)
  unfolding thread_rounds
  thread_rounds-Goes tid [] t kept below queued = (_, refl, (kept, below))
  thread_rounds-Goes tid (r ∷ rs) t kept below (queued, more) =
      Returns-bind _ (thread_round-Goes tid r t kept below queued) (
        and_then (Goes n x) (thread_rounds n tid rs)
          (λ u kept below. thread_rounds-Goes tid rs u kept below more) (λ u kept. kept))

  wait_for_other-Returns :
      (tid laziest : ℕ) (more : List (ℕ × Bool))
      → wait_for_other tid ((laziest, true) ∷ more) ≡ returns tt
  unfolding wait_for_other
  wait_for_other-Returns tid laziest more = elim (Bool-cases (laziest == tid)) [
    | inl same ↦ rw same refl
    | inr other ↦ rw other refl
  ]

  leave_balancing-Returns :
      (tid laziest : ℕ) (more : List (ℕ × Bool)) (l : LaziestWorker)
      → Returns (λ l. Unit {0}) (leave_balancing tid ((laziest, true) ∷ more) l)
  unfolding leave_balancing
  leave_balancing-Returns tid laziest more l = elim (Bool-cases (l.thread_id == tid)) [
    | inl mine ↦ rw (mine, wait_for_other-Returns tid laziest more) (_, refl, tt)
    | inr other ↦ rw other (_, refl, tt)
  ]

  clean_up-Outcome :
      (tid : ℕ) (f : Finish) (t : Thread) (laziest : ℕ) (more : List (ℕ × Bool))
      → f.seen ≡ (laziest, true) ∷ more
      → Conserved x t
      → Returns (Outcome x) (clean_up tid f t)
  unfolding clean_up seen left holds
  clean_up-Outcome tid f t laziest more killed kept =
      Returns-bind _
        (subst (λ s. Returns (λ l. Unit {0}) (leave_balancing tid s f.balancing)) (sym killed)
          (leave_balancing-Returns tid laziest more f.balancing))
        (λ l u. (
          _,
          refl,
          (
            refl,
            omega (
              arith,
              kept,
              count-open_sockets x nz t.clients,
              holds-released x nz f.killserver tid f.laziest f.queue,
              count-append_two x t.closed (open_sockets t.clients)
                  (released_sockets f.killserver tid f.queue),
            ),
          ),
        ))

-- A worker ends, where each connection that it meets fits the set for `select` and the server is
-- killed before it is told to end. For each connection, the times that it stood in the queue when
-- the worker found it are the times that it stood there when the worker left it and the times that
-- the worker has closed it, with those in its buffer if it has returned NULL.
pub worker_thread-Outcome :
    (x n tid : ℕ) (opens : Bool) (l : LaziestWorker) (rs : List Round) (f : Finish) (laziest : ℕ)
    (more : List (ℕ × Bool))
    → x ≢ 0
    → 0 < n
    → All (λ (r : Round). All (IsBelow n) r.queue) rs
    → f.seen ≡ (laziest, true) ∷ more
    → Returns (Outcome x) (worker_thread n tid opens l rs f)
unfolding worker_thread seen left count holds
worker_thread-Outcome x n tid false l rs f laziest more nz some_bit queued killed = (_, refl, refl)
worker_thread-Outcome x n tid true l rs f laziest more nz some_bit queued killed =
    Returns-bind _ (thread_rounds-Goes x nz n some_bit tid rs (no_clients l) refl tt queued) (
      and_then x nz n some_bit (Outcome x) (clean_up tid f)
        (λ t kept below. clean_up-Outcome x nz n some_bit tid f t laziest more killed kept)
        (λ t kept. kept))

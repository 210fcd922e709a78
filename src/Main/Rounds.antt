-- ===== src/Main/Rounds.antt =====
-- The accept loop of `main` ends, and holds what it held before.
use traccoon.Db.Balance.{StepsNotOk}
use traccoon.Db.Calls.{Session}
use traccoon.Db.Update.{prune_lem}
use traccoon.Db.Open.{
  Holds, Achieves, Achieves-bind, Achieves-give, Achieves-weaken, Achieves-given,
}
use traccoon.Main.Ledger.{At, Achieves-ask, Achieves-time, Holding}
use traccoon.Main.Options.{Settings}
use traccoon.Main.Stores.{set_shared-At, kill_server-At}
use traccoon.Main.Serving.{
  after_statements, expiry, accept_client, accept_next, look, next_accept, is_killed, note_failure,
  prune, serve_clients, on_database, latest,
}
use traccoon.Main.System.{
  listen, socket_error, general_failure, Call, pthread_create, open_database, count_torrents,
  getaddrinfo, usleep, accept, System, Shared, ThreadParam, World, current_time, descriptor,
}
use traccoon.Main.{accept_pass}
use native.Mathlib.Decide.{dec_lt}
use traccoon.Memory.State.{◌>>=◌, give}
use traccoon.Prelude.{
  pos_part, ℕ, zero, suc, ◌-◌, ◌<◌, ◌≤◌, ◌≡◌, ◌≢◌, refl, ap, ◌⊎◌, inl, inr, true, false, Bool-cases,
  Option-cases, Option, none, some, List, [], length, leb, ℤ, pos, minus_one, ltb_ℤ, ◌-ℤ◌, arith,
}

-- A system on which a server comes up with its workers and is told to end: the database opens and
-- answers, the threads start, and there is one address. The system has interrupted the server, and
-- the workers have left a slot free, wherever `limit` calls were made.
pub record Works (sys : System) (limit : ℕ) : Type 0 where
  pub opens : (h : List Call) → sys.answer h open_database ≡ pos 0
  pub counts : (h : List Call) → sys.answer h count_torrents ≡ pos 0
  pub creates : (h : List Call) (tid : ℕ) → sys.answer h (pthread_create tid) ≡ pos 0
  pub resolves : (h : List Call) → sys.answer h getaddrinfo ≡ pos 0
  pub one_address : sys.more_addresses ≡ false
  pub steps : StepsNotOk sys.library
  pub ends : (h : List Call) → limit ≤ length h → sys.interrupted h ≡ true
  pub listens : (h : List Call) → (sys.answer h listen ≡ pos 0) ⊎ (sys.answer h listen ≡ minus_one)
  pub frees :
      (h : List Call) (x : Shared) (connection : Option ℕ)
      → limit ≤ length h
      → accept_pass connection (sys.workers_did h x).laziest.thread_id (sys.workers_did h x).queue
        ≢ none

-- what `error` is when the server ends
abbrev pub Status : ℤ → Type 0
Status e = (e ≡ pos 0) ⊎ ((e ≡ socket_error) ⊎ (e ≡ general_failure))

pub At-later :
    {sys : System} {o : Option Holding} {ts : List ThreadParam} (j k : ℕ) {w : World}
    → j ≤ k
    → At sys o ts k w
    → At sys o ts j w
At-later j k le p = record {
  held = p.held;
  threads = p.threads;
  made = omega (arith, le, p.made);
  statements = p.statements;
}

module _ (sys : System) (limit : ℕ) (works : Works sys limit) (l : Holding)
    (ts : List ThreadParam) where
  -- The queue is full only for a while.
  abbrev Spares : ℕ → Shared → Type 0
  Spares k seen =
      (connection : Option ℕ)
      → accept_pass connection seen.laziest.thread_id seen.queue ≡ none
      → k < limit

  look-Spares :
      (k : ℕ)
      → Achieves
          (At sys (some l) ts k)
          (look sys)
          (λ seen w. At sys (some l) ts k w × Spares k seen)
  unfolding look
  look-Spares k = record {
    outcome = λ w p. (
      sys.workers_did w.calls w.shared,
      w,
      refl,
      (
        p,
        λ c full. elim (dec_lt k limit) [
          | yes lt ↦ lt
          | no late ↦ absurd (works.frees w.calls w.shared c (omega (arith, late, p.made)) full)
        ],
      ),
    );
  }

  next_accept-At :
      (k : ℕ) → Achieves (At sys (some l) ts k) (next_accept sys) (λ e. At sys (some l) ts k)
  unfolding next_accept
  next_accept-At k = record { outcome = λ w p. (_, w, refl, p) }

  accept_client-At :
      (n k : ℕ)
      → limit - k < n
      → Achieves (At sys (some l) ts k) (accept_client sys n) (λ u. At sys (some l) ts (suc k))
  unfolding accept_client
  accept_client-At zero k enough = absurd (omega arith)
  accept_client-At (suc n) k enough = Achieves-bind (look-Spares k) (λ seen.
      Achieves-given (λ spares. Achieves-bind (next_accept-At k) (λ e.
        elim (Option-cases (accept_pass (descriptor e) seen.laziest.thread_id seen.queue)) [
          | inl full ↦ rw full (
              Achieves-bind (set_shared-At sys _ ts k seen) (λ u.
                Achieves-bind (Achieves-ask sys l ts k usleep) (λ r. Achieves-given (λ x.
                  Achieves-weaken
                    (accept_client-At n (suc k) (omega (arith, enough, spares _ full)))
                    (λ u w p. At-later (suc k) (suc (suc k)) (omega arith) p)))))
          | inr (queue, free) ↦ rw free (
              Achieves-bind (Achieves-ask sys l ts k accept)
                (λ r. Achieves-given (λ x. set_shared-At sys _ ts (suc k) _)))
        ])))

  is_killed-At :
      (k : ℕ)
      → Achieves
          (At sys (some l) ts k)
          (is_killed sys)
          (λ b w. At sys (some l) ts k w × (b ≡ false → k < limit))
  unfolding is_killed
  is_killed-At k = record {
    outcome = λ w p. (
      _,
      w,
      refl,
      (
        p,
        λ alive. elim (dec_lt k limit) [
          | yes lt ↦ lt
          | no late ↦
              absurd (ground (arith, alive, works.ends w.calls (omega (arith, late, p.made))))
        ],
      ),
    );
  }

  note_failure-At :
      (k : ℕ) (time : Option ℤ) (error : ℤ)
      → Status error
      → Achieves
          (At sys (some l) ts k)
          (note_failure time error)
          (λ e w. At sys (some l) ts k w × Status e)
  unfolding note_failure
  note_failure-At k (some now) error status = Achieves-give error (λ w p. (p, status))
  note_failure-At k none error status =
      Achieves-bind (kill_server-At sys (some l) ts k)
        (λ u. Achieves-give general_failure (λ w p. (p, inr (inr refl))))

  on_database-At :
      (k : ℕ) {A : Type 0} (session : Session A)
      → Achieves (Holds sys.library [] 0) session (λ a. Holds sys.library [] 0)
      → Achieves (At sys (some l) ts k) (on_database session) (λ a. At sys (some l) ts k)
  unfolding on_database
  on_database-At k session hs = record {
    outcome = λ w p.
        let (a, h, e, q) = hs.outcome w.statements p.statements in
        (
          a,
          record w { statements = h },
          ap (after_statements w) e,
          record { held = p.held; threads = p.threads; made = p.made; statements = q },
        );
  }

  prune-At :
      (k : ℕ) (interval now last : ℤ)
      → Achieves (At sys (some l) ts k) (prune sys interval now last) (λ t. At sys (some l) ts k)
  unfolding prune
  prune-At k interval now last = elim (Bool-cases (ltb_ℤ (now -ℤ last) (expiry interval))) [
    | inl recent ↦ rw (recent, prune) (Achieves-give last (λ w p. p))
    | inr due ↦
        rw (due, prune)
          (Achieves-bind
            (on_database-At k _ (prune_lem sys.library works.steps [] 0 (expiry interval)))
            (λ r. Achieves-give now (λ w p. p)))
  ]

  accept_next-At :
      (s : Settings) (stalls k : ℕ)
      → 0 < pos_part s.queue_size
      → limit < stalls
      → Achieves (At sys (some l) ts k) (accept_next sys s stalls) (λ u. At sys (some l) ts (suc k))
  unfolding accept_next
  accept_next-At s stalls k slots fuel =
      let some_slot : leb 1 (pos_part s.queue_size) ≡ true = ground (arith, slots) in
      rw (some_slot, accept_next) (accept_client-At stalls k (omega (arith, fuel)))

  pub serve_clients-At :
      (s : Settings) (stalls n k : ℕ) (error now last : ℤ)
      → 0 < pos_part s.queue_size
      → limit < stalls
      → limit - k < n
      → Status error
      → Achieves
          (At sys (some l) ts k)
          (serve_clients sys s stalls n error now last)
          (λ e w. At sys (some l) ts k w × Status e)
  unfolding serve_clients
  serve_clients-At s stalls zero k error now last slots fuel enough status = absurd (omega arith)
  serve_clients-At s stalls (suc n) k error now last slots fuel enough status =
      Achieves-bind (is_killed-At k) (λ killed. Achieves-given (λ alive.
        elim killed
            as (λ b.
              (b ≡ false → k < limit)
              → Achieves (At sys (some l) ts k)
                  (elim b [
                    | true ↦ give error
                    | false ↦ do
                      accepted ← accept_next sys s stalls
                      time ← current_time sys
                      error' ← note_failure time error
                      last' ← prune sys s.announce_interval (latest time now) last
                      serve_clients sys s stalls n error' (latest time now) last'
                  ])
                  (λ e w. At sys (some l) ts k w × Status e)) [
                    | true ↦ λ alive. Achieves-give error (λ w p. (p, status))
                    | false ↦ λ alive. Achieves-bind (accept_next-At s stalls k slots fuel) (λ u.
                        Achieves-bind (Achieves-time sys l ts (suc k)) (λ time.
                          Achieves-given (λ timed.
                            Achieves-bind (note_failure-At (suc (suc k)) time error status)
                              (λ error'. Achieves-given (λ status'.
                                Achieves-bind
                                  (prune-At (suc (suc k)) s.announce_interval (latest time now)
                                    last)
                                  (λ last'.
                                    Achieves-weaken
                                      (serve_clients-At s stalls n (suc (suc k)) error'
                                        (latest time now) last' slots fuel
                                        (omega (arith, enough, alive refl)) status')
                                      (λ e w p.
                                        (At-later k (suc (suc k)) (omega arith) p.0, p.1))))))))
                  ]
          alive))

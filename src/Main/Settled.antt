-- ===== src/Main/Settled.antt =====
-- What the server holds at the end of `main`.
use traccoon.Db.Open.{Achieves, Achieves-bind, Achieves-give, Achieves-weaken, Achieves-given}
use traccoon.Main.Ledger.{At, Achieves-ask, Holding}
use traccoon.Main.Options.{Settings}
use traccoon.Worker.{Client}
use traccoon.Main.Stores.{add_thread-At}
use traccoon.Main.Rounds.{Status, Works, At-later, serve_clients-At}
use traccoon.Main.Serving.{serve_clients}
use traccoon.Main.Server.{
  param, spawn_workers, find_socket, listen_and_serve, with_socket, free_servinfo, with_addresses,
  join_workers, close_strays,
}
use traccoon.Main.System.{
  Call, pthread_create, getaddrinfo, socket, set_reuse, bind, listen, close_server, freeaddrinfo,
  shut_down, pthread_join, close, System, ThreadParam, ask, socket_error,
}
use traccoon.Memory.State.{◌>>=◌, give}
use traccoon.Prelude.{
  pos_part, ℕ, zero, suc, ◌<◌, ◌≤◌, ◌≡◌, refl, sym, subst, ◌∙◌, ◌⊎◌, inl, inr, Bool, true, false,
  Bool-cases, Option, none, some, List, [], ◌∷◌, ◌++◌, ◌==◌, ℤ, pos, minus_one, ==ℤ, arith,
  append_assoc, append-nil,
}

-- What a server holds with the arrays of threads and of the queue.
abbrev pub holding : List ℕ → ℕ → Bool → Bool → Bool → Holding
holding running told database addresses listener = record {
  threads = true;
  queue = true;
  database = database;
  addresses = addresses;
  listener = listener;
  running = running;
  told = told;
}

-- the numbers of `n` workers from `tid` on
abbrev pub numbers : ℕ → ℕ → List ℕ
numbers zero tid = []
numbers (suc n) tid = tid ∷ numbers n (suc tid)

-- what is set up for them
abbrev pub params : Settings → ℕ → ℕ → List ThreadParam
params s zero tid = []
params s (suc n) tid = param s tid ∷ params s n (suc tid)

abbrev pub is_some {ℓ} : {A : Type ℓ} → Option A → Bool
is_some none = false
is_some (some a) = true

abbrev pub last_told : ℕ → ℕ → ℕ → ℕ
last_told zero tid told = told
last_told (suc n) tid told = last_told n (suc tid) tid

module _ (sys : System)
    (creates : (h : List Call) (tid : ℕ) → sys.answer h (pthread_create tid) ≡ pos 0) where
  pub spawn_workers-At :
      (s : Settings) (n tid k : ℕ) (running : List ℕ) (ts : List ThreadParam)
      → Achieves
          (At sys (some (holding running 0 true false false)) ts k)
          (spawn_workers sys s n tid)
          (λ e w.
            At sys
              (some (holding (running ++ numbers n tid) 0 true false false))
              (ts ++ params s n tid)
              k
              w
            × (e ≡ pos 0))
  unfolding spawn_workers
  spawn_workers-At s zero tid k running ts =
      Achieves-give (pos 0) (λ w p. (rw (append-nil running, append-nil ts) p, refl))
  spawn_workers-At s (suc n) tid k running ts =
      Achieves-bind (add_thread-At sys _ ts k (param s tid)) (λ u.
        Achieves-bind (Achieves-ask sys _ _ k (pthread_create tid)) (λ e. Achieves-given (λ x.
          rw (x.1 ∙ creates x.0 tid) (
            Achieves-weaken
              (spawn_workers-At s n (suc tid) (suc k) (running ++ tid ∷ [])
                (ts ++ param s tid ∷ []))
              (λ e w p. (
                At-later k (suc k) (omega arith) (
                    subst
                      (λ xs.
                        At sys (some (holding xs 0 true false false)) (ts ++ params s (suc n) tid)
                          (suc k) w)
                      (append_assoc running (tid ∷ []) (numbers n (suc tid)))
                      (subst
                        (λ xs.
                          At sys
                            (some (
                              holding ((running ++ tid ∷ []) ++ numbers n (suc tid)) 0 true false
                                false))
                            xs (suc k) w)
                        (append_assoc ts (param s tid ∷ []) (params s n (suc tid))) p.0)),
                p.1,
              ))))))

module _ (sys : System) (limit : ℕ) (works : Works sys limit) where
  pub join_workers-At :
      (s : Settings) (n tid k told : ℕ) (all : List ThreadParam)
      → Achieves
          (At sys (some (holding (numbers n tid) told true false false)) all k)
          (join_workers sys n (params s n tid))
          (λ u. At sys (some (holding [] (last_told n tid told) true false false)) all k)
  unfolding join_workers
  join_workers-At s zero tid k told all = Achieves-give tt (λ w p. p)
  join_workers-At s (suc n) tid k told all =
      Achieves-bind (Achieves-ask sys _ all k (shut_down tid)) (λ e. Achieves-given (λ x.
        Achieves-bind (Achieves-ask sys _ all (suc k) (pthread_join tid)) (λ r. Achieves-given (λ y.
          let same : (tid == tid) ≡ true = ground arith in
          rw same (
            Achieves-weaken (join_workers-At s n (suc tid) (suc (suc k)) tid all)
              (λ u w p. At-later k (suc (suc k)) (omega arith) p))))))

  pub close_strays-At :
      (l : Holding) (ts : List ThreadParam) (k : ℕ) (queue : List Client)
      → Achieves (At sys (some l) ts k) (close_strays sys queue) (λ u. At sys (some l) ts k)
  unfolding close_strays
  close_strays-At l ts k [] = Achieves-give tt (λ w p. p)
  close_strays-At l ts k (q ∷ qs) = elim (Bool-cases (q.socket == 0)) [
    | inl free ↦ rw (free, close_strays) (close_strays-At l ts k qs)
    | inr used ↦
        rw (used, close_strays)
          (Achieves-bind (Achieves-ask sys l ts k (close q.socket)) (λ e. Achieves-given (λ x.
            Achieves-weaken (close_strays-At l ts (suc k) qs)
              (λ u w p. At-later k (suc k) (omega arith) p))))
  ]

  find_socket-At :
      (n k told : ℕ) (running : List ℕ) (ts : List ThreadParam)
      → 0 < n
      → Achieves
          (At sys (some (holding running told true true false)) ts k)
          (find_socket sys n)
          (λ found. At sys (some (holding running told true true (is_some found))) ts k)
  unfolding find_socket
  find_socket-At zero k told running ts some_fuel = absurd (omega arith)
  find_socket-At (suc n) k told running ts some_fuel =
      Achieves-bind (Achieves-ask sys _ ts k socket) (λ e. Achieves-given (λ x.
        elim (Bool-cases (==ℤ e minus_one)) [
          | inl fails ↦
              rw (fails, works.one_address)
                (Achieves-give none (λ w p. At-later k (suc k) (omega arith) p))
          | inr found ↦
              rw found
                (Achieves-give (some (pos_part e)) (λ w p. At-later k (suc k) (omega arith) p))
        ]))

  failed :
      (o : Option Holding) (ts : List ThreadParam) (j k : ℕ)
      → j ≤ k
      → Achieves (At sys o ts k) (give socket_error) (λ e w. At sys o ts j w × Status e)
  failed o ts j k le = Achieves-give socket_error (λ w p. (At-later j k le p, inr (inl refl)))

  listening :
      (l : Holding) (ts : List ThreadParam) (s : Settings) (fuel k : ℕ) (start e : ℤ)
      → 0 < pos_part s.queue_size
      → limit < fuel
      → (e ≡ pos 0) ⊎ (e ≡ minus_one)
      → Achieves
          (At sys (some l) ts (suc (suc (suc k))))
          (elim (==ℤ e minus_one) [
            | true ↦ give socket_error
            | false ↦ serve_clients sys s fuel fuel e (pos 0) start
          ])
          (λ e w. At sys (some l) ts k w × Status e)
  listening l ts s fuel k start e slots enough (inl ok) =
      let works_on : ==ℤ e minus_one ≡ false = rw ok refl in
      rw works_on (
        Achieves-weaken
          (serve_clients-At sys limit works l ts s fuel fuel (suc (suc (suc k))) e (pos 0) start
            slots enough (omega (arith, enough)) (inl ok))
          (λ e w p. (At-later k (suc (suc (suc k))) (omega arith) p.0, p.1)))
  listening l ts s fuel k start e slots enough (inr fails) =
      let ends : ==ℤ e minus_one ≡ true = rw fails refl in
      rw ends (failed (some l) ts k (suc (suc (suc k))) (omega arith))

  listen_and_serve-At :
      (l : Holding) (ts : List ThreadParam) (s : Settings) (fuel k : ℕ) (start : ℤ)
      → 0 < pos_part s.queue_size
      → limit < fuel
      → Achieves
          (At sys (some l) ts k)
          (listen_and_serve sys s fuel start)
          (λ e w. At sys (some l) ts k w × Status e)
  unfolding listen_and_serve
  listen_and_serve-At l ts s fuel k start slots enough =
      Achieves-bind (Achieves-ask sys l ts k set_reuse) (λ e. Achieves-given (λ x.
        elim (Bool-cases (==ℤ e minus_one)) [
          | inl fails ↦ rw fails (failed (some l) ts k (suc k) (omega arith))
          | inr reuse ↦ rw reuse (
              Achieves-bind (Achieves-ask sys l ts (suc k) bind) (λ b. Achieves-given (λ y.
                elim (Bool-cases (==ℤ b minus_one)) [
                  | inl fails ↦ rw fails (failed (some l) ts k (suc (suc k)) (omega arith))
                  | inr bound ↦ rw bound (
                      Achieves-bind (Achieves-ask sys l ts (suc (suc k)) listen) (λ n.
                        Achieves-given (λ z. listening l ts s fuel k start n slots enough (
                          subst (λ v. (v ≡ pos 0) ⊎ (v ≡ minus_one)) (sym z.1)
                            (works.listens z.0)))))
                ])))
        ]))

  with_socket-At :
      (s : Settings) (fuel k told : ℕ) (start : ℤ) (running : List ℕ) (ts : List ThreadParam)
      → 0 < pos_part s.queue_size
      → limit < fuel
      → Achieves
          (At sys (some (holding running told true true false)) ts k)
          (with_socket sys s fuel start)
          (λ e w. At sys (some (holding running told true true false)) ts k w × Status e)
  unfolding with_socket
  with_socket-At s fuel k told start running ts slots enough =
      Achieves-bind (find_socket-At fuel k told running ts (omega (arith, enough)))
        (λ found. with_found found)
    where
      with_found :
          (found : Option ℕ)
          → Achieves
              (At sys (some (holding running told true true (is_some found))) ts k)
              (elim found [
                | none ↦ give socket_error
                | some servsock ↦ do
                  error ← listen_and_serve sys s fuel start
                  closed ← ask sys close_server
                  give error
              ])
              (λ e w. At sys (some (holding running told true true false)) ts k w × Status e)
      with_found none = failed (some (holding running told true true false)) ts k k (omega arith)
      with_found (some servsock) =
          Achieves-bind
            (listen_and_serve-At (holding running told true true true) ts s fuel k start slots
              enough)
            (λ error. Achieves-given (λ status.
              Achieves-bind (Achieves-ask sys _ ts k close_server) (λ e.
                Achieves-given (λ x.
                  Achieves-give error (λ w p. (At-later k (suc k) (omega arith) p, status))))))

  pub with_addresses-At :
      (s : Settings) (fuel k told : ℕ) (start : ℤ) (running : List ℕ) (ts : List ThreadParam)
      → 0 < pos_part s.queue_size
      → limit < fuel
      → Achieves
          (At sys (some (holding running told true false false)) ts k)
          (with_addresses sys s fuel start)
          (λ e w. At sys (some (holding running told true false false)) ts k w × Status e)
  unfolding with_addresses free_servinfo
  with_addresses-At s fuel k told start running ts slots enough =
      Achieves-bind (Achieves-ask sys _ ts k getaddrinfo) (λ e. Achieves-given (λ x.
        rw (x.1 ∙ works.resolves x.0) (
          Achieves-bind (with_socket-At s fuel (suc k) told start running ts slots enough) (λ error.
            Achieves-given (λ status.
              Achieves-bind (Achieves-ask sys _ ts (suc k) freeaddrinfo) (λ r. Achieves-given (λ y.
                Achieves-give error
                  (λ w p. (At-later k (suc (suc k)) (omega arith) p, status)))))))))

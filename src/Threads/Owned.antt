-- ===== src/Threads/Owned.antt =====
-- In every state that the threads reach, an open connection stands in one place.
use traccoon.Threads.{
  Server, Step, accepts, picks_up, balances, serves, ends, tid_of, start, Reach, started, later,
}
use traccoon.Main.{accept_pass}
use traccoon.Worker.Closings.{
  count, count-append, count-append_two, holds-advance, holds-serve, count-open_sockets,
  holds-released,
}
use traccoon.Worker.PickUp.{holds, holds-pick_up}
use traccoon.Worker.Thread.{over_sockets, open_sockets, released_sockets}
use traccoon.Worker.{Client, count_active, pick_up, advance, serve}
use traccoon.Prelude.{
  ℕ, zero, suc, ◌+◌, ◌≤◌, ◌≡◌, ◌≢◌, refl, ap, subst, ◌∙◌, inl, inr, Bool-cases, Option, none, some,
  List, [], ◌∷◌, ◌++◌, replicate, ◌==◌, arith,
}

-- how often a connection stands in the buffers
unfoldable pub held : ℕ → List (List Client) → ℕ
held x [] = 0
held x (b ∷ bs) = holds x b + held x bs

held-append : (x : ℕ) (bs cs : List (List Client)) → held x (bs ++ cs) ≡ held x bs + held x cs
unfolding held
held-append x [] cs = omega arith
held-append x (b ∷ bs) cs = omega (arith, held-append x bs cs)

held-split :
    (x : ℕ) (before behind : List (List Client)) (b : List Client)
    → held x (before ++ b ∷ behind) ≡ held x before + (holds x b + held x behind)
unfolding held
held-split x before behind b = held-append x before (b ∷ behind)

-- Each connection that was accepted was closed or stands in the queue or in a buffer, and each
-- stands in one place at most.
pub record Owned (x : ℕ) (s : Server) : Type 0 where
  pub accounts : count x s.accepted ≡ holds x s.queue + held x s.buffers + count x s.closed
  pub once : holds x s.queue + held x s.buffers ≤ 1

-- what a pass over the queue adds
abbrev Adds : ℕ → ℕ → List Client → Option (List Client) → Type 0
Adds x y queue none = Unit
Adds x y queue (some after) = holds x after ≡ count x (y ∷ []) + holds x queue

module _ (x : ℕ) (nz : x ≢ 0) where
  Adds-behind :
      (y : ℕ) (q : Client) (queue : List Client) (o : Option (List Client))
      → Adds x y queue o
      → Adds x y (q ∷ queue) (elim o [ none ↦ none | some after ↦ some (q ∷ after) ])
  unfolding holds
  Adds-behind y q queue none a = tt
  Adds-behind y q queue (some after) a = ground (arith, a)

  accept_pass-Adds :
      (y laziest : ℕ) (queue : List Client) → Adds x y queue (accept_pass (some y) laziest queue)
  unfolding accept_pass
  accept_pass-Adds y laziest [] = tt
  accept_pass-Adds y laziest (q ∷ queue) = elim (Bool-cases (q.socket == 0)) [
    | inl free ↦ rw free (unfold holds count in ground (arith, nz, free))
    | inr used ↦ rw used (
        Adds-behind y q queue (accept_pass (some y) laziest queue)
          (accept_pass-Adds y laziest queue))
  ]

  Step-Owned : {s t : Server} → Step s t → Owned x s → Owned x t
  unfolding count
  Step-Owned {s} (accepts y after y_nz fresh passed) o =
      let added : holds x after ≡ count x (y ∷ []) + holds x s.queue =
        subst (Adds x y s.queue) passed (accept_pass-Adds y s.laziest.thread_id s.queue) in
      elim (Bool-cases (y == x)) [
        | inl same ↦ record {
          accounts = ground (arith, added, o.accounts, same);
          once = ground (arith, added, o.accounts, fresh, same);
        }
        | inr other ↦ record {
          accounts = ground (arith, added, o.accounts, other);
          once = ground (arith, added, o.once, other);
        }
      ]
  Step-Owned {s} (picks_up before behind clients counted fresh e) o =
      let old = ap (held x) e ∙ held-split x before behind clients in
      let picked = pick_up (tid_of before) fresh clients counted s.queue in
      let new = held-split x before behind picked.0.clients in
      let moved = holds-pick_up x nz (tid_of before) fresh clients counted s.queue in
      record {
        accounts = omega (arith, o.accounts, old, new, moved);
        once = omega (arith, o.once, old, new, moved);
      }
  Step-Owned (balances before behind clients e) o = record { accounts = o.accounts; once = o.once }
  Step-Owned {s} (serves before behind clients readable parse_socket e) o =
      let old = ap (held x) e ∙ held-split x before behind clients in
      let served = serve readable parse_socket (advance clients) (count_active clients) in
      let new = held-split x before behind served.clients in
      let moved = holds-serve x nz readable parse_socket (advance clients) (count_active clients) in
      let same = holds-advance x nz clients in
      let closing =
        count-append x s.closed (over_sockets readable parse_socket (advance clients)) in
      record {
        accounts = omega (arith, o.accounts, old, new, moved, same, closing);
        once = omega (arith, o.once, old, new, moved, same);
      }
  Step-Owned {s} (ends before behind clients killserver e) o =
      let old = ap (held x) e ∙ held-split x before behind clients in
      let new = held-split x before behind [] in
      let none_left : holds x [] ≡ 0 = unfold holds in refl in
      let opened = count-open_sockets x nz clients in
      let moved = holds-released x nz killserver (tid_of before) s.laziest.thread_id s.queue in
      let closing =
        count-append_two x s.closed (open_sockets clients)
          (released_sockets killserver (tid_of before) s.queue) in
      record {
        accounts = omega (arith, o.accounts, old, new, none_left, opened, moved, closing);
        once = omega (arith, o.once, old, new, none_left, moved);
      }

  held-nothing : (n : ℕ) → held x (replicate n []) ≡ 0
  unfolding held holds
  held-nothing zero = refl
  held-nothing (suc n) = omega (arith, held-nothing n)

  start-Owned : (n : ℕ) (slots : List Client) → holds x slots ≡ 0 → Owned x (start n slots)
  unfolding count
  start-Owned n slots free = record {
    accounts = omega (arith, free, held-nothing n);
    once = omega (arith, free, held-nothing n);
  }

-- In every state that the main thread and any number of workers reach from a queue of free slots,
-- in whatever order their passes come, if `accept` returns only descriptors that are not open: a
-- connection was accepted as often as it was closed, and
-- once more if it is open; it then stands in the queue or in the buffer of one worker, once.
pub Reach-Owned :
    (x n : ℕ) (slots : List Client) {s : Server}
    → x ≢ 0
    → holds x slots ≡ 0
    → Reach n slots s
    → Owned x s
Reach-Owned x n slots nz free started = start-Owned x nz n slots free
Reach-Owned x n slots nz free (later r step) =
    Step-Owned x nz step (Reach-Owned x n slots nz free r)

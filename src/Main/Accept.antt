-- ===== src/Main/Accept.antt =====
-- What the accept loop does to the queue.
use traccoon.Main.{accepted, accept_pass}
use traccoon.Worker.{Client}
use traccoon.Worker.PickUp.{holds, IsAssigned}
use traccoon.Prelude.{
  ℕ, suc, ◌≡◌, ◌≢◌, refl, Bool-cases, inl, inr, Option, none, some, List, [], ◌∷◌, All, ◌==◌, arith,
}

-- What a pass over the queue leaves: the queue has a connection `s` more and all others as before,
-- and each slot that is assigned to the worker `tid` has a connection.
pub record Accepted (s tid : ℕ) (queue after : List Client) : Type 0 where
  pub one_more : holds s after ≡ suc (holds s queue)
  pub others : (x : ℕ) → x ≢ 0 → x ≢ s → holds x after ≡ holds x queue
  pub assigned : All (IsAssigned tid) after

-- What a pass has done, by what it returned: a queue that it left as it was has no free slot.
abbrev pub AcceptOutcome : ℕ → ℕ → List Client → Option (List Client) → Type 0
AcceptOutcome s tid queue none = holds 0 queue ≡ 0
AcceptOutcome s tid queue (some after) = Accepted s tid queue after

accept_free :
    (s laziest tid : ℕ) (q : Client) (qs : List Client)
    → s ≢ 0
    → q.socket ≡ 0
    → All (IsAssigned tid) (q ∷ qs)
    → Accepted s tid (q ∷ qs) (accepted (some s) laziest q ∷ qs)
unfolding holds
accept_free s laziest tid q qs nz free (_, more) = record {
  one_more = ground (arith, nz, free);
  others = λ x x_nz ne. ground (arith, x_nz, ne, free);
  assigned = (λ e. nz, more);
}

accept_behind :
    (s tid : ℕ) (q : Client) (qs : List Client) (o : Option (List Client))
    → q.socket ≢ 0
    → IsAssigned tid q
    → AcceptOutcome s tid qs o
    → AcceptOutcome s tid (q ∷ qs) (elim o [ none ↦ none | some qs' ↦ some (q ∷ qs') ])
unfolding holds
accept_behind s tid q qs none used _ w = ground (arith, used, w)
accept_behind s tid q qs (some after) used mine w = record {
  one_more = ground (arith, w.one_more);
  others = λ x x_nz ne. ground (arith, w.others x x_nz ne);
  assigned = (mine, w.assigned);
}

-- A pass over the queue, with a connection that `accept` returned, puts the connection there once,
-- keeps all others, and gives no worker a slot without a connection; it changes nothing only if no
-- slot is free.
pub accept_pass-AcceptOutcome :
    (s laziest tid : ℕ) (queue : List Client)
    → s ≢ 0
    → All (IsAssigned tid) queue
    → AcceptOutcome s tid queue (accept_pass (some s) laziest queue)
unfolding accept_pass
accept_pass-AcceptOutcome s laziest tid [] nz _ = unfold holds in refl
accept_pass-AcceptOutcome s laziest tid (q ∷ qs) nz assigned = elim (Bool-cases (q.socket == 0)) [
  | inl free ↦ rw free (accept_free s laziest tid q qs nz (ground arith) assigned)
  | inr used ↦ rw used (
      accept_behind s tid q qs (accept_pass (some s) laziest qs) (ground arith) assigned.0
        (accept_pass-AcceptOutcome s laziest tid qs nz assigned.1))
]

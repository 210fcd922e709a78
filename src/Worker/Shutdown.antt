-- ===== src/Worker/Shutdown.antt =====
-- What a worker that shuts down leaves in the queue.
use traccoon.Worker.{Client, count_queued, release_waiting}
use traccoon.Worker.PickUp.{holds}
use traccoon.Prelude.{ℕ, ◌≡◌, ◌≢◌, refl, Bool-cases, false, inl, inr, List, [], ◌∷◌, ◌==◌, arith}

-- A worker that shuts down while another one is the laziest, and the server goes on, leaves every
-- connection in the queue, and none that is assigned to itself.
pub holds-release_waiting :
    (x tid laziest : ℕ) (queue : List Client)
    → laziest ≢ tid
    → (holds x (release_waiting false tid laziest queue) ≡ holds x queue)
      × (count_queued tid (release_waiting false tid laziest queue) ≡ 0)
unfolding release_waiting holds count_queued
holds-release_waiting x tid laziest [] ne = (refl, refl)
holds-release_waiting x tid laziest (q ∷ qs) ne =
    let (kept, gone) = holds-release_waiting x tid laziest qs ne in
    elim (Bool-cases (q.thread == tid)) [
      | inl mine ↦ rw mine (ground (arith, kept), ground (arith, gone, ne))
      | inr other ↦ rw other (ground (arith, kept), ground (arith, gone, other))
    ]

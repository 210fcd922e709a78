-- ===== src/Worker/Closings.antt =====
-- What a worker closes: each connection that leaves a buffer or the queue.
use traccoon.Worker.PickUp.{holds, holds-free, holds-copy_connections}
use traccoon.Worker.Thread.{
  Round, Thread, over_sockets, buffer, copied, open_sockets, released_sockets,
}
use traccoon.Worker.{
  Client, count_active, count_queued, copy_connections, expand, advance, is_over, serve,
  release_waiting,
}
use traccoon.Prelude.{
  take-append-drop, ℕ, suc, ◌+◌, ◌-◌, ◌≡◌, ◌≢◌, refl, ap, ◌∙◌, inl, inr, Bool, true, false, not,
  ◌||◌, Bool-cases, List, [], ◌∷◌, ◌++◌, length, take, drop, ◌==◌, if◌then◌else◌, arith,
}

-- how often a number stands in a list
unfoldable pub count : ℕ → List ℕ → ℕ
count x [] = 0
count x (y ∷ ys) = if y == x then suc (count x ys) else count x ys

pub count-append : (x : ℕ) (xs ys : List ℕ) → count x (xs ++ ys) ≡ count x xs + count x ys
unfolding count
count-append x [] ys = omega arith
count-append x (y ∷ xs) ys = ground (arith, count-append x xs ys)

pub count-append_two :
    (x : ℕ) (xs ys zs : List ℕ) → count x (xs ++ ys ++ zs) ≡ count x xs + count x ys + count x zs
count-append_two x xs ys zs =
    count-append x (xs ++ ys) zs ∙ ap (λ k. k + count x zs) (count-append x xs ys)

pub holds-append : (x : ℕ) (xs ys : List Client) → holds x (xs ++ ys) ≡ holds x xs + holds x ys
unfolding holds
holds-append x [] ys = omega arith
holds-append x (y ∷ xs) ys = ground (arith, holds-append x xs ys)

module _ (x : ℕ) (nz : x ≢ 0) where
  pub holds-advance : (cs : List Client) → holds x (advance cs) ≡ holds x cs
  unfolding holds advance
  holds-advance [] = refl
  holds-advance (c ∷ cs) = ground (arith, holds-advance cs)

  pub holds-serve :
      (readable : ℕ → Bool) (parse_socket : Client → Bool) (cs : List Client) (active : ℕ)
      → holds x (serve readable parse_socket cs active).clients
          + count x (over_sockets readable parse_socket cs)
        ≡ holds x cs
  unfolding holds serve over_sockets count
  holds-serve readable parse_socket [] active = refl
  holds-serve readable parse_socket (c ∷ cs) active =
      elim (Bool-cases (c.socket == 0 || not (is_over readable parse_socket c))) [
        | inl kept ↦ rw kept (ground (arith, holds-serve readable parse_socket cs active))
        | inr closed ↦
            rw closed (ground (arith, nz, holds-serve readable parse_socket cs (active - 1)))
      ]

  pub count-open_sockets : (cs : List Client) → count x (open_sockets cs) ≡ holds x cs
  unfolding holds open_sockets count
  count-open_sockets [] = refl
  count-open_sockets (c ∷ cs) = ground (arith, nz, count-open_sockets cs)

  pub holds-released :
      (killserver : Bool) (tid laziest : ℕ) (queue : List Client)
      → holds x (release_waiting killserver tid laziest queue)
          + count x (released_sockets killserver tid queue)
        ≡ holds x queue
  unfolding holds release_waiting released_sockets count
  holds-released killserver tid laziest [] = refl
  holds-released true tid laziest (q ∷ qs) = ground (arith, nz, holds-released true tid laziest qs)
  holds-released false tid laziest (q ∷ qs) =
      ground (arith, nz, holds-released false tid laziest qs)

  pub holds-copied :
      (tid i : ℕ) (r : Round) (t : Thread)
      → holds x (copied tid r t i).0.clients + holds x (copied tid r t i).1
        ≡ holds x t.clients + holds x r.queue
  unfolding expand
  holds-copied tid i r t =
      let free : Client = record {
        thread = r.fresh.thread;
        socket = 0;
        recv_iter = r.fresh.recv_iter;
      } in
      omega (
        arith,
        holds-append x (copy_connections tid 0 (buffer tid r t) (take i r.queue)).1
            (drop i r.queue),
        holds-copy_connections x nz tid 0 (buffer tid r t) (take i r.queue),
        holds-free x nz (count_queued tid r.counted + count_active t.clients - length t.clients)
            free t.clients refl,
        holds-append x (take i r.queue) (drop i r.queue),
        ap (holds x) (take-append-drop i r.queue),
      )

-- ===== src/Threads.antt =====
-- traccoon.c and thread.c together: the main thread and the workers over one queue, as steps in any
-- order. A step is a pass over the queue or over a buffer; the n-th buffer is that of the worker
-- with the number n, counted from 1. The end of a worker whose realloc fails, which leaves its
-- connections open, and the closing of the strays that main does behind the end of the workers are no
-- steps here: they are in Worker and in Main.
pub mod Owned
mod Tests
use traccoon.Main.{accept_pass}
use traccoon.Worker.Closings.{count}
use traccoon.Worker.Thread.{over_sockets, open_sockets, released_sockets}
use traccoon.Worker.{
  Client, LaziestWorker, count_active, pick_up, update_laziest, advance, serve, release_waiting,
}
use traccoon.Prelude.{ℕ, ◌+◌, ◌≡◌, ◌≢◌, Bool, some, List, [], ◌∷◌, ◌++◌, length, replicate}

pub record Server : Type 0 where
  pub queue : List Client
  pub buffers : List (List Client)
  pub laziest : LaziestWorker
  -- what `accept` has returned, and what was closed
  pub accepted : List ℕ
  pub closed : List ℕ

-- the number of the worker whose buffer stands behind the buffers `before`
abbrev pub tid_of : List (List Client) → ℕ
tid_of before = length before + 1

pub data Step (s : Server) : Server → Type 0 where
  -- `accept` returns a descriptor that is not open.
  accepts :
      (x : ℕ) (after : List Client)
      → x ≢ 0
      → count x s.accepted ≡ count x s.closed
      → accept_pass (some x) s.laziest.thread_id s.queue ≡ some after
      → Step s (record s { queue = after; accepted = x ∷ s.accepted })
  picks_up :
      (before behind : List (List Client)) (clients counted : List Client) (fresh : Client)
      → s.buffers ≡ before ++ clients ∷ behind
      → Step s (record s {
        queue = (pick_up (tid_of before) fresh clients counted s.queue).1;
        buffers =
            before ++ (pick_up (tid_of before) fresh clients counted s.queue).0.clients ∷ behind;
      })
  balances :
      (before behind : List (List Client)) (clients : List Client)
      → s.buffers ≡ before ++ clients ∷ behind
      → Step s
          (record s { laziest = update_laziest (tid_of before) (count_active clients) s.laziest })
  serves :
      (before behind : List (List Client)) (clients : List Client) (readable : ℕ → Bool)
      (parse_socket : Client → Bool)
      → s.buffers ≡ before ++ clients ∷ behind
      → Step s (record s {
        buffers =
            before
            ++ (serve readable parse_socket (advance clients) (count_active clients)).clients
              ∷ behind;
        closed = s.closed ++ over_sockets readable parse_socket (advance clients);
      })
  -- a worker that ends, while the server is killed or not
  ends :
      (before behind : List (List Client)) (clients : List Client) (killserver : Bool)
      → s.buffers ≡ before ++ clients ∷ behind
      → Step s (record s {
        queue = release_waiting killserver (tid_of before) s.laziest.thread_id s.queue;
        buffers = before ++ [] ∷ behind;
        closed =
            s.closed ++ open_sockets clients ++ released_sockets killserver (tid_of before) s.queue;
      })

-- the server with `n` workers and a queue of free slots
abbrev pub start : ℕ → List Client → Server
start n slots = record {
  queue = slots;
  buffers = replicate n [];
  laziest = record { thread_id = 1; active_sockets = 0 };
  accepted = [];
  closed = [];
}

pub data Reach (n : ℕ) (slots : List Client) : Server → Type 0 where
  started : Reach n slots (start n slots)
  later : {s t : Server} → Reach n slots s → Step s t → Reach n slots t

-- ===== src/Comm/Socket.antt =====
-- comm.c: `parseSocket`. The bytes that `recv` peeks at and the address of the client are
-- parameters. The request stays in the queue of the socket until a call handles it, which then
-- drains it.
use traccoon.CLib.{strncmp_equal}
use traccoon.Comm.Request.{
  Peer, Parsed, request, unterminated, missing, out_of_bounds, parse_announce, parse_scrape,
}
use traccoon.Db.Calls.{Session, give, ◌>>=◌}
use traccoon.Db.{AnnounceRequest}
use traccoon.Memory.{Run, fault, write}
use traccoon.Neth.{http_headers}
use traccoon.Track.Announce.{Host, without_calls, standard_header, track, scrape}
use traccoon.Worker.{max_recv_iter}
use traccoon.Prelude.{
  ℕ, zero, suc, Bool, true, false, ◌||◌, Option, none, some, [], ◌∷◌, ◌++◌, Bytes, codes, length,
  drop, leb, ◌==◌, if◌then◌else◌, ℤ,
}

-- what the function gets of a connection
pub record Connection : Type 0 where
  -- what `recv` peeks at; `none` for -1
  pub peeked : Option Bytes
  -- what `buf` and `hashbuf` hold when they are declared
  pub buf : Bytes
  pub hashbuf : Bytes
  -- the answer of `getpeername`, and `inet_ntop` of it
  pub peer : Option Peer
  pub recv_iter : ℕ

-- `sizeof(buf)-1`
abbrev pub most : ℕ
most = 1023

-- Whether the connection was handled, and what was sent.
abbrev pub Handled : Type 0
Handled = Bool × Bytes

-- a reply that is sent only when the client has been looked at too often
abbrev pub late : ℕ → Bytes → Bytes → Session Handled
late iter code reason =
    give (false, if leb max_recv_iter iter then http_headers code (reason ++ 13 ∷ 10 ∷ []) else [])

abbrev pub plain_wrong : ℕ → Session Handled
plain_wrong iter =
    late iter (codes "400 Bad Syntax") (codes "X-Failure-Reason: Thats just plain wrong")

unfoldable pub answer_announce : Host → ℤ → ℕ → Parsed AnnounceRequest → Session Handled
answer_announce host interval iter (request ar) = do
  reply ← track host ar interval
  give (true, reply)
answer_announce host interval iter unterminated = plain_wrong iter
answer_announce host interval iter missing =
    late iter (codes "408 Timed out") (codes "X-Failure-Reason: Missing parameters")
answer_announce host interval iter out_of_bounds =
    late iter (codes "400 Bad Syntax") (codes "X-Failure-Reason: Failed Parameter Validation")

unfoldable pub answer_scrape : Host → ℕ → Parsed (Option Bytes) → Session Handled
answer_scrape host iter (request hash) = do reply ← scrape host hash; give (true, reply)
answer_scrape host iter unterminated = plain_wrong iter
answer_scrape host iter missing = give (false, [])
answer_scrape host iter out_of_bounds = give (false, [])

abbrev pub milhouse : Bytes
milhouse = codes "Making Milhouse cry is not a science project" ++ 13 ∷ 10 ∷ []

abbrev pub repeated : ℕ → Bytes → Bytes
repeated zero s = []
repeated (suc n) s = s ++ repeated n s

-- Which of the requests the string behind `GET /` is.
unfoldable pub answer_get : Host → ℤ → Connection → Bytes → Session Handled
answer_get host interval conn buffer = do
  is_announce ← without_calls (strncmp_equal buffer (codes "announce" ++ 0 ∷ []) 8)
  elim is_announce [
    | true ↦ elim conn.peer [
      | none ↦ give (true, [])
      | some peer ↦ do
        parsed ← without_calls (parse_announce peer (drop 8 buffer))
        answer_announce host interval conn.recv_iter parsed
    ]
    | false ↦ do
      is_scrape ← without_calls (strncmp_equal buffer (codes "scrape" ++ 0 ∷ []) 6)
      elim is_scrape [
        | true ↦ do
          parsed ← without_calls (parse_scrape host.local conn.hashbuf (drop 6 buffer))
          answer_scrape host conn.recv_iter parsed
        | false ↦ give (true, http_headers (codes "200 OK") standard_header ++ repeated 10 milhouse)
      ]
  ]

-- `buf[size]=0` behind the bytes.
unfoldable pub end_buffer : Bytes → Bytes → Run Bytes
end_buffer buf bytes = write (bytes ++ drop (length bytes) buf) (length bytes) 0

unfoldable pub answer_bytes : Host → ℤ → Connection → Bytes → Session Handled
answer_bytes host interval conn bytes =
    if length bytes == 0 || length bytes == most then give (true, []) else (do
      buffer ← without_calls (end_buffer conn.buf bytes)
      is_get ← without_calls (strncmp_equal buffer (codes "GET /" ++ 0 ∷ []) 5)
      elim is_get [
        | true ↦ answer_get host interval conn (drop 5 buffer)
        | false ↦ give (true, http_headers (codes "405 Not supported") standard_header)
      ])

-- For a `recv` that fails, the terminator is written to `buf[-1]`.
unfoldable pub parse_socket : Host → ℤ → Connection → Session Handled
parse_socket host interval conn = elim conn.peeked [
  | none ↦ without_calls fault
  | some bytes ↦ do
    answered ← answer_bytes host interval conn bytes
    give (answered.0 || leb max_recv_iter conn.recv_iter, answered.1)
]

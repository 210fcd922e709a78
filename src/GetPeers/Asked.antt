-- ===== src/GetPeers/Asked.antt =====
-- The request that getpeers sends over net.c, as `parseSocket` of comm.c receives it.
use traccoon.GetPeers.Announced.{asked, announced, parse_announce-asked}
use traccoon.GetPeers.Values.{event_text, IsNumberOption}
use traccoon.GetPeers.Query.{or_text, path_parts-query}
use traccoon.GetPeers.{path_parts}
use traccoon.NetLib.Http.Request.{request_text, plain_parts}
use traccoon.NetLib.Merge.{joined}
use traccoon.Encoding.Url.{url_encode}
use traccoon.Encoding.Hex.{max_hash_len}
use traccoon.Comm.Request.{Peer, request, parse_announce}
use traccoon.Comm.Socket.{
  Connection, Handled, most, answer_announce, answer_get, end_buffer, answer_bytes, parse_socket,
}
use traccoon.CLib.{strncmp_equal}
use traccoon.Db.Calls.{go_on, Session, give, ◌>>=◌, Call}
use traccoon.Db.{AnnounceRequest, BtEvent}
use traccoon.Worker.{max_recv_iter}
use traccoon.Memory.State.{go_on}
use traccoon.Memory.{Run, returns, fault, out_of_fuel, write}
use traccoon.NetLib.Splits.{write-append}
use traccoon.Track.Announce.{without_calls, Host, track}
use traccoon.Prelude.{
  length-drop, ℕ, ◌<◌, ◌≡◌, refl, ap, subst, ◌∙◌, Bool, true, false, ◌||◌, Option, none, some, List,
  [], ◌∷◌, ◌++◌, Bytes, codes, length, drop, leb, ◌==◌, ℤ, arith, append_assoc,
}

nonempty : (s : Bytes) → 0 < length s → (c : ℕ) × (t : Bytes) × (s ≡ c ∷ t)
nonempty [] h = absurd (omega (arith, h))
nonempty (c ∷ t) h = (c, t, refl)

-- The bytes in the buffer, with a terminator behind them.
end_buffer_lem :
    (buf bytes : Bytes)
    → length bytes < length buf
    → (t : Bytes) × (end_buffer buf bytes ≡ returns (bytes ++ 0 ∷ t))
unfolding end_buffer
end_buffer_lem buf bytes fits =
    let (c, t, e) =
      nonempty (drop (length bytes) buf) (omega (arith, fits, length-drop (length bytes) buf)) in
    (t, ap (λ s. write (bytes ++ s) (length bytes) 0) e ∙ write-append bytes t c 0)

-- The reply of the tracker to a request that is handled.
abbrev pub tracked : Host → AnnounceRequest → ℤ → Session Handled
tracked server ar interval = do reply ← track server ar interval; give (true, reply)

-- A connection that was handled stays so, however often it was looked at.
once_handled :
    (r : Run (Bytes × List Call)) (late : Bool)
    → go_on {B = Handled}
        (go_on {B = Handled} r (λ reply. give (true, reply)))
        (λ answered. give (answered.0 || late, answered.1))
      ≡ go_on r (λ reply. give (true, reply))
once_handled (returns r) late = refl
once_handled fault late = refl
once_handled out_of_fuel late = refl

module _ (server : Host) (interval : ℤ) (conn : Connection) (peer : Peer) (query rest : Bytes)
    (ar : AnnounceRequest) where
  abbrev bytes : Bytes
  bytes = codes "GET /announce" ++ (query ++ b' ' ∷ rest)

  module _ (known : conn.peer ≡ some peer)
      (parsed : (t : Bytes) → parse_announce peer (query ++ b' ' ∷ t) ≡ returns (request ar))
      (calls : List Call) where
    answer_get-announce :
        (t : Bytes)
        → answer_get server interval conn (codes "announce" ++ (query ++ b' ' ∷ t)) calls
          ≡ tracked server ar interval calls
    unfolding answer_get strncmp_equal answer_announce ◌>>=◌
    answer_get-announce t = rw (known, parsed t) refl

    answer_bytes-announce :
        length conn.buf ≡ 1024
        → length bytes < most
        → answer_bytes server interval conn bytes calls ≡ tracked server ar interval calls
    unfolding answer_bytes strncmp_equal ◌>>=◌
    answer_bytes-announce size fits =
        let (t, ended) = end_buffer_lem conn.buf bytes (omega (arith, size, fits)) in
        let in_bounds : (length bytes == 0 || length bytes == most) ≡ false =
          ground (arith, fits) in
        rw (in_bounds, ended)
          (ap (λ s. answer_get server interval conn (codes "announce" ++ s) calls)
              (append_assoc query (b' ' ∷ rest) (0 ∷ t))
            ∙ answer_get-announce (rest ++ 0 ∷ t))

    -- `parse_socket` for what `recv` returned
    abbrev on_bytes : Option Bytes → Session Handled
    on_bytes none = without_calls fault
    on_bytes (some bytes) = do
      answered ← answer_bytes server interval conn bytes
      give (answered.0 || leb max_recv_iter conn.recv_iter, answered.1)

    pub parse_socket-announce :
        conn.peeked ≡ some bytes
        → length conn.buf ≡ 1024
        → length bytes < most
        → parse_socket server interval conn calls ≡ tracked server ar interval calls
    unfolding parse_socket ◌>>=◌
    parse_socket-announce peeked size fits =
        let late : Bool = leb max_recv_iter conn.recv_iter in
        ap (λ o. on_bytes o calls) peeked
        ∙ ap (λ r. go_on {B = Handled} r (λ answered. give (answered.0 || late, answered.1)))
            (answer_bytes-announce size fits)
        ∙ once_handled (track server ar interval calls) late

-- What is sent for the options of getpeers to a tracker with a host and a port.
abbrev pub sent_request :
    Bytes → Bytes → Bytes → Bytes → Option Bytes → Option Bytes → Option BtEvent → Bool → Bytes
sent_request tracker tracker_port h id local_port numwant event compact =
    request_text tracker tracker_port (
      joined (
        path_parts (codes "announce") (url_encode h) local_port numwant (url_encode id)
          (event_text event) compact))

-- What getpeers asks for, the tracker answers. For a hash and an id of 20 bytes and options that
-- are numbers below 2^64, when `recv` gives what `http_get` sends for the path `announce` with the
-- parameters of getpeers, less than 1023 bytes, and the address of the client is known, the
-- connection is handled and what is sent is the reply of `track` to an announce with: the encodings
-- of the hash and of the id, the address, the port of the option or 6969, converted to an `int`, the
-- number of the option or 50, clamped, the event if one was given, the flag for a compact reply as
-- it was set, nothing left, and not without ids.
pub parse_socket-asked :
    (server : Host) (interval : ℤ) (conn : Connection) (peer : Peer)
    (tracker tracker_port h id : Bytes) (local_port numwant : Option Bytes) (event : Option BtEvent)
    (compact : Bool) (calls : List Call)
    → conn.peer ≡ some peer
    → conn.peeked ≡ some (sent_request tracker tracker_port h id local_port numwant event compact)
    → length conn.buf ≡ 1024
    → length (sent_request tracker tracker_port h id local_port numwant event compact) < most
    → length h ≡ max_hash_len
    → length id ≡ max_hash_len
    → IsNumberOption local_port
    → IsNumberOption numwant
    → parse_socket server interval conn calls
      ≡ tracked server
          (announced peer
            (url_encode h)
            (or_text (codes "6969") local_port)
            (or_text (codes "50") numwant)
            (url_encode id)
            event
            compact)
          interval
          calls
parse_socket-asked server interval conn peer tracker tracker_port h id local_port numwant event
      compact calls known peeked size fits h_size id_size np nn =
    let behind : Bytes = drop 1 (joined (drop 2 (plain_parts tracker tracker_port []))) in
    let same = ap (request_text tracker tracker_port) (
      path_parts-query (codes "announce") (url_encode h) local_port numwant (url_encode id)
        (event_text event) compact) in
    parse_socket-announce server interval conn peer (asked h id local_port numwant event compact)
      behind _ known
      (λ t. parse_announce-asked peer h id local_port numwant event compact t h_size id_size np nn)
      calls (peeked ∙ ap some same) size (subst (λ s. length s < most) same fits)

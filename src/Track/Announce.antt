-- ===== src/Track/Announce.antt =====
-- track.c: `track` and `scrape`, over db.c. The rows that the database has for a torrent are a
-- parameter, without the calls that fetch them; the order in which `snprintf` gets its arguments in
-- `scrape`, which C leaves open, is the order they are written in. A reply is everything that is
-- sent, in one text.
use traccoon.CLib.Decimal.{decimal, print_int}
use traccoon.Db.Calls.{
  Library, Session, give, call, ◌>>=◌, finalize, query_torrent_peers, get_seed_count,
  get_completion_count, get_peers_count, int,
}
use traccoon.Db.{
  AnnounceRequest, db_nosuchhash, db_failed, get_torrent_id, prepared, update_peer,
  query_torrent_param,
}
use traccoon.Encoding.Url.{max_urlenc_hash_len}
use traccoon.Memory.{Run, returns, fault, out_of_fuel}
use traccoon.Neth.{http_headers, strtolower}
use traccoon.Track.{hex_hash, PeerRow, Network, buffer_size, text_equal, compact_reply}
use traccoon.Prelude.{
  ℕ, zero, suc, ◌+◌, ◌-◌, Bool, true, false, ◌&&◌, Option, none, some, List, [], ◌∷◌, ◌++◌, Bytes,
  codes, length, take, replicate, ◌==◌, if◌then◌else◌, ℤ, pos, negsuc, ==ℤ,
}

-- a run that makes no call of the database
abbrev pub without_calls {ℓ} : {A : Type ℓ} → Run A → Session A
without_calls (returns a) h = returns (a, h)
without_calls fault h = fault
without_calls out_of_fuel h = out_of_fuel

-- `STANDARD_HEADER`
abbrev pub standard_header : Bytes
standard_header = codes "X-LOLz-Had: much" ++ 13 ∷ 10 ∷ []

abbrev pub ok_headers : Bytes
ok_headers = http_headers (codes "200 OK") standard_header

abbrev pub unknown_hash : Bytes
unknown_hash = codes "d14:failure reason19:Hash not recognizede"

abbrev pub database_error : Bytes
database_error = codes "d14:failure reason20:Database error (TID)e"

abbrev pub server_error : Bytes
server_error = codes "d14:failure reason12:Server errore"

-- The text for a peer, before `snprintf` cuts it.
unfoldable pub peer_text : Bool → PeerRow → Bytes
peer_text no_peer_id row =
    codes "d2:ip"
    ++ ((decimal (length row.ip) ++ b':' ∷ row.ip)
        ++ (codes "4:porti"
            ++ (print_int row.port
                ++ (b'e'
                      ∷ (if no_peer_id
                          then []
                          else codes "7:peer id"
                            ++ (decimal (length row.peer_id) ++ b':' ∷ row.peer_id))
                    ++ b'e' ∷ []))))

-- The branch for a reply that is not compact, in the loop over at most `n` rows.
unfoldable pub send_dicts : Bool → Bytes → Bytes → ℕ → List PeerRow → Bytes
send_dicts no_peer_id ip peer_id zero rows = []
send_dicts no_peer_id ip peer_id (suc n) [] = []
send_dicts no_peer_id ip peer_id (suc n) (row ∷ rows) =
    let rest = send_dicts no_peer_id ip peer_id n rows in
    if text_equal ip row.ip && text_equal peer_id row.peer_id
    then rest
    else take (buffer_size - 2) (peer_text no_peer_id row) ++ rest

unfoldable pub dict_reply : Bool → Bytes → Bytes → ℕ → ℤ → List PeerRow → Bytes
dict_reply no_peer_id ip peer_id numwant interval rows =
    codes "d8:intervali"
    ++ (print_int interval
        ++ (codes "e5:peersl" ++ (send_dicts no_peer_id ip peer_id numwant rows ++ codes "ee")))

-- the rounds of a loop up to an `int`
abbrev pub rounds_up_to : ℤ → ℕ
rounds_up_to (pos n) = n
rounds_up_to (negsuc n) = 0

-- What is sent for the peers.
unfoldable pub peers_reply : Network → AnnounceRequest → ℤ → List PeerRow → Run Bytes
peers_reply net ar interval rows =
    if ar.compact
    then compact_reply net ar.ip ar.peer_id (rounds_up_to ar.numwant) interval rows
    else returns (dict_reply ar.no_peer_id ar.ip ar.peer_id (rounds_up_to ar.numwant) interval rows)

-- The request behind `strtolower` and the conversion of the hash.
abbrev pub prepared_request : AnnounceRequest → Bytes → AnnounceRequest
prepared_request ar hash = record {
  info_hash = hash;
  peer_id = ar.peer_id;
  ip = strtolower ar.ip;
  port = ar.port;
  protover = ar.protover;
  event = ar.event;
  left = ar.left;
  compact = ar.compact;
  no_peer_id = ar.no_peer_id;
  numwant = ar.numwant;
}

-- the string in an array
abbrev pub text_in : Bytes → Bytes
text_in [] = []
text_in (x ∷ s) = if x == 0 then [] else x ∷ text_in s

-- what the function gets from outside
pub record Host : Type 0 where
  pub library : Library
  pub network : Network
  -- the rows of `QUERY_TORRENT_PEERS` for a torrent
  pub peers_of : ℤ → List PeerRow
  -- what the local array of `hashEncodeHex` holds when it is called
  pub local : Bytes

-- From the statement for the peers on.
unfoldable pub answer_peers : Host → AnnounceRequest → ℤ → ℤ → Session Bytes
answer_peers host ar interval torrent = do
  ready ← prepared host.library query_torrent_peers (int torrent ∷ [])
  elim ready [
    | false ↦ give server_error
    | true ↦ do
      reply ← without_calls (peers_reply host.network ar interval (host.peers_of torrent))
      done ← call host.library (finalize query_torrent_peers)
      updated ← update_peer host.library 2 torrent ar
      give reply
  ]

-- The array `info_hash`, which was cleared before the text was copied to it.
abbrev pub hash_array : Bytes → Bytes
hash_array text = text ++ replicate (max_urlenc_hash_len + 1 - length text) 0

-- The switch on the id of the torrent.
unfoldable pub answer_for : ℤ → Session Bytes → Session Bytes
answer_for torrent found = elim (==ℤ torrent db_nosuchhash) [
  | true ↦ give unknown_hash
  | false ↦ elim (==ℤ torrent db_failed) [ true ↦ give database_error | false ↦ found ]
]

unfoldable pub track : Host → AnnounceRequest → ℤ → Session Bytes
track host ar interval = do
  hash ← without_calls (hex_hash host.local (hash_array ar.info_hash))
  torrent ← get_torrent_id host.library (text_in hash)
  reply ←
      answer_for torrent (answer_peers host (prepared_request ar (text_in hash)) interval torrent)
  give (ok_headers ++ reply)

-- The text of a reply to a scrape, for a hash and the numbers of seeds, of downloads and of peers.
unfoldable pub scrape_text : Bytes → ℤ → ℤ → ℤ → Bytes
scrape_text hash seeds downloads peers =
    codes "d5:files"
    ++ (decimal (length hash)
        ++ (b':' ∷ hash
            ++ (codes "d8:completei"
                ++ (print_int seeds
                    ++ (codes "e10:downloadedi"
                        ++ (print_int downloads
                            ++ (codes "e10:incompletei" ++ (print_int peers ++ codes "eee"))))))))

-- `sizeof(buf)-2`, the bytes that `snprintf` may print in `scrape`
abbrev pub scrape_room : ℕ
scrape_room = 510

unfoldable pub scrape_numbers : Host → Bytes → ℤ → Session Bytes
scrape_numbers host hash torrent = do
  seeds ← query_torrent_param host.library get_seed_count torrent
  downloads ← query_torrent_param host.library get_completion_count torrent
  peers ← query_torrent_param host.library get_peers_count torrent
  give (take scrape_room (scrape_text hash seeds downloads peers))

-- For the hex digits of a hash, or NULL.
unfoldable pub scrape : Host → Option Bytes → Session Bytes
scrape host none = give (http_headers (codes "501 Not Implemented") standard_header)
scrape host (some hash) = do
  torrent ← get_torrent_id host.library hash
  reply ← answer_for torrent (scrape_numbers host hash torrent)
  give (ok_headers ++ reply)

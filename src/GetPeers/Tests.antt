-- ===== src/GetPeers/Tests.antt =====
-- Requests and replies between getpeers and the tracker, and a hash that was read.
use traccoon.Track.{PeerRow, Network, text_equal, compact_reply}
use traccoon.Track.Replies.{others}
use traccoon.Track.Announce.{ok_headers}
use traccoon.GetPeers.Reply.{list_response}
use traccoon.GetPeers.Packed.{peer_lines}
use traccoon.GetPeers.Dictionary.{printed}
use traccoon.GetPeers.Listing.{list_response-compact_reply}
use traccoon.Comm.Request.{Peer}
use traccoon.Comm.Socket.{Connection, parse_socket}
use traccoon.Comm.Params.{event_name}
use traccoon.Db.{completed}
use traccoon.Db.Sample.{small}
use traccoon.Track.Announce.{Host}
use traccoon.GetPeers.Announced.{announced}
use traccoon.GetPeers.Asked.{sent_request, tracked, parse_socket-asked}
use traccoon.Db.{completed}
use traccoon.CLib.Decimal.{decimal}
use traccoon.Encoding.Hex.{hex_encode}
use traccoon.Encoding.Hex.Encode.{are_bytes-IsByte}
use traccoon.Encoding.Url.{url_encode, encode_byte}
use traccoon.GetPeers.Hash.{encode_hash-url_encode}
use traccoon.GetPeers.Options.{encode_hash}
use traccoon.GetPeers.Query.{RequestRead, path_parts-RequestRead, most_behind, or_text, flag}
use traccoon.GetPeers.{path_parts}
use traccoon.NetLib.Merge.{joined}
use traccoon.Memory.{returns, Fills}
use traccoon.Track.Announce.{text_in}
use traccoon.Prelude.{
  uint16, take, ◌≡◌, refl, true, false, none, some, List, [], ◌∷◌, ◌++◌, Bytes, codes, length, drop,
  replicate, pos, arith, if◌then◌else◌,
}

abbrev hash : Bytes
hash = 0 ∷ 200 ∷ codes "cdefghijklmnopqrst"

array-Fills : Fills 61 (hex_encode hash ++ 0 ∷ replicate 20 7) (hex_encode hash ++ 0 ∷ [])
unfolding hex_encode
array-Fills = record { written = refl; total = refl }

encode_hash-url_encode_example :
    (result : Bytes) × (encode_hash (replicate 61 9) (hex_encode hash ++ 0 ∷ replicate 20 7)
      ≡ returns result)
    × (text_in result ≡ url_encode hash)
unfolding url_encode encode_byte
encode_hash-url_encode_example =
    encode_hash-url_encode (replicate 61 9) (hex_encode hash ++ 0 ∷ replicate 20 7) hash refl
      array-Fills refl (are_bytes-IsByte hash refl) (omega arith)

path_parts-RequestRead_example :
    (behind : Bytes) × RequestRead
      (drop (length (codes "/announce")) (
        take most_behind (
          joined (
            path_parts
              (codes "/announce")
              (url_encode (codes "abcd &=%efghijklmnop"))
              (some (codes "7000"))
              none
              (url_encode (codes "-TC0010-abcdefghijkl"))
              (some (codes "started"))
              true)
          ++ 0 ∷ codes "HTTP/1.1")))
      (url_encode (codes "abcd &=%efghijklmnop"))
      (or_text (codes "6969") (some (codes "7000")))
      (or_text (codes "50") none)
      (url_encode (codes "-TC0010-abcdefghijkl"))
      (some (codes "started"))
      (flag true)
      behind
unfolding path_parts url_encode encode_byte
path_parts-RequestRead_example =
    path_parts-RequestRead (codes "/announce") (codes "abcd &=%efghijklmnop") (some (codes "7000"))
      none (codes "-TC0010-abcdefghijkl") (some (codes "started")) true (codes "HTTP/1.1")
      (omega arith) tt (omega arith) (omega arith)

abbrev client : Peer
client = record { address = codes "10.0.0.1"; is_ipv6 = false }

abbrev server : Host
server = record {
  library = small;
  network = record { pton4 = λ t. none; pton6 = λ t. none };
  peers_of = λ t. [];
  local = replicate 41 0;
}

abbrev peer_id : Bytes
peer_id = codes "-TC0010-abcdefghijkl"

abbrev sent : Bytes
sent =
    sent_request (codes "tracker.example") (codes "6969") hash peer_id (some (codes "70000"))
      (some (codes "0")) (some completed) false

abbrev connection : Connection
connection = record {
  peeked = some sent;
  buf = replicate 1024 7;
  hashbuf = replicate 61 7;
  peer = some client;
  recv_iter = 0;
}

parse_socket-asked_example :
    parse_socket server (pos 300) connection []
    ≡ tracked server
        (announced client
          (url_encode hash)
          (codes "70000")
          (codes "0")
          (url_encode peer_id)
          (some completed)
          false)
        (pos 300)
        []
unfolding url_encode encode_byte path_parts event_name
parse_socket-asked_example =
    parse_socket-asked server (pos 300) connection client (codes "tracker.example") (codes "6969")
      hash peer_id (some (codes "70000")) (some (codes "0")) (some completed) false [] refl refl
      refl (omega arith) refl refl
      ((_, _, refl, (omega arith, omega arith), omega arith), omega arith)
      ((_, _, refl, (omega arith, omega arith), omega arith), omega arith)

-- the texts of addresses
abbrev dotted : Bytes → Bytes
dotted [] = []
dotted (a ∷ []) = decimal a
dotted (a ∷ s) = decimal a ++ (b'.' ∷ dotted s)

abbrev swarm : List PeerRow
swarm =
    record { peer_id = codes "abc"; ip = codes "10.0.0.1"; port = pos 6881; proto = pos 4 }
    ∷ record { peer_id = codes "abd"; ip = codes "10.0.0.1"; port = pos 51413; proto = pos 4 }
    ∷ record { peer_id = codes "abc"; ip = codes "10.0.0.2"; port = pos 80; proto = pos 4 }
    ∷ []

abbrev addresses : Network
addresses = record {
  pton4 = λ t.
      some (if text_equal t (codes "10.0.0.1") then 10 ∷ 0 ∷ 0 ∷ 1 ∷ [] else 10 ∷ 0 ∷ 0 ∷ 2 ∷ []);
  pton6 = λ t. none;
}

list_response-compact_reply_example :
    (reply : Bytes) × (compact_reply addresses (codes "10.0.0.1") (codes "abd") 50 (pos 600) swarm
      ≡ returns reply)
    × (list_response (λ s. some (dotted s)) 400 (ok_headers ++ (reply ++ 0 ∷ []))
        ≡ returns
            (pos 0, printed 600 (peer_lines (others (codes "10.0.0.1") (codes "abd") 50 swarm))))
unfolding decimal text_equal uint16
list_response-compact_reply_example =
    list_response-compact_reply addresses (λ s. some (dotted s)) dotted (codes "10.0.0.1")
      (codes "abd") 50 600 400 swarm [] (λ s. refl)
      (
        (_, refl, refl, refl, refl, refl),
        ((_, refl, refl, refl, refl, refl), ((_, refl, refl, refl, refl, refl), tt)),
      )
      (omega arith) (omega arith) (omega arith) (omega arith)

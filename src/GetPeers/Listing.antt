-- ===== src/GetPeers/Listing.antt =====
-- getpeers on the compact reply of the tracker: the interval, and each peer with its address and its
-- port.
use traccoon.GetPeers.Dictionary.{list_body-listing, printed}
use traccoon.Benc.Shape.{limit, length-dict, length-field, length-num, encode_fields-end}
use traccoon.Benc.Value.{num, str, dict, Fields, end, field, encode, encode_string}
use traccoon.CLib.Decimal.{decimal, print_int, length-decimal-ten}
use traccoon.GetPeers.Compact.{length-packed, Entry, packed}
use traccoon.GetPeers.Reply.{list_response, response_body}
use traccoon.Memory.{returns, bind-returns}
use traccoon.Track.Compact.{answer, compact_reply-answer}
use traccoon.CLib.{strstr, starts_with}
use traccoon.Neth.{http_headers}
use traccoon.Track.Announce.{ok_headers}
use traccoon.Track.Replies.{others}
use traccoon.Track.{PeerRow, Network, compact_reply}
use traccoon.GetPeers.Packed.{
  IsShown, entries, peer_lines, entries-IsEntry, lines-entries, others-IsShown, push_peers-packed,
}
use traccoon.Prelude.{
  ℕ, zero, suc, ◌+◌, ◌<◌, ◌≤◌, ◌≡◌, refl, ap, ◌∙◌, Option, some, List, [], ◌∷◌, ◌++◌, Bytes, codes,
  length, All, pos, arith, length-append,
}

-- The headers of the tracker end at the first empty line.
response_body-ok_headers :
    (body : Bytes) → response_body (ok_headers ++ body) ≡ returns (some (length ok_headers))
unfolding response_body strstr starts_with http_headers
response_body-ok_headers body = refl

length-encode_string : (s : Bytes) → length s < 1000 → length (encode_string s) ≤ length s + 4
unfolding encode_string
length-encode_string s small =
    omega
      (arith, length-append (decimal (length s)) (b':' ∷ s), length-decimal-ten 2 (length s) small)

encode-str : (s : Bytes) → encode (str s) ≡ encode_string s
unfolding encode
encode-str s = refl

-- A reply with at most 300 bytes of addresses is short.
length-reply :
    (interval : ℕ) (b4 : Bytes)
    → interval < limit
    → length b4 ≤ 300
    → length (encode (dict (answer (pos interval) b4 []))) ≤ 400
unfolding answer print_int
length-reply interval b4 is_int short =
    let peers : Fields = field (codes "peers") (str b4) end in
    omega (
      arith,
      short,
      length-dict (answer (pos interval) b4 []),
      length-field (codes "interval") (num (pos interval)) peers,
      length-field (codes "peers") (str b4) end,
      length-num (pos interval),
      length-decimal-ten 9 interval (omega (arith, is_int)),
      length-encode_string (codes "interval") (omega arith),
      length-encode_string (codes "peers") (omega arith),
      length-encode_string b4 (omega (arith, short)),
      ap length (encode-str b4),
      ap length encode_fields-end,
    )

length-others :
    (ip peer_id : Bytes) (n : ℕ) (rows : List PeerRow) → length (others ip peer_id n rows) ≤ n
unfolding others
length-others ip peer_id zero rows = omega arith
length-others ip peer_id (suc n) [] = omega arith
length-others ip peer_id (suc n) (row ∷ rows) = ground (arith, length-others ip peer_id n rows)

length-entries : (net : Network) (rows : List PeerRow) → length (entries net rows) ≡ length rows
length-entries net [] = refl
length-entries net (row ∷ rows) = omega (arith, length-entries net rows)

-- What the tracker answers, getpeers lists. For rows of peers of IPv4 whose addresses `inet_pton`
-- reads and `inet_ntop` prints again and whose ports have 16 bits, of which at most 50 are asked for,
-- an interval of two digits or more that is an `int`, and a fuel of 400: the compact reply fits its
-- buffers, and for what `track` sends with it, getpeers ends with 0 and prints the interval and, for
-- each row that is looked at but the peer that asks, its address and its port, in order.
pub list_response-compact_reply :
    (net : Network) (ntop : Bytes → Option Bytes) (show_address : Bytes → Bytes)
    (ip peer_id : Bytes) (numwant interval fuel : ℕ) (rows : List PeerRow) (rest : Bytes)
    → ((s : Bytes) → ntop s ≡ some (show_address s))
    → All (IsShown net show_address) rows
    → numwant ≤ 50
    → 9 < interval
    → interval < limit
    → 400 ≤ fuel
    → (reply : Bytes) × (compact_reply net ip peer_id numwant (pos interval) rows ≡ returns reply)
      × (list_response ntop fuel (ok_headers ++ (reply ++ 0 ∷ rest))
          ≡ returns (pos 0, printed interval (peer_lines (others ip peer_id numwant rows))))
unfolding list_response http_headers
list_response-compact_reply net ntop show_address ip peer_id numwant interval fuel rows rest shows
      shown few two_digits is_int enough =
    let them = others-IsShown net show_address ip peer_id numwant rows shown in
    let es : List Entry = entries net (others ip peer_id numwant rows) in
    let are_entries = entries-IsEntry net show_address _ them in
    let reply : Bytes = encode (dict (answer (pos interval) (packed es) [])) in
    let size : length (packed es) ≤ 300 = omega (
      arith,
      few,
      length-packed es are_entries,
      length-entries net (others ip peer_id numwant rows),
      length-others ip peer_id numwant rows,
    ) in
    let short = length-reply interval (packed es) is_int size in
    let sent =
      compact_reply-answer net ip peer_id numwant (pos interval) rows
        (push_peers-packed net show_address ip peer_id numwant rows [] [] shown (omega arith)) size
        (omega arith) in
    let body =
      list_body-listing ntop show_address shows es are_entries interval two_digits is_int fuel
        (ok_headers ++ (reply ++ 0 ∷ rest)) (length ok_headers) (0 ∷ rest) refl
        (omega (arith, short, enough)) (omega (arith, short)) in
    (
      reply,
      sent,
      bind-returns _ (response_body-ok_headers (reply ++ 0 ∷ rest)) (
          body
          ∙ ap (λ t. returns (pos 0, printed interval t)) (lines-entries net show_address _ them)),
    )

-- ===== src/GetPeers/Announced.antt =====
-- The request of getpeers as `parseSocket` of comm.c takes it apart: from the options to the record
-- that the tracker answers.
use traccoon.GetPeers.Values.{
  query-IsInside, IsNumber, IsNumberOption, number-IsValueByte, ends_param-is_digit, or_event,
  event_text, event_read, event-AllValue, numwant_read, flag_read, IsNumber-or_text,
}
use traccoon.CLib.Decimal.{value}
use traccoon.Comm.Flags.{parse_flag-missing}
use traccoon.Comm.Request.{
  cut_at_space, parse_number, Peer, Parsed, request, parse_params, parse_announce,
}
use traccoon.Comm.Values.{
  cut_at_space-text, hash_length-url_encode, copy_param-url_encode, parse_number-value,
}
use traccoon.Comm.{clamp_numwant}
use traccoon.Db.{AnnounceRequest, BtEvent}
use traccoon.Encoding.Hex.{max_hash_len}
use traccoon.Encoding.Url.Plain.{IsValueByte, url_encode-IsValueByte}
use traccoon.Encoding.Url.{url_encode}
use traccoon.GetPeers.Query.{
  flag-IsValueByte, RequestRead, AllValue, parameters, or_text, flag, query-RequestRead,
}
use traccoon.Memory.{returns, bind-returns}
use traccoon.Neth.Query.{query}
use traccoon.Prelude.{
  ◌≡◌, refl, Bool, false, Option, none, some, ◌∷◌, ◌++◌, Bytes, codes, length, All, if◌then◌else◌,
  pos, to_int, arith,
}

-- What an announce says, of one with a value in each place.
abbrev pub announced :
    Peer → Bytes → Bytes → Bytes → Bytes → Option BtEvent → Bool → AnnounceRequest
announced peer info_hash port numwant peer_id event compact = record {
  info_hash = info_hash;
  peer_id = peer_id;
  ip = peer.address;
  port = to_int (pos (value 0 port));
  protover = if peer.is_ipv6 then pos 6 else pos 4;
  event = or_event event;
  left = pos 0;
  compact = compact;
  no_peer_id = false;
  numwant = clamp_numwant (to_int (pos (value 0 numwant)));
}

module _ (peer : Peer) (h id port numwant : Bytes) (event : Option BtEvent) (compact : Bool)
    (behind : Bytes) (h_size : length h ≡ max_hash_len) (id_size : length id ≡ max_hash_len)
    (port_number : IsNumber port) (numwant_number : IsNumber numwant) (text : Bytes)
    (r : RequestRead text
      (url_encode h)
      port
      numwant
      (url_encode id)
      (event_text event)
      (flag compact)
      behind) where
  abbrev result : Parsed AnnounceRequest
  result = request (announced peer (url_encode h) port numwant (url_encode id) event compact)

  parse_params-announced :
      parse_params peer text
        (url_encode h ++ r.info_hash.0 ∷ r.info_hash.1)
        (url_encode id ++ r.peer_id.0 ∷ r.peer_id.1)
        (port ++ r.port_text.0 ∷ r.port_text.1)
      ≡ returns result
  unfolding parse_params
  parse_params-announced =
      let (event_found, found, event_parsed) = event_read text event r.event_text in
      let (c_h, t_h, _, measured_h, _) = r.info_hash in
      let (c_i, t_i, _, measured_i, _) = r.peer_id in
      let (c_n, t_n, numwant_found, _, ends_n) = r.numwant_text in
      let (c_p, t_p, _, _, ends_p) = r.port_text in
      bind-returns _ found (
        bind-returns _ numwant_found (
          bind-returns _ r.left_text (
            bind-returns _ (flag_read text behind compact r.compact_text) (
              bind-returns _
                (parse_flag-missing text (codes "no_peer_id=") (codes "1") r.no_peer_id_text)
                (bind-returns _ event_parsed (
                  bind-returns _ (hash_length-url_encode h t_h c_h h_size measured_h) (
                    bind-returns _ (hash_length-url_encode id t_i c_i id_size measured_i) (
                      bind-returns _ (copy_param-url_encode h (c_h ∷ t_h) h_size) (
                        bind-returns _ (copy_param-url_encode id (c_i ∷ t_i) id_size) (
                          bind-returns _
                            (parse_number-value port t_p c_p port_number.0
                              (ends_param-is_digit c_p ends_p) port_number.1)
                            (bind-returns _ (numwant_read numwant t_n c_n numwant_number ends_n)
                              (unfold parse_number in refl))))))))))))

  parse_announce-announced :
      (sent : Bytes)
      → cut_at_space sent ≡ returns (some text)
      → parse_announce peer sent ≡ returns result
  unfolding parse_announce
  parse_announce-announced sent cut =
      let (_, _, hash_found, _, _) = r.info_hash in
      let (_, _, peer_id_found, _, _) = r.peer_id in
      let (_, _, port_found, _, _) = r.port_text in
      bind-returns _ cut (
        bind-returns _ hash_found
          (bind-returns _ peer_id_found (bind-returns _ port_found parse_params-announced)))

-- The request ends at the first space behind what getpeers writes.
request_cut :
    (hash port numwant peerid : Bytes) (event : Option Bytes) (compact rest : Bytes)
    → All IsValueByte hash
    → All IsValueByte port
    → All IsValueByte numwant
    → All IsValueByte peerid
    → AllValue event
    → All IsValueByte compact
    → cut_at_space (query b'?' (parameters hash port numwant peerid event compact) ++ b' ' ∷ rest)
      ≡ returns (some (query b'?' (parameters hash port numwant peerid event compact) ++ 0 ∷ rest))
request_cut hash port numwant peerid none compact rest ph pp pn pi pe pc =
    cut_at_space-text _ rest (
      query-IsInside b'?' (parameters hash port numwant peerid none compact)
        (omega arith, omega arith)
        (omega arith, (omega arith, (omega arith, (omega arith, (omega arith, tt)))))
        (ph, (pp, (pn, (pi, (pc, tt))))))
request_cut hash port numwant peerid (some event) compact rest ph pp pn pi pe pc =
    cut_at_space-text _ rest (
      query-IsInside b'?' (parameters hash port numwant peerid (some event) compact)
        (omega arith, omega arith)
        (omega arith, (omega arith, (omega arith, (omega arith, (omega arith, (omega arith, tt))))))
        (ph, (pp, (pn, (pi, (pe, (pc, tt)))))))

-- What getpeers writes for its options, as a query.
abbrev pub asked : Bytes → Bytes → Option Bytes → Option Bytes → Option BtEvent → Bool → Bytes
asked h id local_port numwant event compact = query b'?' (
    parameters (url_encode h) (or_text (codes "6969") local_port) (or_text (codes "50") numwant)
      (url_encode id) (event_text event) (flag compact))

-- The query, which ends at a space, is accepted as an announce with the values of the options.
pub parse_announce-asked :
    (peer : Peer) (h id : Bytes) (local_port numwant : Option Bytes) (event : Option BtEvent)
    (compact : Bool) (rest : Bytes)
    → length h ≡ max_hash_len
    → length id ≡ max_hash_len
    → IsNumberOption local_port
    → IsNumberOption numwant
    → parse_announce peer (asked h id local_port numwant event compact ++ b' ' ∷ rest)
      ≡ returns (
          request (
            announced peer
              (url_encode h)
              (or_text (codes "6969") local_port)
              (or_text (codes "50") numwant)
              (url_encode id)
              event
              compact))
parse_announce-asked peer h id local_port numwant event compact rest h_size id_size np nn =
    let port = or_text (codes "6969") local_port in
    let number = or_text (codes "50") numwant in
    let port_number : IsNumber port =
      IsNumber-or_text (codes "6969") local_port
        ((_, _, refl, (omega arith, omega arith), omega arith), omega arith) np in
    let number_number : IsNumber number =
      IsNumber-or_text (codes "50") numwant
        ((_, _, refl, (omega arith, omega arith), omega arith), omega arith) nn in
    let ph = url_encode-IsValueByte h in
    let pi = url_encode-IsValueByte id in
    let pp = number-IsValueByte port port_number in
    let pn = number-IsValueByte number number_number in
    let pe = event-AllValue event in
    let pc = flag-IsValueByte compact in
    parse_announce-announced peer h id port number event compact rest h_size id_size port_number
      number_number _
      (query-RequestRead rest (url_encode h) port number (url_encode id) (flag compact) ph pp pn pi
        pc (event_text event) pe)
      _
      (request_cut (url_encode h) port number (url_encode id) (event_text event) (flag compact) rest
        ph pp pn pi pe pc)

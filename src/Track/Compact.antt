-- ===== src/Track/Compact.antt =====
-- The compact reply is bencoded, and fits its buffers.
use traccoon.Benc.Value.{num, str, dict, Fields, end, field, encode, encode_string, encode_fields}
use traccoon.CLib.Decimal.{decimal, print_int, length-decimal-ten}
use traccoon.Memory.{Run, returns}
use traccoon.Track.{
  PeerRow, Network, buffer_size, text_equal, append_to, port_bytes, push_address, push_peer,
  push_peers, headed, compact_reply,
}
use traccoon.Prelude.{
  ℕ, zero, suc, ◌+◌, ◌*◌, ◌≤◌, ◌≡◌, refl, ap, ◌∙◌, sym, inl, inr, Bool-cases, ◌&&◌, Option, none,
  some, List, [], ◌∷◌, ◌++◌, Bytes, codes, length, ltb, if◌then◌else◌, ℤ, pos, ==ℤ, uint16, arith,
  length-append, append_assoc, append-nil,
}

-- `inet_pton` gives an address of 4 bytes, or of 16.
unfoldable pub IsAddress : ℕ → Option Bytes → Type 0
IsAddress n none = Unit
IsAddress n (some a) = length a ≡ n

abbrev pub Pton : ℕ → (Bytes → Option Bytes) → Type 0
Pton n pton = (text : Bytes) → IsAddress n (pton text)

push_address_lem :
    (buf : Bytes) (n : ℕ) (o : Option Bytes) (port : ℕ)
    → IsAddress n o
    → length buf + (n + 2) ≤ buffer_size
    → (b : Bytes) × (push_address buf o port ≡ returns b) × (length b ≤ length buf + (n + 2))
unfolding push_address append_to IsAddress
push_address_lem buf n none port _ fits = (buf, refl, omega arith)
push_address_lem buf n (some a) port size fits =
    let len = length-append buf a in
    let len' = length-append (buf ++ a) (port_bytes port) in
    ((buf ++ a) ++ port_bytes port, ground (arith, len, len', size), omega (arith, len, len', size))

-- What the loop leaves, when it starts at buffers with room for `n` peers more.
Fits : ℕ → Bytes → Bytes → Run (Bytes × Bytes) → Type 0
Fits n buf4 buf6 r =
    (b4 : Bytes) × (b6 : Bytes) × (r ≡ returns (b4, b6))
    × (length b4 ≤ length buf4 + n * 6)
    × (length b6 ≤ length buf6 + n * 18)

module _ (net : Network) (four : Pton 4 net.pton4) (six : Pton 16 net.pton6) where
  push_peer_lem :
      (row : PeerRow) (buf4 buf6 : Bytes)
      → length buf4 + 6 ≤ buffer_size
      → length buf6 + 18 ≤ buffer_size
      → Fits 1 buf4 buf6 (push_peer net row buf4 buf6)
  unfolding Fits push_peer
  push_peer_lem row buf4 buf6 room4 room6 = elim (Bool-cases (==ℤ row.proto (pos 4))) [
    | inl v4 ↦
        let (b, e, le) =
          push_address_lem buf4 4 (net.pton4 row.ip) (uint16 row.port) (four row.ip) room4 in
        rw (v4, e) (b, buf6, refl, omega arith, omega arith)
    | inr v6 ↦
        let (b, e, le) =
          push_address_lem buf6 16 (net.pton6 row.ip) (uint16 row.port) (six row.ip) room6 in
        rw (v6, e) (buf4, b, refl, omega arith, omega arith)
  ]

  push_peers_lem :
      (ip peer_id : Bytes) (n : ℕ) (rows : List PeerRow) (buf4 buf6 : Bytes)
      → length buf4 + n * 6 ≤ buffer_size
      → length buf6 + n * 18 ≤ buffer_size
      → Fits n buf4 buf6 (push_peers net ip peer_id n rows buf4 buf6)
  unfolding Fits push_peers
  push_peers_lem ip peer_id zero rows buf4 buf6 room4 room6 =
      (buf4, buf6, refl, omega arith, omega arith)
  push_peers_lem ip peer_id (suc n) [] buf4 buf6 room4 room6 =
      (buf4, buf6, refl, omega arith, omega arith)
  push_peers_lem ip peer_id (suc n) (row ∷ rows) buf4 buf6 room4 room6 =
      elim (Bool-cases (text_equal ip row.ip && text_equal peer_id row.peer_id)) [
        | inl own ↦
            let (b4, b6, e, le4, le6) =
              push_peers_lem ip peer_id n rows buf4 buf6 (omega arith) (omega arith) in
            rw (own, e) (b4, b6, refl, omega arith, omega arith)
        | inr other ↦
            let (p4, p6, pushed, l4, l6) =
              push_peer_lem row buf4 buf6 (omega arith) (omega arith) in
            let (b4, b6, e, le4, le6) =
              push_peers_lem ip peer_id n rows p4 p6 (omega arith) (omega arith) in
            rw (other, pushed, e) (b4, b6, refl, omega arith, omega arith)
      ]

-- the answer to an announce, as a value of the format
unfoldable pub answer : ℤ → Bytes → Bytes → Fields
answer interval b4 b6 = field (codes "interval") (num interval) (
    field (codes "peers") (str b4)
      (if ltb 0 (length b6) then field (codes "peers_ipv6") (str b6) end else end))

headed_lem :
    (head bytes : Bytes)
    → length head + length bytes ≤ buffer_size
    → headed head bytes ≡ returns (head ++ bytes)
unfolding headed append_to
headed_lem head bytes fits = ground arith

abbrev peers_6 : Bytes → Fields
peers_6 b6 = if ltb 0 (length b6) then field (codes "peers_ipv6") (str b6) end else end

-- the second part: the addresses of the other family, if there are any
part6_lem :
    (b6 : Bytes)
    → length b6 ≤ 900
    → (if ltb 0 (length b6)
        then headed (codes "10:peers_ipv6" ++ (decimal (length b6) ++ b':' ∷ [])) b6
        else returns [])
      ≡ returns (encode_fields (peers_6 b6))
unfolding encode_fields encode_string decimal
part6_lem b6 le = elim (Bool-cases (ltb 0 (length b6))) [
  | inl more ↦
      let digits = length-decimal-ten 2 (length b6) (omega arith) in
      let len = length-append (decimal (length b6)) (b':' ∷ []) in
      rw more (
        headed_lem (codes "10:peers_ipv6" ++ (decimal (length b6) ++ b':' ∷ [])) b6
          (omega (arith, digits, len))
        ∙ ap (λ s. returns (codes "10:peers_ipv6" ++ s))
            (append_assoc (decimal (length b6)) (b':' ∷ []) b6
              ∙ sym (append-nil (decimal (length b6) ++ b':' ∷ b6))))
  | inr none_left ↦ rw none_left refl
]

text_lem :
    (p d b fields close : Bytes)
    → p ++ (codes "e5:peers" ++ (((d ++ b':' ∷ []) ++ b) ++ (fields ++ close)))
      ≡ ((p ++ b'e' ∷ []) ++ (codes "5:peers" ++ ((d ++ b':' ∷ b) ++ fields))) ++ close
text_lem p d b fields close = simp append_assoc refl

reply_text :
    (interval : ℤ) (b4 b6 : Bytes)
    → codes "d8:intervali"
        ++ (print_int interval
            ++ (codes "e5:peers"
                ++ (((decimal (length b4) ++ b':' ∷ []) ++ b4)
                    ++ (encode_fields (peers_6 b6) ++ b'e' ∷ []))))
      ≡ encode (dict (answer interval b4 b6))
unfolding encode encode_fields encode_string answer decimal
reply_text interval b4 b6 =
    ap (λ s. codes "d8:intervali" ++ s)
      (text_lem (print_int interval) (decimal (length b4)) b4 (encode_fields (peers_6 b6))
        (b'e' ∷ []))

-- Buffers with at most 50 addresses of each family make a reply.
pub compact_reply-answer :
    (net : Network) (ip peer_id : Bytes) (numwant : ℕ) (interval : ℤ) (rows : List PeerRow)
    {b4 b6 : Bytes}
    → push_peers net ip peer_id numwant rows [] [] ≡ returns (b4, b6)
    → length b4 ≤ 300
    → length b6 ≤ 900
    → compact_reply net ip peer_id numwant interval rows
      ≡ returns (encode (dict (answer interval b4 b6)))
unfolding compact_reply
compact_reply-answer net ip peer_id numwant interval rows {b4} {b6} pushed le4 le6 =
    let digits = length-decimal-ten 2 (length b4) (omega arith) in
    let len = length-append (decimal (length b4)) (b':' ∷ []) in
    let part4 = headed_lem (decimal (length b4) ++ b':' ∷ []) b4 (omega (arith, digits, len)) in
    rw (pushed, part4, part6_lem b6 le6) (ap returns (reply_text interval b4 b6))

pub compact_reply-encode :
    (net : Network) (ip peer_id : Bytes) (numwant : ℕ) (interval : ℤ) (rows : List PeerRow)
    → Pton 4 net.pton4
    → Pton 16 net.pton6
    → numwant ≤ 50
    → (b4 : Bytes) × (b6 : Bytes) × (compact_reply net ip peer_id numwant interval rows
        ≡ returns (encode (dict (answer interval b4 b6))))
      × (length b4 ≤ numwant * 6)
      × (length b6 ≤ numwant * 18)
unfolding Fits
compact_reply-encode net ip peer_id numwant interval rows four six bound =
    let (b4, b6, e, le4, le6) =
      push_peers_lem net four six ip peer_id numwant rows [] [] (omega arith) (omega arith) in
    (
      b4,
      b6,
      compact_reply-answer net ip peer_id numwant interval rows e (omega arith) (omega arith),
      omega arith,
      omega arith,
    )

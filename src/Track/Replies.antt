-- ===== src/Track/Replies.antt =====
-- What `track` sends for the peers of a torrent is bencoded.
use traccoon.Benc.Value.{
  num, str, list, dict, Items, nil, cons, Fields, end, field, encode, encode_string, encode_fields,
  encode_items,
}
use traccoon.CLib.Decimal.{decimal, print_int}
use traccoon.Db.{AnnounceRequest}
use traccoon.Memory.{returns}
use traccoon.Track.Announce.{
  peer_text, send_dicts, dict_reply, rounds_up_to, peers_reply, unknown_hash, database_error,
  server_error,
}
use traccoon.Track.Compact.{Pton, answer, compact_reply-encode}
use traccoon.Track.{PeerRow, Network, buffer_size, text_equal}
use traccoon.Prelude.{
  ℕ, zero, suc, ◌-◌, ◌≤◌, ◌≡◌, refl, ap, inl, inr, Bool, true, false, ◌&&◌, Bool-cases, List, [],
  ◌∷◌, Bytes, codes, length, take, All, if◌then◌else◌, ℤ, arith, append_assoc,
}

-- The rows among the first `n` that are not the peer that asks.
unfoldable pub others : Bytes → Bytes → ℕ → List PeerRow → List PeerRow
others ip peer_id zero rows = []
others ip peer_id (suc n) [] = []
others ip peer_id (suc n) (row ∷ rows) =
    let rest = others ip peer_id n rows in
    if text_equal ip row.ip && text_equal peer_id row.peer_id then rest else row ∷ rest

-- The dictionary for a peer, and the reply with one for each.
abbrev pub peer_fields : Bool → PeerRow → Fields
peer_fields no_peer_id row = field (codes "ip") (str row.ip) (
    field (codes "port") (num row.port)
      (if no_peer_id then end else field (codes "peer id") (str row.peer_id) end))

abbrev pub peer_items : Bool → List PeerRow → Items
peer_items no_peer_id [] = nil
peer_items no_peer_id (row ∷ rows) =
    cons (dict (peer_fields no_peer_id row)) (peer_items no_peer_id rows)

abbrev pub listing : Bool → ℤ → List PeerRow → Fields
listing no_peer_id interval rows =
    field (codes "interval") (num interval)
      (field (codes "peers") (list (peer_items no_peer_id rows)) end)

-- The text for a peer fits the buffer that it is printed to.
abbrev pub IsShort : Bool → PeerRow → Type 0
IsShort no_peer_id row = length (peer_text no_peer_id row) ≤ buffer_size - 2

take-whole : (n : ℕ) (s : Bytes) → length s ≤ n → take n s ≡ s
take-whole zero [] le = refl
take-whole (suc n) [] le = refl
take-whole zero (x ∷ s) le = absurd (omega arith)
take-whole (suc n) (x ∷ s) le = ap (◌∷◌ x) (take-whole n s (omega arith))

peer_text-encode :
    (no_peer_id : Bool) (row : PeerRow)
    → peer_text no_peer_id row ≡ encode (dict (peer_fields no_peer_id row))
unfolding peer_text encode encode_fields encode_string decimal print_int
peer_text-encode true row = simp append_assoc refl
peer_text-encode false row = simp append_assoc refl

send_dicts-others :
    (no_peer_id : Bool) (ip peer_id : Bytes) (n : ℕ) (rows : List PeerRow)
    → All (IsShort no_peer_id) rows
    → send_dicts no_peer_id ip peer_id n rows
      ≡ encode_items (peer_items no_peer_id (others ip peer_id n rows))
unfolding send_dicts others encode_items
send_dicts-others no_peer_id ip peer_id zero rows short = refl
send_dicts-others no_peer_id ip peer_id (suc n) [] short = refl
send_dicts-others no_peer_id ip peer_id (suc n) (row ∷ rows) (fits, short) =
    elim (Bool-cases (text_equal ip row.ip && text_equal peer_id row.peer_id)) [
      | inl own ↦ rw (own) (send_dicts-others no_peer_id ip peer_id n rows short)
      | inr other ↦
          rw
            (
              other,
              take-whole (buffer_size - 2) (peer_text no_peer_id row) fits,
              peer_text-encode no_peer_id row,
              send_dicts-others no_peer_id ip peer_id n rows short,
            )
            refl
    ]

-- The reply that is not compact is the bencoding of a dictionary with the interval and a list that
-- has a dictionary for each peer but the one that asks, when the text for each peer is at most 1022
-- bytes long.
pub dict_reply-encode :
    (no_peer_id : Bool) (ip peer_id : Bytes) (n : ℕ) (interval : ℤ) (rows : List PeerRow)
    → All (IsShort no_peer_id) rows
    → dict_reply no_peer_id ip peer_id n interval rows
      ≡ encode (dict (listing no_peer_id interval (others ip peer_id n rows)))
unfolding dict_reply encode encode_fields encode_string decimal
dict_reply-encode no_peer_id ip peer_id n interval rows short =
    rw (send_dicts-others no_peer_id ip peer_id n rows short) (simp append_assoc refl)

-- What is sent is a bencoded dictionary.
abbrev pub IsDict : Bytes → Type 0
IsDict text = (fs : Fields) × (text ≡ encode (dict fs))

pub peers_reply-IsDict :
    (net : Network) (ar : AnnounceRequest) (interval : ℤ) (rows : List PeerRow)
    → Pton 4 net.pton4
    → Pton 16 net.pton6
    → rounds_up_to ar.numwant ≤ 50
    → All (IsShort ar.no_peer_id) rows
    → (text : Bytes) × (peers_reply net ar interval rows ≡ returns text) × IsDict text
unfolding peers_reply
peers_reply-IsDict net ar interval rows four six bound short = elim (Bool-cases ar.compact) [
  | inl packed ↦
      let (b4, b6, e, le4, le6) =
        compact_reply-encode net ar.ip ar.peer_id (rounds_up_to ar.numwant) interval rows four six
          bound in
      (_, rw packed e, (answer interval b4 b6, refl))
  | inr listed ↦ (
    _,
    rw listed refl,
    (
      listing ar.no_peer_id interval (others ar.ip ar.peer_id (rounds_up_to ar.numwant) rows),
      dict_reply-encode ar.no_peer_id ar.ip ar.peer_id (rounds_up_to ar.numwant) interval rows
          short,
    ),
  )
]

pub unknown_hash-IsDict : IsDict unknown_hash
unfolding encode encode_fields encode_string decimal
unknown_hash-IsDict = (field (codes "failure reason") (str (codes "Hash not recognized")) end, refl)

pub database_error-IsDict : IsDict database_error
unfolding encode encode_fields encode_string decimal
database_error-IsDict =
    (field (codes "failure reason") (str (codes "Database error (TID)")) end, refl)

pub server_error-IsDict : IsDict server_error
unfolding encode encode_fields encode_string decimal
server_error-IsDict = (field (codes "failure reason") (str (codes "Server error")) end, refl)

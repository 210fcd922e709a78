-- ===== src/Track.antt =====
-- track.c: the conversion of the hash and the compact reply to an announce. The rows that the
-- database has for the torrent and `inet_pton` are parameters. A buffer is the bytes that were
-- copied to it; a copy that passes its end is a fault.
pub mod Compact
pub mod Announce
pub mod Hash
pub mod Replies
pub mod Balance
mod Tests
use traccoon.CLib.Decimal.{decimal, print_int}
use traccoon.Encoding.Hex.{hash_encode_hex}
use traccoon.Encoding.Url.{destructive_url_decode, max_urlenc_hash_len}
use traccoon.Memory.{Run, returns, fault, ◌>>=◌}
use traccoon.Prelude.{
  ℕ, zero, suc, ◌+◌, ◌/◌, ◌%◌, Bool, true, false, ◌&&◌, Option, none, some, List, [], ◌∷◌, ◌++◌,
  Bytes, codes, length, ltb, leb, ◌==◌, if◌then◌else◌, ℤ, pos, ==ℤ, uint16,
}

-- a row of `QUERY_TORRENT_PEERS`
pub record PeerRow : Type 0 where
  pub peer_id : Bytes
  pub ip : Bytes
  pub port : ℤ
  pub proto : ℤ

-- `inet_pton` for each family: the address in network order, if the text is one
pub record Network : Type 0 where
  pub pton4 : Bytes → Option Bytes
  pub pton6 : Bytes → Option Bytes

-- `sizeof(buf)`, and that of `buf4` and `buf6`
abbrev pub buffer_size : ℕ
buffer_size = 1024

unfoldable pub text_equal : Bytes → Bytes → Bool
text_equal [] [] = true
text_equal [] (y ∷ ys) = false
text_equal (x ∷ xs) [] = false
text_equal (x ∷ xs) (y ∷ ys) = x == y && text_equal xs ys

-- `memcpy` behind the bytes that are in the buffer
unfoldable pub append_to : Bytes → Bytes → Run Bytes
append_to buf bytes =
    if leb (length buf + length bytes) buffer_size then returns (buf ++ bytes) else fault

-- `htons` of the port, as `memcpy` copies it
abbrev pub port_bytes : ℕ → Bytes
port_bytes port = port / 256 % 256 ∷ port % 256 ∷ []

-- an address and the port behind it; nothing for a text that is no address
unfoldable pub push_address : Bytes → Option Bytes → ℕ → Run Bytes
push_address buf none port = returns buf
push_address buf (some address) port = do
  with_address ← append_to buf address
  append_to with_address (port_bytes port)

-- The branch for a compact reply: `buf4` and `buf6`.
unfoldable pub push_peer : Network → PeerRow → Bytes → Bytes → Run (Bytes × Bytes)
push_peer net row buf4 buf6 =
    if ==ℤ row.proto (pos 4)
    then (do b ← push_address buf4 (net.pton4 row.ip) (uint16 row.port); returns (b, buf6))
    else (do b ← push_address buf6 (net.pton6 row.ip) (uint16 row.port); returns (buf4, b))

-- The loop over the rows, of which at most `n` are looked at: the peer that asks is skipped.
unfoldable pub push_peers :
    Network → Bytes → Bytes → ℕ → List PeerRow → Bytes → Bytes → Run (Bytes × Bytes)
push_peers net ip peer_id zero rows buf4 buf6 = returns (buf4, buf6)
push_peers net ip peer_id (suc n) [] buf4 buf6 = returns (buf4, buf6)
push_peers net ip peer_id (suc n) (row ∷ rows) buf4 buf6 =
    let skipped = push_peers net ip peer_id n rows buf4 buf6 in
    if text_equal ip row.ip && text_equal peer_id row.peer_id
    then skipped
    else (push_peer net row buf4 buf6 >>= λ b. push_peers net ip peer_id n rows b.0 b.1)

-- A head that `snprintf` prints to `buf`, and the bytes that are copied behind it.
unfoldable pub headed : Bytes → Bytes → Run Bytes
headed head bytes = append_to head bytes

-- The text that is sent for the peers in a compact reply, from its opening on.
unfoldable pub compact_reply : Network → Bytes → Bytes → ℕ → ℤ → List PeerRow → Run Bytes
compact_reply net ip peer_id numwant interval rows = do
  peers ← push_peers net ip peer_id numwant rows [] []
  part4 ← headed (decimal (length peers.0) ++ b':' ∷ []) peers.0
  part6 ←
      (if ltb 0 (length peers.1)
        then headed (codes "10:peers_ipv6" ++ (decimal (length peers.1) ++ b':' ∷ [])) peers.1
        else returns [])
  returns (
      codes "d8:intervali"
      ++ (print_int interval ++ (codes "e5:peers" ++ (part4 ++ (part6 ++ b'e' ∷ [])))))

-- The hash in the array `info_hash`: it is decoded and encoded in place, where `local` is what the
-- local array of `hashEncodeHex` holds. Another length of the hash is only reported.
unfoldable pub hex_hash : Bytes → Bytes → Run Bytes
hex_hash local info_hash = do
  decoded ← destructive_url_decode info_hash
  encoded ← hash_encode_hex local decoded.1 (pos max_urlenc_hash_len)
  returns encoded.1

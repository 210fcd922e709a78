-- ===== src/GetPeers/Compact.antt =====
-- The compact list of peers that the tracker sends is listed with its addresses and ports.
use traccoon.Benc.Length.{from}
use traccoon.Benc.Offset.Dict.{drop_text}
use traccoon.Benc.Offset.Find.{length-key}
use traccoon.Benc.Scan.Shape.{string_length-encode_string, string_data_offset-encode_string}
use traccoon.Benc.Shape.{limit}
use traccoon.Benc.Value.{encode_string}
use traccoon.CLib.Decimal.{decimal}
use traccoon.GetPeers.Reply.{compact_peer, compact_peers, compact_list, list_compact, tab, newline}
use traccoon.Memory.{returns, read-drop}
use traccoon.Torrent.{read_bytes}
use traccoon.TorrentInfo.Strings.{from_lem}
use traccoon.Track.{port_bytes}
use traccoon.Prelude.{
  ℕ, ◌+◌, ◌*◌, ◌/◌, ◌%◌, ◌<◌, ◌≡◌, refl, ap, ◌∙◌, true, Option, some, List, [], ◌∷◌, ◌++◌, Bytes,
  length, drop, All, ◌==◌, pos, ◌+ℤ◌, +ℤ-pos, arith, length-append,
}

-- A peer: its address in network order, and its port.
abbrev pub Entry : Type 0
Entry = Bytes × ℕ

-- The bytes that the tracker copies to its buffer for some peers.
unfoldable pub packed : List Entry → Bytes
packed [] = []
packed (e ∷ es) = (e.0 ++ port_bytes e.1) ++ packed es

-- The lines for the peers, with their addresses printed by `show_address`.
unfoldable pub lines : (Bytes → Bytes) → List Entry → Bytes
lines show_address [] = []
lines show_address (e ∷ es) =
    (tab ++ (tab ++ (show_address e.0 ++ (b':' ∷ decimal e.1 ++ newline)))) ++ lines show_address es

-- an address of four bytes, and a port of sixteen bits
abbrev pub IsEntry : Entry → Type 0
IsEntry e = (length e.0 ≡ 4) × (e.1 < 65536)

pub length-packed : (es : List Entry) → All IsEntry es → length (packed es) ≡ 6 * length es
unfolding packed
length-packed [] ok = refl
length-packed (e ∷ es) ((len, small), ok) =
    length-append (e.0 ++ port_bytes e.1) (packed es)
    ∙ omega (arith, length-append e.0 (port_bytes e.1), len, length-packed es ok)

read_address :
    (a b c d : ℕ) (rest : Bytes)
    → read_bytes (a ∷ b ∷ c ∷ d ∷ rest) (pos 4) ≡ returns (a ∷ b ∷ c ∷ d ∷ [])
unfolding read_bytes
read_address a b c d rest = ground arith

compact_peer-entry :
    (ntop : Bytes → Option Bytes) (show_address : Bytes → Bytes) (a b c d port : ℕ) (rest : Bytes)
    → ((s : Bytes) → ntop s ≡ some (show_address s))
    → port < 65536
    → compact_peer ntop (a ∷ b ∷ c ∷ d ∷ port / 256 % 256 ∷ port % 256 ∷ rest)
      ≡ returns
          (tab ++ (tab ++ (show_address (a ∷ b ∷ c ∷ d ∷ []) ++ (b':' ∷ decimal port ++ newline))))
unfolding compact_peer
compact_peer-entry ntop show_address a b c d port rest shows small =
    let number : port / 256 % 256 * 256 + port % 256 ≡ port = omega (arith, small) in
    let entry : Bytes = a ∷ b ∷ c ∷ d ∷ port / 256 % 256 ∷ port % 256 ∷ rest in
    rw
      (
        read_address a b c d (port / 256 % 256 ∷ port % 256 ∷ rest),
        shows (a ∷ b ∷ c ∷ d ∷ []),
        read-drop entry 4 refl,
        read-drop entry 5 refl,
        number,
      )
      refl

entry_split :
    (e : Entry) → IsEntry e → (a : ℕ) × (b : ℕ) × (c : ℕ) × (d : ℕ) × (e.0 ≡ a ∷ b ∷ c ∷ d ∷ [])
entry_split ([], port) (len, small) = absurd (cc)
entry_split (a ∷ [], port) (len, small) = absurd (cc)
entry_split (a ∷ b ∷ [], port) (len, small) = absurd (cc)
entry_split (a ∷ b ∷ c ∷ [], port) (len, small) = absurd (cc)
entry_split (a ∷ b ∷ c ∷ d ∷ [], port) (len, small) = (a, b, c, d, refl)
entry_split (a ∷ b ∷ c ∷ d ∷ x ∷ s, port) (len, small) = absurd (omega (arith, len))

compact_peers-lines :
    (ntop : Bytes → Option Bytes) (show_address : Bytes → Bytes) (es : List Entry) (rest : Bytes)
    → ((s : Bytes) → ntop s ≡ some (show_address s))
    → All IsEntry es
    → compact_peers ntop (packed es ++ rest) (length es) ≡ returns (lines show_address es)
unfolding compact_peers packed lines
compact_peers-lines ntop show_address [] rest shows ok = refl
compact_peers-lines ntop show_address (e ∷ es) rest shows (is_entry, ok) =
    let (a, b, c, d, split) = entry_split e is_entry in
    rw
      (
        split,
        compact_peer-entry ntop show_address a b c d e.1 (packed es ++ rest) shows is_entry.1,
        compact_peers-lines ntop show_address es rest shows ok,
      )
      refl

-- For a string at \`p\`, below 2^31 bytes, that holds the addresses and ports of some peers as the
-- tracker packs them, where each address has four bytes and each port is below 2^16, and an
-- inet_ntop that succeeds, every peer is listed with its address and its port, in order.
pub list_compact-lines :
    (ntop : Bytes → Option Bytes) (show_address : Bytes → Bytes) (es : List Entry)
    (buf rest : Bytes) (p : ℕ)
    → ((s : Bytes) → ntop s ≡ some (show_address s))
    → All IsEntry es
    → drop p buf ≡ encode_string (packed es) ++ rest
    → length (encode_string (packed es)) < limit
    → list_compact ntop buf (pos p) ≡ returns (lines show_address es)
unfolding list_compact compact_list
list_compact-lines ntop show_address es buf rest p shows ok here fits =
    let s : Bytes = packed es in
    let n : ℕ = length (decimal (length s)) + 1 in
    let size : length s < 2147483648 = omega (arith, fits, length-key s) in
    let text : from buf (pos p +ℤ pos n) ≡ returns (s ++ rest) =
      ap (from buf) (+ℤ-pos p n) ∙ from_lem buf (p + n) (drop_text buf p s rest here) in
    let whole : (length s % 6 == 0) ≡ true = ground (arith, length-packed es ok) in
    let count : length s / 6 ≡ length es = omega (arith, length-packed es ok) in
    rw
      (
        from_lem buf p here,
        string_length-encode_string s rest size,
        string_data_offset-encode_string s rest,
        text,
        whole,
        count,
      )
      (compact_peers-lines ntop show_address es rest shows ok)

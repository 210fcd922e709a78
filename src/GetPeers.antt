-- ===== src/GetPeers.antt =====
-- getpeers/getpeers.c: the options, the request for peers and the listing of a reply. An argument
-- and a parameter of the request are strings without terminators; what is printed is one text.
pub mod Options
pub mod Reply
pub mod Compact
pub mod Request
pub mod Hash
pub mod Delivered
pub mod Program
pub mod Query
pub mod Values
pub mod Announced
pub mod Asked
pub mod Packed
pub mod Dictionary
pub mod Listing
mod Tests
use traccoon.Benc.Length.{from, type_at}
use traccoon.Benc.Offset.{dict_value_offset}
use traccoon.Benc.Scan.{EntityType, t_string, string_length, string_data_offset, int_value}
use traccoon.CLib.Decimal.{print_int}
use traccoon.Memory.{Run, returns, fault, ◌>>=◌}
use traccoon.Torrent.{read_bytes}
use traccoon.Prelude.{
  ℕ, ◌+◌, Bool, Option, none, some, List, [], ◌∷◌, ◌++◌, Bytes, codes, if◌then◌else◌, ℤ, minus_one,
  ◌+ℤ◌,
}

-- The parts of the request behind the path, for the settings that may be missing.
unfoldable pub path_parts :
    Bytes → Bytes → Option Bytes → Option Bytes → Bytes → Option Bytes → Bool → List Bytes
path_parts path hash local_port numwant peerid bt_event request_compact =
    path
    ∷ codes "?info_hash="
    ∷ hash
    ∷ codes "&port="
    ∷ elim local_port [ none ↦ codes "6969" | some p ↦ p ]
    ∷ codes "&numwant="
    ∷ elim numwant [ none ↦ codes "50" | some n ↦ n ]
    ∷ codes "&peer_id="
    ∷ peerid
    ∷ elim bt_event [ none ↦ [] | some e ↦ codes "&event=" ]
    ∷ elim bt_event [ none ↦ [] | some e ↦ e ]
    ∷ codes "&compact="
    ∷ (if request_compact then codes "1" else codes "0")
    ∷ []

-- `fwrite` of the string at an offset of the reply
unfoldable pub write_string : Bytes → ℤ → Run Bytes
write_string body offset = do
  entity ← from body offset
  data_offset ← string_data_offset entity
  len ← string_length entity
  text ← from body (offset +ℤ data_offset)
  read_bytes text len

-- `benc_int_value` at an offset, as it is printed
unfoldable pub write_int : Bytes → ℤ → Run Bytes
write_int body offset = do
  entity ← from body offset
  n ← int_value entity minus_one
  returns (print_int n)

-- The offset of a key's value in the dictionary at an offset, counted from that one.
unfoldable pub find : ℕ → Bytes → ℤ → Bytes → Run ℤ
find fuel body p key = dict_value_offset fuel body p (some (key ++ 0 ∷ []))

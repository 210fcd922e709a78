-- ===== src/Torrent.antt =====
-- getpeers/file.c: `read_torrentfile`, which takes the tracker and the hash from a torrent file.
-- The file system, `malloc` and SHA-1 are parameters. The function is given the addresses of the
-- caller's `tracker`, which may hold NULL, and of a pointer to the caller's buffer for the hash.
pub mod Reads
pub mod Misses
mod Tests
use traccoon.Benc.Length.{from, type_at, entity_length}
use traccoon.Benc.Offset.{dict_value_offset}
use traccoon.Benc.Scan.{EntityType, t_dict, entity_type, string_length, string_data_offset}
use traccoon.Encoding.Hex.{write_hex}
use traccoon.Memory.{Run, returns, fault, ◌>>=◌, read}
use traccoon.Prelude.{
  ℕ, ◌+◌, Bool, true, false, not, ◌||◌, Option, none, some, [], ◌∷◌, ◌++◌, Bytes, codes, length,
  take, leb, ◌==◌, if◌then◌else◌, ℤ, pos, negsuc, minus_one, ◌+ℤ◌,
}

-- what the function gets from outside
pub record Host : Type 0 where
  -- the contents of the file that `fopen` opens
  pub open_file : Bytes → Option Bytes
  -- whether `malloc` returns an object of a size
  pub allocates : ℕ → Bool
  pub sha1 : Bytes → Bytes

abbrev pub is_negative : ℤ → Bool
is_negative (pos n) = false
is_negative (negsuc n) = true

abbrev pub is_dict : EntityType → Bool
is_dict t_dict = true
is_dict _ = false

-- The `n` bytes that `memcpy` or `SHA1` reads at a pointer.
unfoldable pub read_bytes : Bytes → ℤ → Run Bytes
read_bytes s (pos n) = if leb n (length s) then returns (take n s) else fault
read_bytes s (negsuc n) = fault

-- what the function leaves: its result, `*tracker`, and the buffer at `*hash`
pub record TorrentFile : Type 0 where
  pub result : ℤ
  pub tracker : Option Bytes
  pub hash : Bytes

-- The tracker's URL and its terminator, in a new object; `none` where the function returns -1. The
-- length is computed before the offset is tested. Nothing tests the result of this `malloc`.
unfoldable pub get_tracker : Host → ℕ → Bytes → Run (Option Bytes)
get_tracker host fuel buffer = do
  offset ← dict_value_offset fuel buffer (pos 0) (some (codes "announce" ++ 0 ∷ []))
  entity ← from buffer offset
  len ← string_length entity
  if is_negative offset || is_negative len then returns none else (do
    data_offset ← string_data_offset entity
    text ← from buffer (data_offset +ℤ offset)
    url ← read_bytes text len
    if host.allocates (length url + 1) then returns (some (url ++ 0 ∷ [])) else fault)

-- The hex digits of the hash of the entity `info`. Where this fails, the function frees `tracker`,
-- the address of the caller's variable.
unfoldable pub get_hash : Host → ℕ → Bytes → Bytes → Run Bytes
get_hash host fuel buffer hash = do
  offset ← dict_value_offset fuel buffer (pos 0) (some (codes "info" ++ 0 ∷ []))
  len ← entity_length fuel buffer offset
  bad ←
      (if is_negative offset || is_negative len
        then returns true
        else (do t ← type_at buffer offset; returns (not (is_dict t))))
  if bad then fault else (do
    entity ← from buffer offset
    info ← read_bytes entity len
    write_hex (host.sha1 info) hash)

-- whether the file is a dictionary that can be measured
unfoldable pub is_torrent : ℕ → Bytes → Run Bool
is_torrent fuel buffer = do
  t ← entity_type buffer
  if is_dict t
      then (do len ← entity_length fuel buffer (pos 0); returns (not (is_negative len)))
      else returns false

-- The part behind the test of the file: the tracker if there is none, and the hash if it is empty.
unfoldable pub read_buffer : Host → ℕ → Bytes → Option Bytes → Bytes → Run TorrentFile
read_buffer host fuel buffer tracker hash = do
  found ← elim tracker [ none ↦ get_tracker host fuel buffer | some t ↦ returns (some t) ]
  elim found [
    | none ↦ returns (record { result = minus_one; tracker = none; hash = hash })
    | some url ↦ do
      first ← read hash 0
      digits ← (if first == 0 then get_hash host fuel buffer hash else returns hash)
      returns (record { result = pos 0; tracker = some url; hash = digits })
  ]

-- A `filename` that is NULL, a file that cannot be opened and a missing buffer for it give -1.
unfoldable pub read_torrentfile : Host → ℕ → Option Bytes → Option Bytes → Bytes → Run TorrentFile
read_torrentfile host fuel none tracker hash =
    returns (record { result = minus_one; tracker = tracker; hash = hash })
read_torrentfile host fuel (some filename) tracker hash = elim (host.open_file filename) [
  | none ↦ returns (record { result = minus_one; tracker = tracker; hash = hash })
  | some contents ↦ elim (host.allocates (length contents + 1)) [
    | false ↦ returns (record { result = minus_one; tracker = tracker; hash = hash })
    | true ↦ do
      valid ← is_torrent fuel (contents ++ 0 ∷ [])
      if valid
          then read_buffer host fuel (contents ++ 0 ∷ []) tracker hash
          else returns (record { result = minus_one; tracker = tracker; hash = hash })
  ]
]

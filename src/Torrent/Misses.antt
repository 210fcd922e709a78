-- ===== src/Torrent/Misses.antt =====
-- What happens on a torrent file without a tracker.
use traccoon.Benc.Length.{from}
use traccoon.Benc.Lookup.{lookup}
use traccoon.Benc.Shape.{limit}
use traccoon.Benc.Value.{dict, Fields, encode}
use traccoon.Memory.{fault}
use traccoon.Torrent.{length, ◌++◌, Bytes, from, Host, get_tracker, read_buffer, read_torrentfile}
use traccoon.Prelude.{
  ℕ, ◌+◌, ◌<◌, ◌≤◌, ◌≡◌, refl, true, none, some, [], ◌∷◌, ◌++◌, Bytes, codes, length, arith,
}
use traccoon.Benc.Lookup.{dict_value_offset-missing}
use traccoon.Torrent.Reads.{is_torrent_lem}

-- A file that is the encoding of a dictionary without `announce` makes `read_torrentfile`, for a
-- caller that has no tracker, read the byte in front of its buffer, where memory is given.
pub read_torrentfile-missing :
    (host : Host) (fs : Fields) (filename hash : Bytes) (fuel : ℕ)
    → host.open_file filename ≡ some (encode (dict fs))
    → ((n : ℕ) → host.allocates n ≡ true)
    → length (encode (dict fs)) ≤ fuel
    → length (encode (dict fs)) < limit
    → lookup fs (codes "announce") ≡ none
    → read_torrentfile host fuel (some filename) none hash ≡ fault
unfolding read_torrentfile read_buffer get_tracker from
read_torrentfile-missing host fs filename hash fuel file memory enough fits missing =
    let valid = is_torrent_lem host fs (0 ∷ []) fuel memory enough fits in
    let offset =
      dict_value_offset-missing fs (codes "announce") [] fuel (encode (dict fs) ++ 0 ∷ []) 0
        (0 ∷ []) missing (omega arith) refl enough fits in
    rw (read_torrentfile, file)
      (rw (memory (length (encode (dict fs)) + 1)) (rw valid (rw offset refl)))

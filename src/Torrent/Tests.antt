-- ===== src/Torrent/Tests.antt =====
-- A torrent file with a tracker.
use traccoon.Benc.Lookup.{lookup}
use traccoon.Benc.Offset.Dict.{same_bytes}
use traccoon.Benc.Value.{num, str, dict, Fields, end, field, encode, encode_string}
use traccoon.CLib.Decimal.{print_int, decimal}
use traccoon.Encoding.Hex.{hex_encode}
use traccoon.Memory.{returns, Fills}
use traccoon.Torrent.{returns, pos, ◌++◌, Bytes, Host, read_torrentfile}
use traccoon.Prelude.{
  ◌≡◌, refl, true, none, some, [], ◌∷◌, ◌++◌, Bytes, codes, replicate, pos, arith,
}
use traccoon.Torrent.Reads.{read_torrentfile-lookup}

abbrev info_dict : Fields
info_dict = field (codes "length") (num (pos 12)) end

abbrev torrent : Fields
torrent =
    field (codes "announce") (str (codes "http://a/x")) (field (codes "info") (dict info_dict) end)

abbrev digest : Bytes → Bytes
digest s = replicate 20 171

abbrev host : Host
host = record {
  open_file = λ f. some (encode (dict torrent));
  allocates = λ n. true;
  sha1 = digest;
}

read_torrentfile-lookup_example :
    (full : Bytes) × (read_torrentfile host 80 (some (codes "a.torrent")) none (0 ∷ replicate 60 0)
      ≡ returns
          (record { result = pos 0; tracker = some (codes "http://a/x" ++ 0 ∷ []); hash = full }))
    × Fills 61 full (hex_encode (digest (encode (dict info_dict))) ++ 0 ∷ [])
unfolding encode encode_string decimal lookup same_bytes print_int
read_torrentfile-lookup_example =
    read_torrentfile-lookup host torrent info_dict (codes "http://a/x") (codes "a.torrent")
      (replicate 60 0) 80 refl (λ n. refl) (λ s. refl) (λ s. omega arith) (omega arith)
      (omega arith) refl refl (omega arith)

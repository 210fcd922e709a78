-- ===== src/TorrentInfo/Tests.antt =====
-- A path into a torrent file, and a string that is listed.
use traccoon.Benc.Value.{Value, num, str, list, dict, nil, cons, end, field, encode}
use traccoon.TorrentInfo.Program.{Files}
use traccoon.TorrentInfo.{Settings}
use traccoon.TorrentInfo.Node.{Display}
use traccoon.Prelude.{true, false, some, List, [], ◌∷◌, ◌++◌, Bytes, codes, length, replicate, pos}

abbrev torrent : Value
torrent = dict (
    field (codes "info")
      (dict (field (codes "files") (list (cons (num (pos 7)) (cons (str (codes "abc")) nil))) end))
      end)

abbrev display : Display
display = record {
  recurse = true;
  display_hash = false;
  display_type = true;
  display_values = true;
  sha1 = λ s. [];
}

abbrev path_arguments : List Bytes
path_arguments = codes "-v" ∷ codes "-k" ∷ codes "info.files.1" ∷ codes "a.torrent" ∷ []

abbrev path_settings : Settings
path_settings = record {
  recurse = false;
  display_modifiers = true;
  display_hash = false;
  display_type = false;
  display_values = true;
  rnode = some (codes "info.files.1");
  infile = some (codes "a.torrent");
}

abbrev disk : Files
disk = record {
  fopen = λ name. some (record { bytes = encode torrent; delivered = length (encode torrent) });
  malloc = λ n. some (replicate (length (encode torrent)) 9 ++ 9 ∷ []);
}

-- ===== src/TorrentInfo/Listed.antt =====
-- What `main` of torrentinfo prints of a string in a torrent file.
use traccoon.Benc.Value.{Value}
use traccoon.CLib.Decimal.{decimal}
use traccoon.TorrentInfo.Node.{shown, newline}
use traccoon.TorrentInfo.Strings.{listed}
use traccoon.TorrentInfo.{Settings}
use traccoon.Prelude.{false, ◌++◌, Bytes, codes, length}

-- what is printed of a string
abbrev pub string_line : Settings → Bytes → Bytes
string_line s text =
    shown s.display_type (codes "String[" ++ (decimal (length text) ++ codes "] "))
    ++ (shown s.display_values (listed false text) ++ newline)

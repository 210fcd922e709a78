-- ===== src/TorrentInfo/Program.antt =====
-- torrentinfo/torrentinfo.c: `main`, which reads a file, searches the root node and lists it. The
-- files and the memory are parameters; the usage and the errors are not printed in the model.
use traccoon.CLib.{strtok}
use traccoon.Memory.{Run, returns, ◌>>=◌, write}
use traccoon.Torrent.{is_negative}
use traccoon.TorrentInfo.Node.{Display, handle_bencoded_node}
use traccoon.TorrentInfo.{Settings, goes_on, ends_with, parse_options, resolve}
use traccoon.Prelude.{
  ℕ, ◌+◌, false, Option, none, some, List, [], ◌++◌, Bytes, length, take, drop, if◌then◌else◌, ℤ,
  pos, minus_one,
}

-- An open file: its bytes, and how many of them `fread` delivers.
pub record File : Type 0 where
  pub bytes : Bytes
  pub delivered : ℕ

pub record Files : Type 0 where
  -- `fopen`; the name may be NULL
  pub fopen : Option Bytes → Option File
  -- what `malloc` gives for a size
  pub malloc : ℕ → Option Bytes

-- before the options are read
abbrev pub no_settings : Settings
no_settings = record {
  recurse = false;
  display_modifiers = false;
  display_hash = false;
  display_type = false;
  display_values = false;
  rnode = none;
  infile = none;
}

-- what the options select
abbrev pub display_of : (Bytes → Bytes) → Settings → Display
display_of sha1 s = record {
  recurse = s.recurse;
  display_hash = s.display_hash;
  display_type = s.display_type;
  display_values = s.display_values;
  sha1 = sha1;
}

-- The buffer with what is read, and a terminator behind it.
unfoldable pub read_file : Bytes → File → Run Bytes
read_file memory file =
    write (take file.delivered file.bytes ++ drop file.delivered memory) file.delivered 0

-- the tokens of the path to the root node
abbrev pub path_of : Settings → List Bytes
path_of s = elim s.rnode [ none ↦ [] | some path ↦ strtok b'.' [] path ]

-- The status, and what is printed of the root node.
unfoldable pub list_buffer : (Bytes → Bytes) → ℕ → Settings → Bytes → Run (ℤ × Bytes)
list_buffer sha1 fuel s buffer = do
  offset ← resolve fuel buffer 0 (path_of s)
  printed ← handle_bencoded_node (display_of sha1 s) fuel buffer 0 (pos offset)
  returns ((if is_negative printed.0 then minus_one else pos 0), printed.1)

unfoldable pub list_file : Files → (Bytes → Bytes) → ℕ → Settings → Run (ℤ × Bytes)
list_file files sha1 fuel s = elim (files.fopen s.infile) [
  | none ↦ returns (pos 1, [])
  | some file ↦ elim (files.malloc (length file.bytes + 1)) [
    | none ↦ returns (pos 1, [])
    | some memory ↦ do buffer ← read_file memory file; list_buffer sha1 fuel s buffer
  ]
]

-- `main` on the arguments behind the name of the program.
unfoldable pub torrentinfo : Files → (Bytes → Bytes) → ℕ → List Bytes → Run (ℤ × Bytes)
torrentinfo files sha1 fuel args = elim (parse_options args no_settings) [
  | ends_with n ↦ returns (pos n, [])
  | goes_on s ↦ list_file files sha1 fuel s
]

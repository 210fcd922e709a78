-- ===== src/TorrentInfo.antt =====
-- torrentinfo/torrentinfo.c: the options, the search for the root node, and the listing of a node.
-- An argument is a string without its terminator; what is printed is one text. The calls between
-- the functions of the module and SHA-1 are as in the source; SHA-1 is a parameter.
pub mod Node
pub mod Resolve
pub mod Strings
pub mod Program
pub mod Listed
mod Tests
use traccoon.Benc.Length.{type_at}
use traccoon.Benc.Offset.{list_item_offset, dict_value_offset}
use traccoon.Benc.Scan.{EntityType, t_list, t_dict}
use traccoon.CLib.Number.{strtoul}
use traccoon.CLib.{is_digit}
use traccoon.Memory.{Run, returns, fault, ◌>>=◌}
use traccoon.Prelude.{
  ℕ, ◌+◌, ◌-◌, Bool, true, false, not, ◌&&◌, ◌||◌, Option, some, List, [], ◌∷◌, ◌++◌, Bytes, ◌==◌,
  if◌then◌else◌, ℤ, pos, negsuc, to_int,
}

-- what the options set
pub record Settings : Type 0 where
  pub recurse : Bool
  pub display_modifiers : Bool
  pub display_hash : Bool
  pub display_type : Bool
  pub display_values : Bool
  pub rnode : Option Bytes
  pub infile : Option Bytes

-- What follows from the options: the program goes on, or it ends with a status.
pub data Options : Type 0 where
  goes_on : Settings → Options
  ends_with : ℕ → Options

-- what an argument is
pub data Argument : Type 0 where
  file recurse_flag hash_flag type_flag value_flag root_flag help_flag unknown_flag : Argument

abbrev pub flag_of : ℕ → Argument
flag_of c =
    if c == b'r'
    then recurse_flag
    else if c == b'H'
    then hash_flag
    else if c == b't'
    then type_flag
    else if c == b'v'
    then value_flag
    else if c == b'k'
    then root_flag
    else if c == b'h'
    then help_flag
    else unknown_flag

unfoldable pub argument_of : Bytes → Argument
argument_of [] = file
argument_of (c ∷ []) = if c == b'-' then unknown_flag else file
argument_of (c ∷ d ∷ s) = if c == b'-' then flag_of d else file

-- The settings behind an argument that takes no other.
unfoldable pub with_argument : Argument → Bytes → Settings → Settings
with_argument file arg s = record {
  recurse = s.recurse;
  display_modifiers = s.display_modifiers;
  display_hash = s.display_hash;
  display_type = s.display_type;
  display_values = s.display_values;
  rnode = s.rnode;
  infile = some arg;
}
with_argument recurse_flag arg s = record {
  recurse = true;
  display_modifiers = s.display_modifiers;
  display_hash = s.display_hash;
  display_type = s.display_type;
  display_values = s.display_values;
  rnode = s.rnode;
  infile = s.infile;
}
with_argument hash_flag arg s = record {
  recurse = s.recurse;
  display_modifiers = true;
  display_hash = true;
  display_type = s.display_type;
  display_values = s.display_values;
  rnode = s.rnode;
  infile = s.infile;
}
with_argument type_flag arg s = record {
  recurse = s.recurse;
  display_modifiers = true;
  display_hash = s.display_hash;
  display_type = true;
  display_values = s.display_values;
  rnode = s.rnode;
  infile = s.infile;
}
with_argument value_flag arg s = record {
  recurse = s.recurse;
  display_modifiers = true;
  display_hash = s.display_hash;
  display_type = s.display_type;
  display_values = true;
  rnode = s.rnode;
  infile = s.infile;
}
with_argument _ arg s = s

abbrev pub with_root : Bytes → Settings → Settings
with_root node s = record {
  recurse = s.recurse;
  display_modifiers = s.display_modifiers;
  display_hash = s.display_hash;
  display_type = s.display_type;
  display_values = s.display_values;
  rnode = some node;
  infile = s.infile;
}

-- Without a flag that selects something, everything is displayed.
unfoldable pub with_defaults : Settings → Settings
with_defaults s = record {
  recurse = s.recurse;
  display_modifiers = s.display_modifiers;
  display_hash = s.display_hash || not s.display_modifiers;
  display_type = s.display_type || not s.display_modifiers;
  display_values = s.display_values || not s.display_modifiers;
  rnode = s.rnode;
  infile = s.infile;
}

-- The arguments behind the name of the program.
unfoldable pub parse_options : List Bytes → Settings → Options
parse_options [] s = goes_on (with_defaults s)
parse_options (arg ∷ []) s = elim (argument_of arg) [
  | help_flag ↦ ends_with 0
  | unknown_flag ↦ ends_with 1
  | root_flag ↦ ends_with 1
  | a ↦ goes_on (with_defaults (with_argument a arg s))
]
parse_options (arg ∷ next ∷ args) s = elim (argument_of arg) [
  | help_flag ↦ ends_with 0
  | unknown_flag ↦ ends_with 1
  | root_flag ↦ parse_options args (with_root next s)
  | a ↦ parse_options (next ∷ args) (with_argument a arg s)
]

unfoldable pub all_digits : Bytes → Bool
all_digits [] = true
all_digits (c ∷ s) = is_digit c && all_digits s

-- The offset behind a search from an offset.
abbrev pub moved : ℕ → ℤ → ℕ
moved offset (pos k) = offset + k
moved offset (negsuc k) = offset

-- The item of a list with the number that a token of digits gives.
unfoldable pub resolve_item : ℕ → Bytes → ℕ → Bytes → Bool → Run ℕ
resolve_item fuel buffer offset token false = returns offset
resolve_item fuel buffer offset token true = do
  n ← strtoul (token ++ 0 ∷ [])
  i ← list_item_offset fuel buffer (pos offset) (to_int (pos n))
  returns (moved offset i)

-- The next node from the one at an offset; the same offset where a token leads nowhere.
unfoldable pub resolve_token : ℕ → Bytes → ℕ → Bytes → Run ℕ
resolve_token fuel buffer offset token = do
  t ← type_at buffer (pos offset)
  elim t [
    | t_list ↦ resolve_item fuel buffer offset token (all_digits token)
    | t_dict ↦ do
      i ← dict_value_offset fuel buffer (pos offset) (some (token ++ 0 ∷ []))
      returns (moved offset i)
    | _ ↦ returns offset
  ]

-- The loop over the tokens of the path, which `strtok` separates at dots.
unfoldable pub resolve : ℕ → Bytes → ℕ → List Bytes → Run ℕ
resolve fuel buffer offset [] = returns offset
resolve fuel buffer offset (token ∷ tokens) = do
  next ← resolve_token fuel buffer offset token
  resolve fuel buffer next tokens

-- ===== src/GetPeers/Options.antt =====
-- getpeers/getpeers.c: the options, and what is made of them before the request. Arrays are the
-- bytes they hold. The memory, the random numbers and the torrent file are parameters.
use traccoon.CLib.{letter_of, is_digit, memcpy, strncpy, overwrite}
use traccoon.Encoding.Hex.{destructive_hex_decode}
use traccoon.Encoding.Url.{destructive_url_decode, hash_encode_url, max_urlenc_hash_len}
use traccoon.Memory.{Run, returns, ◌>>=◌, read}
use traccoon.Prelude.{
  ℕ, ◌+◌, ◌%◌, Bool, true, false, not, ◌&&◌, ◌||◌, Option, none, some, List, [], ◌∷◌, ◌++◌, map,
  Bytes, codes, length, replicate, ltb, leb, ◌==◌, if◌then◌else◌, ℤ, pos, minus_one, ==ℤ,
}

-- `ai_family` of the hints
pub data Family : Type 0 where
  unspecified inet inet6 : Family

pub record Settings : Type 0 where
  pub infile : Option Bytes
  pub family : Family
  pub numwant : Option Bytes
  pub local_port : Option Bytes
  pub bt_event : Option Bytes
  pub tracker : Option Bytes
  pub request_compact : Bool
  pub request_scrape : Bool
  -- the arrays of 61 bytes
  pub hash : Bytes
  pub peerid : Bytes

-- The program goes on with settings, or ends with a status.
pub data Outcome : Type 0 where
  goes_on : Settings → Outcome
  exits : ℤ → Outcome

-- before the options are read
abbrev pub no_settings : Settings
no_settings = record {
  infile = none;
  family = unspecified;
  numwant = none;
  local_port = none;
  bt_event = none;
  tracker = none;
  request_compact = false;
  request_scrape = false;
  hash = replicate (max_urlenc_hash_len + 1) 0;
  peerid = replicate (max_urlenc_hash_len + 1) 0;
}

-- `isxdigit`
abbrev pub isxdigit : ℕ → Bool
isxdigit c = is_digit c || (leb b'a' c && leb c b'f') || (leb b'A' c && leb c b'F')

abbrev pub all_of : (ℕ → Bool) → Bytes → Bool
all_of test [] = true
all_of test (c ∷ s) = test c && all_of test s

-- The settings with one of them replaced.
abbrev pub set_flag : ℕ → Settings → Settings
set_flag c s = record {
  infile = s.infile;
  family = s.family;
  numwant = s.numwant;
  local_port = s.local_port;
  bt_event = s.bt_event;
  tracker = s.tracker;
  request_compact = if c == b'c' then true else s.request_compact;
  request_scrape = if c == b's' then true else s.request_scrape;
  hash = s.hash;
  peerid = s.peerid;
}

-- which text a letter stands for
abbrev pub set_text : ℕ → Bytes → Settings → Settings
set_text c text s = record {
  infile = s.infile;
  family = s.family;
  numwant = if c == b'n' then some text else s.numwant;
  local_port = if c == b'p' then some text else s.local_port;
  bt_event = if c == b'e' then some text else s.bt_event;
  tracker = if c == b't' then some (text ++ 0 ∷ []) else s.tracker;
  request_compact = s.request_compact;
  request_scrape = s.request_scrape;
  hash = s.hash;
  peerid = s.peerid;
}

abbrev pub set_infile : Bytes → Settings → Settings
set_infile file s = record {
  infile = some file;
  family = s.family;
  numwant = s.numwant;
  local_port = s.local_port;
  bt_event = s.bt_event;
  tracker = s.tracker;
  request_compact = s.request_compact;
  request_scrape = s.request_scrape;
  hash = s.hash;
  peerid = s.peerid;
}

abbrev pub set_family : Family → Settings → Settings
set_family f s = record {
  infile = s.infile;
  family = f;
  numwant = s.numwant;
  local_port = s.local_port;
  bt_event = s.bt_event;
  tracker = s.tracker;
  request_compact = s.request_compact;
  request_scrape = s.request_scrape;
  hash = s.hash;
  peerid = s.peerid;
}

abbrev pub set_arrays : Bytes → Bytes → Settings → Settings
set_arrays hash peerid s = record {
  infile = s.infile;
  family = s.family;
  numwant = s.numwant;
  local_port = s.local_port;
  bt_event = s.bt_event;
  tracker = s.tracker;
  request_compact = s.request_compact;
  request_scrape = s.request_scrape;
  hash = hash;
  peerid = peerid;
}

-- `-v`
abbrev pub version_option : Bytes → Settings → Outcome
version_option [] s = exits (pos 1)
version_option (c ∷ text) s =
    if c == b'4'
    then goes_on (set_family inet s)
    else if c == b'6'
    then goes_on (set_family inet6 s)
    else exits (pos 1)

-- `-h`
unfoldable pub hash_option : Bytes → Settings → Run Outcome
hash_option text s =
    if ltb max_urlenc_hash_len (length text) || not (all_of isxdigit text)
    then returns (exits (pos 1))
    else (do
      hash ← strncpy s.hash (text ++ 0 ∷ []) (length text + 1)
      returns (goes_on (set_arrays hash s.peerid s)))

-- `-i`, where `local` is what the local array of `hashEncodeURL` holds
unfoldable pub peerid_option : Bytes → Bytes → Settings → Run Outcome
peerid_option local text s =
    if ltb (length text) max_urlenc_hash_len
    then (do
      copied ← memcpy s.peerid (text ++ 0 ∷ []) (length text + 1)
      decoded ← destructive_url_decode copied
      elim (==ℤ decoded.0 (pos 20)) [
        | false ↦ returns (exits (pos 1))
        | true ↦ do
          encoded ← hash_encode_url local decoded.1 (max_urlenc_hash_len + 1)
          returns (goes_on (set_arrays s.hash encoded.1 s))
      ])
    else returns (exits (pos 1))

-- An option with the letter `c` and an argument. Other letters have an argument that is ignored.
unfoldable pub option : Bool → Bytes → ℕ → Bytes → Settings → Run Outcome
option allocates local c text s =
    if c == b't'
    then returns (if allocates then goes_on (set_text c text s) else exits minus_one)
    else if c == b'h'
    then hash_option text s
    else if c == b'v'
    then returns (version_option text s)
    else if c == b'n' || c == b'p'
    then returns (if all_of is_digit text then goes_on (set_text c text s) else exits (pos 1))
    else if c == b'e'
    then returns (goes_on (set_text c text s))
    else if c == b'i'
    then peerid_option local text s
    else returns (goes_on s)

abbrev pub is_flag : ℕ → Bool
is_flag c = c == b'c' || c == b's'

abbrev pub go_on : Outcome → (Settings → Run Outcome) → Run Outcome
go_on (goes_on s) f = f s
go_on (exits n) f = returns (exits n)

-- An argument that is the last one.
abbrev pub last_argument : Bytes → Settings → Settings
last_argument arg s = elim (letter_of arg) [ none ↦ set_infile arg s | some c ↦ set_flag c s ]

-- The loop over the arguments behind the name of the program.
unfoldable pub parse_arguments : Bool → Bytes → List Bytes → Settings → Run Outcome
parse_arguments allocates local [] s = returns (goes_on s)
parse_arguments allocates local (arg ∷ []) s = returns (goes_on (last_argument arg s))
parse_arguments allocates local (arg ∷ next ∷ args) s = elim (letter_of arg) [
  | none ↦ parse_arguments allocates local (next ∷ args) (set_infile arg s)
  | some c ↦ elim (is_flag c) [
    | true ↦ parse_arguments allocates local (next ∷ args) (set_flag c s)
    | false ↦ do
      outcome ← option allocates local c next s
      go_on outcome (λ t. parse_arguments allocates local args t)
  ]
]

-- The hash in its array, which is decoded and encoded for the request.
unfoldable pub encode_hash : Bytes → Bytes → Run Bytes
encode_hash local hash = do
  decoded ← destructive_hex_decode hash
  encoded ← hash_encode_url local decoded.1 max_urlenc_hash_len
  returns encoded.1

-- The id in its array, unless one was given: a name and 12 random bytes, encoded.
unfoldable pub complete_peerid : Bytes → List ℕ → Bytes → Run Bytes
complete_peerid local rands peerid = do
  first ← read peerid 0
  elim (first == 0) [
    | false ↦ returns peerid
    | true ↦ do
      filled ← overwrite peerid (codes "-TC0010-" ++ map (λ r. r % 128 + 33) rands)
      encoded ← hash_encode_url local filled (max_urlenc_hash_len + 1)
      returns encoded.1
  ]

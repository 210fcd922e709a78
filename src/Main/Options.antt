-- ===== src/Main/Options.antt =====
-- traccoon.c: the options of the server. An argument is a string without its terminator, and the
-- arguments are those behind the name of the program. Messages are left out.
use traccoon.CLib.Number.{strtoul}
use traccoon.CLib.{letter_of}
use traccoon.Db.Create.{SetupCall, create_empty_database}
use traccoon.Memory.{Run, returns, ◌>>=◌}
use traccoon.Prelude.{
  ℕ, Bool, false, Option, none, some, List, [], ◌∷◌, ◌++◌, Bytes, codes, ◌==◌, if◌then◌else◌, ℤ,
  pos, to_int,
}

-- what the options set; `force_ipv4` is none for `AF_UNSPEC`
pub record Settings : Type 0 where
  pub database_file : Bytes
  pub workers : ℤ
  pub bindhost : Option Bytes
  pub port : Bytes
  pub queue_size : ℤ
  pub announce_interval : ℤ
  pub force_ipv4 : Option Bool

-- before the options are read
abbrev pub defaults : Settings
defaults = record {
  database_file = codes "tracker.db3";
  workers = pos 10;
  bindhost = none;
  port = codes "6969";
  queue_size = pos 20;
  announce_interval = pos 300;
  force_ipv4 = none;
}

-- The server starts with settings, or the program exits with a status.
pub data Outcome : Type 0 where
  starts : Settings → Outcome
  exits : ℤ → Outcome

-- an `int` that `strtoul` reads
unfoldable pub number : Bytes → Run ℤ
number text = do n ← strtoul (text ++ 0 ∷ []); returns (to_int (pos n))

-- the test of `-i`
abbrev pub is_four : Bytes → Bool
is_four [] = false
is_four (c ∷ s) = c == b'4'

-- the option with the letter `c` and its argument
unfoldable pub option : (List SetupCall → SetupCall → ℤ) → ℕ → Bytes → Settings → Run Outcome
option setup c text s =
    if c == b'f'
    then returns (starts (record s { database_file = text }))
    else if c == b'c'
    then returns (exits (create_empty_database setup).0)
    else if c == b'w'
    then (do n ← number text; returns (starts (record s { workers = n })))
    else if c == b'b'
    then returns (starts (record s { bindhost = some text }))
    else if c == b'i'
    then returns (starts (record s { force_ipv4 = some (is_four text) }))
    else if c == b'p'
    then returns (starts (record s { port = text }))
    else if c == b'q'
    then (do n ← number text; returns (starts (record s { queue_size = n })))
    else if c == b'a'
    then (do n ← number text; returns (starts (record s { announce_interval = n })))
    else returns (starts s)

abbrev pub and_then : Outcome → (Settings → Run Outcome) → Run Outcome
and_then (starts s) f = f s
and_then (exits n) f = returns (exits n)

-- The arguments two by two, if their number is even.
unfoldable pub pairs : List Bytes → Option (List (Bytes × Bytes))
pairs [] = some []
pairs (a ∷ []) = none
pairs (a ∷ b ∷ args) = elim (pairs args) [ none ↦ none | some ps ↦ some ((a, b) ∷ ps) ]

-- the loop over the pairs, which skips a pair without a dash
unfoldable pub parse_options :
    (List SetupCall → SetupCall → ℤ) → List (Bytes × Bytes) → Settings → Run Outcome
parse_options setup [] s = returns (starts s)
parse_options setup ((arg, text) ∷ ps) s = elim (letter_of arg) [
  | none ↦ parse_options setup ps s
  | some c ↦ do outcome ← option setup c text s; and_then outcome (λ t. parse_options setup ps t)
]

-- `usage` exits with 1 where an option has no argument.
unfoldable pub read_arguments : (List SetupCall → SetupCall → ℤ) → List Bytes → Run Outcome
read_arguments setup args = elim (pairs args) [
  | none ↦ returns (exits (pos 1))
  | some ps ↦ parse_options setup ps defaults
]

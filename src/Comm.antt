-- ===== src/Comm.antt =====
-- comm.c: the parameters `event` and `numwant` of an announce. A parameter that is missing is
-- `none`, and else what stands behind its name.
pub mod Params
pub mod Request
pub mod Socket
pub mod Scans
pub mod Safe
pub mod Flags
pub mod Values
mod Tests
use traccoon.CLib.Number.{strtoul}
use traccoon.CLib.{strncmp_equal}
use traccoon.Db.{BtEvent, started, stopped, completed, no_event}
use traccoon.Memory.{Run, returns, ◌>>=◌, read}
use traccoon.Prelude.{
  ℕ, Bool, true, false, not, ◌||◌, Option, none, some, [], ◌∷◌, ◌++◌, Bytes, codes, ◌==◌,
  if◌then◌else◌, ℤ, pos, ltb_ℤ, to_int,
}

-- `MAXPEERS_SENT`
abbrev pub maxpeers_sent : ℤ
maxpeers_sent = pos 50

-- the switch on `event[2]`
abbrev pub event_of : ℕ → BtEvent
event_of c =
    if c == b'a'
    then started
    else if c == b'o'
    then stopped
    else if c == b'm'
    then completed
    else no_event

-- `!strncmp(event,"st",2)||!strncmp(event,"co",2)`
unfoldable pub is_event : Bytes → Run Bool
is_event event = do
  st ← strncmp_equal event (codes "st" ++ 0 ∷ []) 2
  if st then returns true else strncmp_equal event (codes "co" ++ 0 ∷ []) 2

unfoldable pub parse_event : Option Bytes → Run BtEvent
parse_event none = returns no_event
parse_event (some event) = do
  known ← is_event event
  if known then (do c ← read event 2; returns (event_of c)) else returns no_event

-- `ar.numwant>MAXPEERS_SENT||ar.numwant<=0`
abbrev pub clamp_numwant : ℤ → ℤ
clamp_numwant n = if ltb_ℤ maxpeers_sent n || not (ltb_ℤ (pos 0) n) then maxpeers_sent else n

unfoldable pub parse_numwant : Option Bytes → Run ℤ
parse_numwant none = returns (clamp_numwant (pos 0))
parse_numwant (some numwant) = do n ← strtoul numwant; returns (clamp_numwant (to_int (pos n)))

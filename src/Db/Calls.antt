-- ===== src/Db/Calls.antt =====
-- The calls of db.c on SQLite and the clock. What they answer is a parameter: any function of the
-- calls that were made before, of which the newest stands first.
use traccoon.Memory.{returns}
use traccoon.Memory.State.{Stateful}
unfoldable pub use traccoon.Memory.State.{go_on, ◌>>=◌, give}
use traccoon.Prelude.{ℕ, Option, none, some, List, ◌∷◌, Bytes, ℤ, pos, ==ℤ, if◌then◌else◌}

-- the statements of statements.h that db.c and track.c prepare
pub data Query : Type 0 where
  query_torrent_id query_torrent_peers add_torrent_peer query_peer_by_id update_peer_data : Query
  query_prune_peers increase_completion_count get_completion_count get_seed_count : Query
  get_peers_count query_torrent_count : Query

-- what is bound to a parameter of a statement
pub data Bound : Type 0 where
  int : ℤ → Bound
  text : Bytes → Bound

-- A function uses a statement by the handle it got for a query.
pub data Call : Type 0 where
  gettimeofday : Call
  prepare : Query → Call
  bind : Query → ℕ → Bound → Call
  step : Query → Call
  column_int : Query → ℕ → Call
  finalize : Query → Call

-- the return value of a call, and the time, behind the calls before
pub record Library : Type 0 where
  pub answer : List Call → Call → ℤ
  pub clock : List Call → ℤ

-- the codes of sqlite3.h that are tested for
abbrev pub sqlite_ok : ℤ
sqlite_ok = pos 0

abbrev pub sqlite_error : ℤ
sqlite_error = pos 1

abbrev pub sqlite_busy : ℤ
sqlite_busy = pos 5

abbrev pub sqlite_row : ℤ
sqlite_row = pos 100

abbrev pub sqlite_done : ℤ
sqlite_done = pos 101

abbrev pub Session {ℓ} : Type ℓ → Type ℓ
Session A = Stateful (List Call) A

abbrev pub call : Library → Call → Session ℤ
call lib c h = returns (lib.answer h c, c ∷ h)

-- `gettimeofday(&time,NULL)`: the time, or `none` if the call failed
abbrev pub current_time : Library → Session (Option ℤ)
current_time lib h = returns (
  (if ==ℤ (lib.answer h gettimeofday) (pos 0) then some (lib.clock h) else none),
  gettimeofday ∷ h,
)

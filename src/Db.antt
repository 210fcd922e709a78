-- ===== src/Db.antt =====
-- db.c: the functions on the database. A helper stands for what they repeat: `sqlite3_prepare_v2`
-- and the calls that bind parameters, each with its early return.
pub mod Calls
pub mod Open
pub mod Balance
pub mod Update
pub mod Create
pub mod Sample
mod Tests
use traccoon.Db.Calls.*
use traccoon.Memory.{out_of_fuel}
use traccoon.Prelude.{
  ℕ, zero, suc, ◌+◌, ◌||◌, Bool, true, false, not, Option, none, some, [], ◌∷◌, List, Bytes, ℤ, pos,
  negsuc, minus_one, ==ℤ, ◌-ℤ◌, to_int, if◌then◌else◌,
}

-- the constants of traccoon.h
abbrev pub db_nosuchhash : ℤ
db_nosuchhash = negsuc 1

abbrev pub db_failed : ℤ
db_failed = minus_one

abbrev pub e_generic : ℤ
e_generic = negsuc 2

-- `BT_EVENT`
pub data BtEvent : Type 0 where
  started stopped completed no_event : BtEvent

abbrev pub event_code : BtEvent → ℤ
event_code started = pos 3
event_code stopped = pos 2
event_code completed = pos 1
event_code no_event = pos 0

abbrev pub is_completed : BtEvent → Bool
is_completed completed = true
is_completed _ = false

-- `ANNOUNCE_REQUEST`, its character arrays up to their terminators
pub record AnnounceRequest : Type 0 where
  pub info_hash : Bytes
  pub peer_id : Bytes
  pub ip : Bytes
  pub port : ℤ
  pub protover : ℤ
  pub event : BtEvent
  pub left : ℤ
  pub compact : Bool
  pub no_peer_id : Bool
  pub numwant : ℤ

-- Bind the values to the parameters from `i` on. After a failure the statement is finalised.
unfoldable pub bind_all : Library → Query → ℕ → List Bound → Session Bool
bind_all lib q i [] = give true
bind_all lib q i (v ∷ vs) = do
  error ← call lib (bind q i v)
  elim (==ℤ error sqlite_ok) [
    | true ↦ bind_all lib q (i + 1) vs
    | false ↦ do done ← call lib (finalize q); give false
  ]

-- Whether there is a statement for the query, with the values bound to its parameters.
unfoldable pub prepared : Library → Query → List Bound → Session Bool
prepared lib q vs = do
  error ← call lib (prepare q)
  elim (==ℤ error sqlite_ok) [ true ↦ bind_all lib q 1 vs | false ↦ give false ]

-- the switch behind `sqlite3_step` in the functions that write
abbrev pub write_result : ℤ → ℤ
write_result error =
    if ==ℤ error sqlite_done
    then pos 0
    else if ==ℤ error sqlite_busy
    then db_failed
    else if ==ℤ error sqlite_error
    then db_failed
    else error

-- `sqlite3_step`, the switch on its result, and `sqlite3_finalize`
unfoldable pub run_write : Library → Query → Session ℤ
run_write lib q = do
  error ← call lib (step q)
  done ← call lib (finalize q)
  give (write_result error)

-- `sqlite3_step`, the first column if there is a row or else `f` of the step's code, and
-- `sqlite3_finalize`; the result has the code in front
unfoldable pub step_row : Library → Query → (ℤ → ℤ) → Session (ℤ × ℤ)
step_row lib q f = do
  error ← call lib (step q)
  value ← (if ==ℤ error sqlite_row then call lib (column_int q 0) else give (f error))
  done ← call lib (finalize q)
  give (error, value)

-- the functions that read a number, where `missing` is what they return for no row
unfoldable pub run_read : Library → Query → ℤ → Session ℤ
run_read lib q missing = do
  result ← step_row lib q (λ error. if ==ℤ error sqlite_done then missing else write_result error)
  give result.1

unfoldable pub get_torrent_id : Library → Bytes → Session ℤ
get_torrent_id lib hash = do
  ready ← prepared lib query_torrent_id (text hash ∷ [])
  elim ready [ true ↦ run_read lib query_torrent_id db_nosuchhash | false ↦ give db_failed ]

unfoldable pub query_torrent_param : Library → Query → ℤ → Session ℤ
query_torrent_param lib query torrent = do
  ready ← prepared lib query (int torrent ∷ [])
  elim ready [ true ↦ run_read lib query db_failed | false ↦ give db_failed ]

-- prepare, bind and run a statement that writes
unfoldable pub write_row : Library → Query → List Bound → Session ℤ
write_row lib q vs = do
  ready ← prepared lib q vs
  elim ready [ true ↦ run_write lib q | false ↦ give db_failed ]

unfoldable pub add_peer : Library → AnnounceRequest → ℤ → Session ℤ
add_peer lib ar torrent = do
  time ← current_time lib
  elim time [
    | none ↦ give e_generic
    | some now ↦ write_row lib add_torrent_peer (
        int torrent
        ∷ text ar.peer_id
        ∷ text ar.ip
        ∷ int ar.port
        ∷ int (to_int now)
        ∷ int ar.protover
        ∷ [])
  ]

unfoldable pub prune_peers : Library → ℤ → Session ℤ
prune_peers lib expire_interval = do
  time ← current_time lib
  elim time [
    | none ↦ give e_generic
    | some now ↦ write_row lib query_prune_peers (int (to_int (now -ℤ expire_interval)) ∷ [])
  ]

-- `updatePeer` up to the first `sqlite3_finalize`: the code of the step and the row of the peer, or
-- `none` where the function returns early
unfoldable pub query_peer : Library → ℤ → AnnounceRequest → Session (Option (ℤ × ℤ))
query_peer lib torrentid ar = do
  ready ← prepared lib query_peer_by_id (int torrentid ∷ text ar.peer_id ∷ [])
  elim ready [
    | true ↦ do found ← step_row lib query_peer_by_id (λ error. pos 0); give (some found)
    | false ↦ give none
  ]

-- `updatePeer` from the second `gettimeofday` on, with the peer in the database
unfoldable pub modify_peer : Library → ℤ → AnnounceRequest → ℤ → Session ℤ
modify_peer lib torrentid ar peer_row = do
  time ← current_time lib
  elim time [
    | none ↦ give e_generic
    | some now ↦ do
      error ←
          write_row lib update_peer_data
            (int ar.left ∷ int (event_code ar.event) ∷ int (to_int now) ∷ int peer_row ∷ [])
      elim (not (==ℤ error (pos 0)) || not (is_completed ar.event)) [
        | true ↦ give error
        | false ↦ write_row lib increase_completion_count (int torrentid ∷ [])
      ]
  ]

-- A peer that is not in the database is added, and the function calls itself: the fuel bounds the
-- depth of these calls.
unfoldable pub update_peer : Library → ℕ → ℤ → AnnounceRequest → Session ℤ
update_peer lib zero torrentid ar = λ h. out_of_fuel
update_peer lib (suc fuel) torrentid ar = do
  found ← query_peer lib torrentid ar
  elim found [
    | none ↦ give db_failed
    | some (error, peer_row) ↦ elim (==ℤ error sqlite_done) [
      | true ↦ do
        added ← add_peer lib ar torrentid
        elim (==ℤ added (pos 0)) [
          | true ↦ update_peer lib fuel torrentid ar
          | false ↦ give db_failed
        ]
      | false ↦ elim (==ℤ error sqlite_row) [
        | true ↦ modify_peer lib torrentid ar peer_row
        | false ↦ give db_failed
      ]
    ]
  ]

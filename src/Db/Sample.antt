-- ===== src/Db/Sample.antt =====
-- A small database that answers each call by the calls before, and a request.
use traccoon.Db.Balance.{StepsNotOk}
use traccoon.Db.Calls.{
  Call, gettimeofday, prepare, bind, step, column_int, finalize, Library, add_torrent_peer,
  query_peer_by_id, sqlite_row, sqlite_done,
}
use traccoon.Db.Open.{number}
use traccoon.Db.Update.{FindsAdded}
use traccoon.Db.{query_torrent_id, completed, AnnounceRequest}
use traccoon.Prelude.{
  refl, Bool, true, false, ◌&&◌, ◌||◌, List, [], ◌∷◌, codes, ◌==◌, if◌then◌else◌, ℤ, pos, arith,
}

abbrev pub inserted : List Call → Bool
inserted [] = false
inserted (step q ∷ h) = if number q == number add_torrent_peer then true else inserted h
inserted (gettimeofday ∷ h) = inserted h
inserted (prepare q ∷ h) = inserted h
inserted (bind q i v ∷ h) = inserted h
inserted (column_int q i ∷ h) = inserted h
inserted (finalize q ∷ h) = inserted h

abbrev pub small_answer : List Call → Call → ℤ
small_answer h (step q) =
    if number q == number query_torrent_id || number q == number query_peer_by_id && inserted h
    then sqlite_row
    else sqlite_done
small_answer h (column_int q i) = pos 7
small_answer h _ = pos 0

abbrev pub small : Library
small = record { answer = small_answer; clock = λ h. pos 1700000000 }

pub small-StepsNotOk : StepsNotOk small
unfolding StepsNotOk
small-StepsNotOk h q = ground arith

abbrev pub request : AnnounceRequest
request = record {
  info_hash = codes "abcdefghijklmnopqrst";
  peer_id = codes "-TR2840-123456789012";
  ip = codes "10.0.0.1";
  port = pos 6881;
  protover = pos 4;
  event = completed;
  left = pos 0;
  compact = true;
  no_peer_id = false;
  numwant = pos 50;
}

pub small-FindsAdded : (t : ℤ) → FindsAdded small t request.peer_id
unfolding FindsAdded
small-FindsAdded t h a = rw a.calls refl

-- ===== src/GetPeers/Program.antt =====
-- getpeers/getpeers.c: `main`. The system is a parameter: memory, random numbers, the torrent file,
-- the network and `inet_ntop`. The id of the peer is made up behind the reading of the torrent file,
-- on which it does not depend, and not before it; of the messages, only the listing is printed.
use traccoon.GetPeers.Options.{
  Settings, Outcome, goes_on, exits, no_settings, parse_arguments, complete_peerid, encode_hash,
}
use traccoon.GetPeers.Reply.{list_response}
use traccoon.GetPeers.Request.{Prepared, ready, stops, read_missing, fetch}
use traccoon.Memory.{Run, returns, ◌>>=◌}
use traccoon.NetLib.Http.{Network}
use traccoon.Torrent.{Host, is_negative}
use traccoon.Prelude.{ℕ, Bool, Option, none, some, List, [], ◌∷◌, Bytes, if◌then◌else◌, ℤ, pos}

pub record Machine : Type 0 where
  -- whether the memory for a tracker's URL is granted
  pub allocates : Bool
  -- what the local array of `hashEncodeURL` holds
  pub local : Bytes
  pub rands : List ℕ
  pub host : Host
  pub net : Network
  pub ntop : Bytes → Option Bytes

-- From the result of `http_get` on.
unfoldable pub list_fetched : Machine → ℕ → ℤ × Option Bytes → Run (ℤ × Bytes)
list_fetched m fuel (status, none) = returns (pos 1, [])
list_fetched m fuel (status, some response) =
    let listed = list_response m.ntop fuel response in
    if is_negative status then returns (pos 1, []) else listed

-- From the URL of the tracker and the array with the hash on.
unfoldable pub ask_tracker : Machine → ℕ → Settings → Prepared → Run (ℤ × Bytes)
ask_tracker m fuel s (stops n) = returns (n, [])
ask_tracker m fuel s (ready none hash) = returns (pos 9001, [])
ask_tracker m fuel s (ready (some tracker) hash) = do
  peerid ← complete_peerid m.local m.rands s.peerid
  encoded ← encode_hash m.local hash
  fetched ← fetch m.net s encoded peerid tracker
  list_fetched m fuel fetched

unfoldable pub run_settings : Machine → ℕ → Outcome → Run (ℤ × Bytes)
run_settings m fuel (exits n) = returns (n, [])
run_settings m fuel (goes_on s) = do
  prepared ← read_missing m.host fuel s
  ask_tracker m fuel s prepared

-- `main` on the arguments behind the name of the program: the status, and the listing.
unfoldable pub getpeers : Machine → ℕ → List Bytes → Run (ℤ × Bytes)
getpeers m fuel [] = returns (pos 1, [])
getpeers m fuel (arg ∷ args) = do
  outcome ← parse_arguments m.allocates m.local (arg ∷ args) no_settings
  run_settings m fuel outcome

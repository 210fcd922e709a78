-- ===== src/GetPeers/Request.antt =====
-- getpeers/getpeers.c: from the options to the response of the tracker.
use traccoon.CLib.{strcmp_equal}
use traccoon.GetPeers.Options.{Settings}
use traccoon.GetPeers.{path_parts}
use traccoon.Memory.{Run, returns, fault, ◌>>=◌, read}
use traccoon.NetLib.Http.{Network, http_get}
use traccoon.NetLib.Merge.{terminated}
use traccoon.NetLib.{UrlComponents, parse_url_destructive, string_merge}
use traccoon.Torrent.{Host, read_torrentfile, is_negative}
use traccoon.Track.Announce.{text_in}
use traccoon.Prelude.{
  ℕ, Bool, true, false, Option, none, some, [], ◌∷◌, ◌++◌, map, Bytes, codes, drop, ◌==◌,
  if◌then◌else◌, ℤ, pos, minus_one, ==ℤ,
}

-- What the program has before the request: the tracker and the array with the hash. It ends with a
-- status otherwise.
pub data Prepared : Type 0 where
  ready : Option Bytes → Bytes → Prepared
  stops : ℤ → Prepared

-- whether the tracker or the hash is missing
unfoldable pub lacks : Option Bytes → Bytes → Run Bool
lacks none hash = returns true
lacks (some tracker) hash = do first ← read hash 0; returns (first == 0)

-- The torrent file is read if something is missing.
unfoldable pub read_missing : Host → ℕ → Settings → Run Prepared
read_missing host fuel s = do
  lack ← lacks s.tracker s.hash
  elim lack [
    | false ↦ returns (ready s.tracker s.hash)
    | true ↦ elim s.infile [
      | none ↦ returns (stops (pos 1))
      | some file ↦ do
        torrent ← read_torrentfile host fuel (some file) s.tracker s.hash
        returns (
            if is_negative torrent.result
            then stops (pos 1)
            else ready torrent.tracker torrent.hash)
    ]
  ]

-- the string at an offset of a buffer, if there is one
abbrev pub string_at : Bytes → Option ℕ → Option Bytes
string_at buffer none = none
string_at buffer (some n) = some (terminated (text_in (drop n buffer)))

abbrev pub or_port : Option Bytes → Option Bytes
or_port none = some (codes "80" ++ 0 ∷ [])
or_port (some port) = some port

-- The request, for a URL that was taken apart: the result of `http_get` and the response, or a
-- status.
unfoldable pub request_peers :
    Network → Settings → Bytes → Bytes → Bytes → UrlComponents → Run (ℤ × Option Bytes)
request_peers net s hash peerid buffer url = elim (string_at buffer url.host) [
  | none ↦ returns (minus_one, none)
  | some host ↦ elim (string_at buffer url.path) [
    | none ↦ returns (minus_one, none)
    | some path ↦ do
      merged ← string_merge net.malloc (
          map terminated (
            path_parts (text_in path) (text_in hash) s.local_port s.numwant (text_in peerid)
              s.bt_event s.request_compact))
      http_get net (some host) (or_port (string_at buffer url.port)) merged
  ]
]

-- The tracker's URL is taken apart; its protocol has to be `http`.
unfoldable pub fetch : Network → Settings → Bytes → Bytes → Bytes → Run (ℤ × Option Bytes)
fetch net s hash peerid tracker = do
  url ← parse_url_destructive tracker
  elim (==ℤ url.1.status (pos 0)) [
    | false ↦ returns (pos 1, none)
    | true ↦ elim url.1.protocol [
      | none ↦ fault
      | some n ↦ do
        is_http ← strcmp_equal (drop n url.0) (codes "http" ++ 0 ∷ [])
        elim is_http [
          | false ↦ returns (pos 1, none)
          | true ↦ request_peers net s hash peerid url.0 url.1
        ]
    ]
  ]

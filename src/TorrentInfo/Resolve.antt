-- ===== src/TorrentInfo/Resolve.antt =====
-- The offset of the root node leads to the value that the path names.
use traccoon.Benc.Lookup.{lookup, item}
use traccoon.Benc.Shape.{limit}
use traccoon.Benc.Value.{Value, num, str, list, dict, encode}
use traccoon.CLib.Decimal.{value}
use traccoon.Memory.{Run, returns}
use traccoon.NetLib.Merge.{IsNonzero}
use traccoon.TorrentInfo.{all_digits}
use traccoon.Prelude.{
  ℕ, ◌<◌, ◌≤◌, ◌≡◌, Option, none, some, List, [], ◌∷◌, ◌++◌, Bytes, length, drop, All,
  if◌then◌else◌,
}

abbrev pub or_else : Option Value → Value → Value
or_else none v = v
or_else (some w) v = w

-- The value that a token leads to, or the same value if it leads nowhere.
unfoldable pub reach_token : Value → Bytes → Value
reach_token (num z) token = num z
reach_token (str s) token = str s
reach_token (list xs) token =
    if all_digits token then or_else (item xs (value 0 token)) (list xs) else list xs
reach_token (dict fs) token = or_else (lookup fs token) (dict fs)

unfoldable pub reach : Value → List Bytes → Value
reach v [] = v
reach v (token ∷ tokens) = reach (reach_token v token) tokens

-- What `strtok` gives, a text that is not empty; a number in it is below 2^31.
abbrev pub IsToken : Bytes → Type 0
IsToken token = (0 < length token) × All IsNonzero token × (value 0 token < limit)

-- A value stands at an offset, and can be read.
pub record StandsAt (fuel : ℕ) (buffer : Bytes) (v : Value) (p : ℕ) : Type 0 where
  pub behind : Bytes
  pub here : drop p buffer ≡ encode v ++ behind
  pub enough : length (encode v) ≤ fuel
  pub fits : length (encode v) < limit

-- the offset that a run returns
abbrev pub LeadsTo : ℕ → Bytes → Value → Run ℕ → Type 0
LeadsTo fuel buffer v run = (q : ℕ) × (run ≡ returns q) × StandsAt fuel buffer v q

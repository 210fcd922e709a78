-- ===== src/GetPeers/Reply.antt =====
-- getpeers/getpeers.c: the listing of a reply to an announce, from its body on.
use traccoon.Benc.Length.{from, type_at}
use traccoon.Benc.Offset.{list_item_offset}
use traccoon.Benc.Scan.{EntityType, t_list, t_string, string_length, string_data_offset}
use traccoon.CLib.Decimal.{decimal}
use traccoon.CLib.{strstr}
use traccoon.GetPeers.{find, write_string, write_int}
use traccoon.Memory.{Run, returns, out_of_fuel, ◌>>=◌, read}
use traccoon.Torrent.{is_negative, is_dict, read_bytes}
use traccoon.Prelude.{
  ℕ, zero, suc, ◌+◌, ◌*◌, ◌/◌, ◌%◌, Bool, true, false, ◌||◌, Option, none, some, [], ◌∷◌, ◌++◌,
  Bytes, codes, drop, ◌==◌, if◌then◌else◌, ℤ, pos, negsuc, minus_one, ltb_ℤ, ◌+ℤ◌,
}

abbrev pub is_positive : ℤ → Bool
is_positive z = ltb_ℤ (pos 0) z

abbrev pub newline : Bytes
newline = 10 ∷ []

abbrev pub tab : Bytes
tab = 9 ∷ []

-- A number of the dictionary at `p` that is printed between two texts, and what is printed if it is
-- missing.
unfoldable pub list_number : ℕ → Bytes → ℤ → Bytes → Bytes → Bytes → Bytes → Run Bytes
list_number fuel body p key before after missing = do
  offset ← find fuel body p key
  elim (is_positive offset) [
    | true ↦ do
      n ← write_int body (p +ℤ offset)
      returns (tab ++ (before ++ (n ++ (after ++ newline))))
    | false ↦ returns missing
  ]

-- The address, the port and the id of the peer whose dictionary is at `p`.
unfoldable pub list_peer : ℕ → Bytes → ℤ → Run Bytes
list_peer fuel body p = do
  t ← type_at body p
  elim (is_dict t) [
    | false ↦ returns (codes "Invalid data received" ++ newline)
    | true ↦ do
      ip_offset ← find fuel body p (codes "ip")
      port_offset ← find fuel body p (codes "port")
      id_offset ← find fuel body p (codes "peer id")
      elim (is_negative ip_offset || is_negative port_offset) [
        | true ↦ returns (codes "Incomplete peer dictionary" ++ newline)
        | false ↦ do
          ip ← write_string body (p +ℤ ip_offset)
          port ← write_int body (p +ℤ port_offset)
          id ←
              (if is_positive id_offset
                then (do s ← write_string body (p +ℤ id_offset); returns (b' ' ∷ s))
                else returns [])
          returns (tab ++ (tab ++ (ip ++ (b':' ∷ port ++ (id ++ newline)))))
      ]
  ]

-- The loop over the peers of the list at `p`, with the offset of the item.
unfoldable pub list_peers : ℕ → ℕ → Bytes → ℤ → ℕ → ℤ → Run Bytes
list_peers fuel zero body p item item_offset = out_of_fuel
list_peers fuel (suc rounds) body p item item_offset =
    if is_positive item_offset
    then (do
      peer ← list_peer fuel body (p +ℤ item_offset)
      next ← list_item_offset fuel body p (pos (item + 1))
      rest ← list_peers fuel rounds body p (item + 1) next
      returns (peer ++ rest))
    else returns []

-- `inet_ntop` of four bytes, as a parameter, and the port behind them: `ntohs` of two bytes
unfoldable pub compact_peer : (Bytes → Option Bytes) → Bytes → Run Bytes
compact_peer ntop entry = do
  bytes ← read_bytes entry (pos 4)
  elim (ntop bytes) [
    | none ↦ returns (codes "Failed to convert IP address" ++ newline)
    | some address ↦ do
      high ← read entry 4
      low ← read entry 5
      returns (tab ++ (tab ++ (address ++ (b':' ∷ decimal (high * 256 + low) ++ newline))))
  ]

-- The loop over the entries of a compact list, of which `n` are left.
unfoldable pub compact_peers : (Bytes → Option Bytes) → Bytes → ℕ → Run Bytes
compact_peers ntop list zero = returns []
compact_peers ntop list (suc n) = do
  peer ← compact_peer ntop list
  rest ← compact_peers ntop (drop 6 list) n
  returns (peer ++ rest)

-- The list, for its length.
unfoldable pub compact_list : (Bytes → Option Bytes) → Bytes → ℤ → Run Bytes
compact_list ntop list (pos n) =
    if n % 6 == 0
    then compact_peers ntop list (n / 6)
    else returns (codes "Compact peer data is invalid" ++ newline)
compact_list ntop list (negsuc n) =
    returns (if (n + 1) % 6 == 0 then [] else codes "Compact peer data is invalid" ++ newline)

-- The case of a string of peers at `p`.
unfoldable pub list_compact : (Bytes → Option Bytes) → Bytes → ℤ → Run Bytes
list_compact ntop body p = do
  entity ← from body p
  len ← string_length entity
  data_offset ← string_data_offset entity
  list ← from body (p +ℤ data_offset)
  compact_list ntop list len

-- The switch on the type of what is at the offset of `peers`.
unfoldable pub list_by_type : (Bytes → Option Bytes) → ℕ → Bytes → ℤ → EntityType → Run Bytes
list_by_type ntop fuel body p t_list = do
  first ← list_item_offset fuel body p (pos 0)
  peers ← list_peers fuel fuel body p 0 first
  returns (tab ++ (codes "Peers (received in non-compact format):" ++ (newline ++ peers)))
list_by_type ntop fuel body p t_string = do
  peers ← list_compact ntop body p
  returns (tab ++ (codes "Peers (received in compact format):" ++ (newline ++ peers)))
list_by_type ntop fuel body p _ = returns (codes "Failed to read peers section of reply" ++ newline)

-- The reason of a failure at an offset.
unfoldable pub list_failure : Bytes → ℤ → Run Bytes
list_failure body offset = do
  t ← type_at body offset
  elim t [
    | t_string ↦ do reason ← write_string body offset; returns (codes "Tracker error: " ++ reason)
    | _ ↦ returns (codes "Tracker error: Reason in invalid format")
  ]

-- The branch for a reply that is no failure. The offset of the peers is not tested.
unfoldable pub list_answer : (Bytes → Option Bytes) → ℕ → Bytes → ℤ → Run Bytes
list_answer ntop fuel body p = do
  interval ←
      list_number fuel body p (codes "interval") (codes "Announce interval: ") (codes " seconds")
        (codes "Tracker response did not include announce interval" ++ newline)
  seeds ← list_number fuel body p (codes "complete") (codes "Active Seeds: ") [] []
  peers ← list_number fuel body p (codes "incomplete") (codes "Active Peers: ") [] []
  offset ← find fuel body p (codes "peers")
  t ← type_at body (p +ℤ offset)
  listed ← list_by_type ntop fuel body (p +ℤ offset) t
  returns (interval ++ (seeds ++ (peers ++ listed)))

-- Where the body of a response begins: behind the first empty line.
unfoldable pub response_body : Bytes → Run (Option ℕ)
response_body response = do
  found ← strstr response (13 ∷ 10 ∷ 13 ∷ 10 ∷ [])
  elim found [ none ↦ returns none | some n ↦ returns (some (n + 4)) ]

-- The body at `p` of a response.
unfoldable pub list_body : (Bytes → Option Bytes) → ℕ → Bytes → ℤ → Run (ℤ × Bytes)
list_body ntop fuel response p = do
  t ← type_at response p
  elim (is_dict t) [
    | false ↦ returns (minus_one, codes "Response not a proper bencoded dictionary" ++ newline)
    | true ↦ do
      reason ← find fuel response p (codes "failure reason")
      text ←
          (if is_positive reason
            then list_failure response (p +ℤ reason)
            else list_answer ntop fuel response p)
      returns (pos 0, newline ++ (codes "Tracker response:" ++ (newline ++ text)))
  ]

-- The result of the program, and what it prints, for a response.
unfoldable pub list_response : (Bytes → Option Bytes) → ℕ → Bytes → Run (ℤ × Bytes)
list_response ntop fuel response = do
  body ← response_body response
  elim body [
    | none ↦
        returns
          (minus_one, codes "Invalid reply or non-protocol conforming server, aborting" ++ newline)
    | some p ↦ list_body ntop fuel response (pos p)
  ]

-- ===== src/TorrentInfo/Node.antt =====
-- torrentinfo/torrentinfo.c: `handle_bencoded_node`, with the text it prints. The fuel bounds the
-- depth and the number of entries that are counted.
use traccoon.Benc.Length.{from, type_at, entity_length}
use traccoon.Benc.Offset.{dict_key_offset, list_item_offset}
use traccoon.Benc.Scan.{
  EntityType, t_dict, t_list, t_int, t_string, t_fail, int_value, string_length, string_data_offset,
}
use traccoon.CLib.Decimal.{decimal, print_int}
use traccoon.Encoding.Hex.{hex_encode}
use traccoon.Memory.{Run, returns, out_of_fuel, ◌>>=◌, read}
use traccoon.Torrent.{is_negative, read_bytes}
use traccoon.Track.Announce.{text_in}
use traccoon.Prelude.{
  ℕ, zero, suc, ◌+◌, Bool, true, false, not, ◌&&◌, Option, none, some, [], ◌∷◌, ◌++◌, Bytes, codes,
  replicate, ltb, leb, if◌then◌else◌, ℤ, pos, negsuc, minus_one, ltb_ℤ, ◌+ℤ◌,
}

-- `MAX_PRINTABLE_STRING_LENGTH`
abbrev pub max_printable_string_length : ℕ
max_printable_string_length = 15

-- what is displayed, and SHA-1
pub record Display : Type 0 where
  pub recurse : Bool
  pub display_hash : Bool
  pub display_type : Bool
  pub display_values : Bool
  pub sha1 : Bytes → Bytes

abbrev pub newline : Bytes
newline = 10 ∷ []

-- a text that is printed on a condition
abbrev pub shown : Bool → Bytes → Bytes
shown true s = s
shown false s = []

-- `tab`
unfoldable pub tabs : ℕ → Bytes
tabs num = replicate num 9

-- the hash of a node; `none` where its length cannot be computed
unfoldable pub node_hash : Display → ℕ → Bytes → ℤ → Run (Option Bytes)
node_hash d fuel buffer p = do
  len ← entity_length fuel buffer p
  elim (is_negative len) [
    | true ↦ returns none
    | false ↦ do
      node ← from buffer p
      entity ← read_bytes node len
      returns (some (hex_encode (d.sha1 entity) ++ b' ' ∷ []))
  ]

-- The loop that counts entries, whose offsets are positive.
unfoldable pub count_entries : (ℕ → Run ℤ) → ℕ → ℕ → Run ℕ
count_entries offset_of zero i = out_of_fuel
count_entries offset_of (suc fuel) i = do
  off ← offset_of i
  elim (ltb_ℤ (pos 0) off) [ true ↦ count_entries offset_of fuel (i + 1) | false ↦ returns i ]

-- `isprint` in the C locale
abbrev pub isprint : ℕ → Bool
isprint c = leb 32 c && ltb c 127

-- The loop over the bytes of a string, from index `i` with `n` bytes left.
unfoldable pub string_text : Bool → Bytes → ℕ → ℕ → Run Bytes
string_text nested s zero i = returns []
string_text nested s (suc n) i =
    let rest = string_text nested s n (i + 1) in
    if leb max_printable_string_length i && nested then returns (codes "[...]") else (do
      c ← read s i
      if isprint c then (rest >>= λ t. returns (c ∷ t)) else returns (codes "[Non-printable]"))

-- the rounds of a loop up to a length
abbrev pub length_rounds : ℤ → ℕ
length_rounds (pos n) = n
length_rounds (negsuc n) = 0

-- The cases of a node that has no entries: what is printed.
unfoldable pub int_text : Display → Bytes → ℤ → Run Bytes
int_text d buffer p = do
  node ← from buffer p
  c ← int_value node minus_one
  returns
      (shown d.display_type (codes "Integer ") ++ (shown d.display_values (print_int c) ++ newline))

unfoldable pub string_case : Display → Bytes → ℕ → ℤ → Run Bytes
string_case d buffer depth p = do
  node ← from buffer p
  c ← string_length node
  off ← string_data_offset node
  behind ← from node off
  content ←
      (if d.display_values
        then string_text (ltb 0 depth) behind (length_rounds c) 0
        else returns [])
  returns (
      shown d.display_type (codes "String[" ++ (print_int c ++ codes "] ")) ++ (content ++ newline))

-- The loops over the entries, where `handle` is the recursive call for a depth and a node: its
-- result and what it prints.
unfoldable pub handle_keys : (ℤ → Run (ℤ × Bytes)) → (ℕ → Run ℤ) → ℤ → ℕ → ℕ → Run Bytes
handle_keys handle key_offset p zero c = returns []
handle_keys handle key_offset p (suc n) c = do
  off ← key_offset c
  printed ← handle (p +ℤ off)
  rest ← handle_keys handle key_offset p n (c + 1)
  returns (printed.1 ++ rest)

unfoldable pub handle_fields :
    (ℕ → ℤ → Run (ℤ × Bytes)) → (ℤ → Run ℤ) → (ℕ → Run ℤ) → ℤ → ℕ → ℕ → Run Bytes
handle_fields handle len key_offset p zero c = returns []
handle_fields handle len key_offset p (suc n) c = do
  key ← key_offset c
  size ← len (p +ℤ key)
  first ← handle 1 (p +ℤ key)
  second ← handle 2 (p +ℤ (key +ℤ size))
  rest ← handle_fields handle len key_offset p n (c + 1)
  returns (first.1 ++ (second.1 ++ rest))

-- An item that cannot be handled ends the listing.
unfoldable pub handle_items : (ℤ → Run (ℤ × Bytes)) → (ℕ → Run ℤ) → ℤ → ℕ → ℕ → Run (ℤ × Bytes)
handle_items handle item_offset p zero c = returns (pos 0, [])
handle_items handle item_offset p (suc n) c = do
  off ← item_offset c
  printed ← handle (p +ℤ off)
  elim (is_negative printed.0) [
    | true ↦ returns (
      minus_one,
      printed.1
          ++ (codes "Failed to handle node "
              ++ (decimal c ++ (codes " with offset " ++ (print_int off ++ newline)))),
    )
    | false ↦ do
      rest ← handle_items handle item_offset p n (c + 1)
      returns (rest.0, printed.1 ++ rest.1)
  ]

-- What is printed in front of the entries of a node with `n` of them.
unfoldable pub compound_head : Display → Bytes → ℕ → Bytes → Bytes
compound_head d name n unit_name =
    shown d.display_type name
    ++ (shown (d.display_values && d.display_type) (b'(' ∷ decimal n ++ unit_name) ++ newline)

-- The cases of a node, where `handle` is the recursive call for a depth below this one and a node.
unfoldable pub node_by_type :
    Display → ℕ → Bytes → (ℕ → ℤ → Run (ℤ × Bytes)) → ℕ → ℤ → EntityType → Run (ℤ × Bytes)
node_by_type d fuel buffer handle depth p t_dict = do
  n ← count_entries (λ i. dict_key_offset fuel buffer p (pos i)) fuel 0
  keys ←
      (if d.display_values && not d.recurse
        then handle_keys (handle 1) (λ i. dict_key_offset fuel buffer p (pos i)) p n 0
        else returns [])
  fields ←
      (if d.recurse
        then handle_fields handle (entity_length fuel buffer)
            (λ i. dict_key_offset fuel buffer p (pos i)) p n 0
        else returns [])
  returns (pos 0, compound_head d (codes "Dict ") n (codes " keys)") ++ (keys ++ fields))
node_by_type d fuel buffer handle depth p t_list = do
  n ← count_entries (λ i. list_item_offset fuel buffer p (pos i)) fuel 0
  items ←
      (if d.recurse
        then handle_items (handle 1) (λ i. list_item_offset fuel buffer p (pos i)) p n 0
        else returns (pos 0, []))
  returns (items.0, compound_head d (codes "List ") n (codes " entries)") ++ items.1)
node_by_type d fuel buffer handle depth p t_int = do
  text ← int_text d buffer p
  returns (pos 0, text)
node_by_type d fuel buffer handle depth p t_string = do
  text ← string_case d buffer depth p
  returns (pos 0, text)
node_by_type d fuel buffer handle depth p t_fail = do
  node ← from buffer p
  returns (minus_one, codes "Type detection failed @ " ++ (text_in node ++ newline))

-- The result of `handle_bencoded_node` at an offset, and what it prints.
unfoldable pub handle_bencoded_node : Display → ℕ → Bytes → ℕ → ℤ → Run (ℤ × Bytes)
handle_bencoded_node d zero buffer depth p = out_of_fuel
handle_bencoded_node d (suc fuel) buffer depth p = do
  hash ← (if d.display_hash then node_hash d (suc fuel) buffer p else returns (some []))
  elim hash [
    | none ↦ returns (minus_one, tabs depth ++ (codes "Length calculation failed" ++ newline))
    | some h ↦ do
      t ← type_at buffer p
      printed ←
          node_by_type d (suc fuel) buffer
            (λ below q. handle_bencoded_node d fuel buffer (depth + below) q) depth p t
      returns (printed.0, tabs depth ++ (h ++ printed.1))
  ]

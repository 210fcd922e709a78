-- ===== src/TorrentInfo/Strings.antt =====
-- How a string is listed.
use traccoon.Benc.Length.{from}
use traccoon.Benc.Offset.Dict.{drop_text}
use traccoon.Benc.Length.Rounds.{type_at_lem}
use traccoon.Benc.Offset.Find.{length-key}
use traccoon.Benc.Scan.Shape.{
  entity_type-encode_string, string_length-encode_string, string_data_offset-encode_string,
}
use traccoon.Benc.Shape.{limit}
use traccoon.Benc.Value.{encode_string}
use traccoon.CLib.Decimal.{decimal, print_int}
use traccoon.Memory.{returns, read-drop}
use traccoon.TorrentInfo.Node.{
  Display, max_printable_string_length, isprint, string_text, string_case, node_by_type,
  handle_bencoded_node, shown, tabs, newline, length_rounds,
}
use traccoon.Prelude.{
  drop_tail, ℕ, zero, suc, ◌+◌, ◌<◌, ◌≡◌, refl, ap, ◌∙◌, Bool, true, false, ◌&&◌, [], ◌∷◌, ◌++◌,
  Bytes, codes, length, take, drop, All, ltb, leb, if◌then◌else◌, pos, arith,
}

abbrev pub IsPrintable : ℕ → Type 0
IsPrintable c = isprint c ≡ true

abbrev pub are_printable : Bytes → Bool
are_printable [] = true
are_printable (c ∷ s) = isprint c && are_printable s

pub are_printable-IsPrintable : (s : Bytes) → are_printable s ≡ true → All IsPrintable s
are_printable-IsPrintable [] h = tt
are_printable-IsPrintable (c ∷ s) h = (ground arith, are_printable-IsPrintable s (ground arith))

-- A string as it is listed: inside of another node, at most 15 bytes of it.
unfoldable pub listed : Bool → Bytes → Bytes
listed nested s =
    if nested && ltb max_printable_string_length (length s)
    then take max_printable_string_length s ++ codes "[...]"
    else s

-- The same from the index `i` on, with `room` bytes left that are listed.
listed_from : Bool → ℕ → Bytes → Bytes
listed_from nested room s =
    if nested && ltb room (length s) then take room s ++ codes "[...]" else s

and_false : (b : Bool) → (b && false) ≡ false
and_false true = refl
and_false false = refl

drop_next : (buf : Bytes) (i : ℕ) {x : ℕ} {s : Bytes} → drop i buf ≡ x ∷ s → drop (i + 1) buf ≡ s
drop_next buf i h = ap (λ n. drop n buf) {y = suc i} (omega arith) ∙ drop_tail buf i h

string_text_lem :
    (nested : Bool) (buf s rest : Bytes) (i room : ℕ)
    → drop i buf ≡ s ++ rest
    → All IsPrintable s
    → (nested ≡ true → i + room ≡ max_printable_string_length)
    → string_text nested buf (length s) i ≡ returns (listed_from nested room s)
unfolding string_text listed_from
string_text_lem nested buf [] rest i room here ok count = ground arith
string_text_lem true buf (x ∷ s) rest i zero here (x_ok, ok) count =
    let full : leb max_printable_string_length i ≡ true = ground (arith, count refl) in
    let longer : ltb 0 (suc (length s)) ≡ true = ground arith in rw (full, longer) refl
string_text_lem true buf (x ∷ s) rest i (suc room) here (x_ok, ok) count =
    let more : leb max_printable_string_length i ≡ false = ground (arith, count refl) in
    let next =
      string_text_lem true buf s rest (i + 1) room (drop_next buf i here) ok
        (λ h. omega (arith, count refl)) in
    rw (more, read-drop buf i here, x_ok, next) (ground arith)
string_text_lem false buf (x ∷ s) rest i room here (x_ok, ok) count =
    let next =
      string_text_lem false buf s rest (i + 1) room (drop_next buf i here) ok (λ h. absurd (cc)) in
    rw (and_false (leb max_printable_string_length i), read-drop buf i here, x_ok, next) refl

listed_lem :
    (nested : Bool) (s : Bytes) → listed_from nested max_printable_string_length s ≡ listed nested s
unfolding listed listed_from
listed_lem nested s = refl

pub from_lem : (buf : Bytes) (p : ℕ) {s : Bytes} → drop p buf ≡ s → from buf (pos p) ≡ returns s
unfolding from
from_lem buf p h = ap returns h

print_int-pos : (n : ℕ) → print_int (pos n) ≡ decimal n
unfolding print_int
print_int-pos n = refl

content_lem :
    (show_it nested : Bool) (s rest : Bytes)
    → All IsPrintable s
    → (if show_it
        then string_text nested (s ++ rest) (length_rounds (pos (length s))) 0
        else returns [])
      ≡ returns (shown show_it (listed nested s))
content_lem false nested s rest ok = refl
content_lem true nested s rest ok =
    string_text_lem nested (s ++ rest) s rest 0 max_printable_string_length refl ok (λ h. refl)
    ∙ ap returns (listed_lem nested s)

string_case_lem :
    (d : Display) (buf : Bytes) (depth p : ℕ) (s rest : Bytes)
    → drop p buf ≡ encode_string s ++ rest
    → length (encode_string s) < limit
    → All IsPrintable s
    → string_case d buf depth (pos p)
      ≡ returns (
          shown d.display_type (codes "String[" ++ (decimal (length s) ++ codes "] "))
          ++ (shown d.display_values (listed (ltb 0 depth) s) ++ newline))
unfolding string_case
string_case_lem d buf depth p s rest here fits ok =
    let node : Bytes = encode_string s ++ rest in
    let size : length s < 2147483648 = omega (arith, fits, length-key s) in
    let behind : drop (length (decimal (length s)) + 1) node ≡ s ++ rest =
      ap (λ n. drop n node) {y = 0 + (length (decimal (length s)) + 1)} (omega arith)
      ∙ drop_text node 0 s rest refl in
    rw
      (
        from_lem buf p here,
        string_length-encode_string s rest size,
        string_data_offset-encode_string s rest,
        from_lem node (length (decimal (length s)) + 1) behind,
        content_lem d.display_values (ltb 0 depth) s rest ok,
        print_int-pos (length s),
      )
      refl

-- A string of printable bytes, below 2^31 of them with its length, that is listed without its hash:
-- the tabs, its length where types are displayed, and where values are displayed the string, of
-- which at most 15 bytes inside of another node.
pub handle_bencoded_node-listed :
    (d : Display) (fuel : ℕ) (buf : Bytes) (depth p : ℕ) (s rest : Bytes)
    → d.display_hash ≡ false
    → drop p buf ≡ encode_string s ++ rest
    → length (encode_string s) < limit
    → All IsPrintable s
    → handle_bencoded_node d (suc fuel) buf depth (pos p)
      ≡ returns (
        pos 0,
        tabs depth
            ++ (shown d.display_type (codes "String[" ++ (decimal (length s) ++ codes "] "))
                ++ (shown d.display_values (listed (ltb 0 depth) s) ++ newline)),
      )
unfolding handle_bencoded_node node_by_type
handle_bencoded_node-listed d fuel buf depth p s rest no_hash here fits ok =
    let typed = type_at_lem buf p here (entity_type-encode_string s rest) in
    rw (no_hash, typed, string_case_lem d buf depth p s rest here fits ok) refl

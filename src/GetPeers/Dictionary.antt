-- ===== src/GetPeers/Dictionary.antt =====
-- What getpeers prints for the dictionary of a compact reply.
use traccoon.Benc.Length.Encode.{entity_type_dict}
use traccoon.Benc.Length.Rounds.{type_at_lem}
use traccoon.Benc.Length.{type_at}
use traccoon.Benc.Lookup.{lookup, dict_value_offset-lookup, dict_value_offset-missing}
use traccoon.Benc.Offset.Dict.{same_bytes}
use traccoon.Benc.Scan.IntValue.{int_value-encode}
use traccoon.Benc.Scan.Shape.{entity_type-encode_string}
use traccoon.Benc.Scan.{t_string}
use traccoon.Benc.Shape.{limit, encode-dict}
use traccoon.Benc.Value.{num, str, dict, Fields, encode}
use traccoon.CLib.Decimal.{decimal, print_int}
use traccoon.GetPeers.Compact.{list_compact-lines, Entry, IsEntry, packed, lines}
use traccoon.GetPeers.Reply.{tab, newline, list_number, list_by_type, list_answer, list_body}
use traccoon.GetPeers.{find, write_int}
use traccoon.Memory.{returns, bind-returns}
use traccoon.Track.Compact.{answer}
use traccoon.TorrentInfo.Strings.{from_lem}
use traccoon.Prelude.{
  ℕ, ◌+◌, ◌<◌, ◌≤◌, ◌≡◌, ◌≢◌, refl, ap, sym, ◌∙◌, false, Option, none, some, List, [], ◌++◌, Bytes,
  codes, length, drop, All, ltb, ℤ, pos, minus_one, ◌+ℤ◌, +ℤ-pos, arith,
}

-- A reply with an interval of two digits or more and the addresses of some peers of IPv4, in a
-- buffer from an offset on.
module _ (ntop : Bytes → Option Bytes) (show_address : Bytes → Bytes)
    (shows : (s : Bytes) → ntop s ≡ some (show_address s)) (es : List Entry) (ok : All IsEntry es)
    (interval : ℕ) (two_digits : 9 < interval) (is_int : interval < limit) (fuel : ℕ) (buf : Bytes)
    (p : ℕ) (rest : Bytes) where
  abbrev fields : Fields
  fields = answer (pos interval) (packed es) []

  module _ (here : drop p buf ≡ encode (dict fields) ++ rest)
      (enough : length (encode (dict fields)) ≤ fuel)
      (fits : length (encode (dict fields)) < limit) where
    find-missing :
        (key : Bytes)
        → lookup fields key ≡ none
        → All (λ x. x ≢ 0) key
        → find fuel buf (pos p) key ≡ returns minus_one
    unfolding find
    find-missing key missing nz =
        dict_value_offset-missing fields key [] fuel buf p rest missing nz here enough fits

    list_number-missing :
        (key before after missing : Bytes)
        → lookup fields key ≡ none
        → All (λ x. x ≢ 0) key
        → list_number fuel buf (pos p) key before after missing ≡ returns missing
    unfolding list_number
    list_number-missing key before after missing absent nz = rw (find-missing key absent nz) refl

    list_number-found :
        (key before after missing number : Bytes) (offset : ℕ)
        → find fuel buf (pos p) key ≡ returns (pos offset)
        → 0 < offset
        → write_int buf (pos (p + offset)) ≡ returns number
        → list_number fuel buf (pos p) key before after missing
          ≡ returns (tab ++ (before ++ (number ++ (after ++ newline))))
    unfolding list_number
    list_number-found key before after missing number offset found more written =
        let there : write_int buf (pos p +ℤ pos offset) ≡ returns number =
          ap (write_int buf) (+ℤ-pos p offset) ∙ written in
        rw found (ground (arith, more, there))

    write_int-num :
        (q n : ℕ) (behind : Bytes)
        → drop q buf ≡ encode (num (pos n)) ++ behind
        → 9 < n
        → n < limit
        → write_int buf (pos q) ≡ returns (decimal n)
    unfolding write_int print_int
    write_int-num q n behind there more fits =
        let two : ltb n 10 ≡ false = ground (arith, more) in
        let read = int_value-encode (pos n) behind minus_one fits in
        rw (from_lem buf q there, read, two) refl

    list_number-interval :
        (before after missing : Bytes)
        → list_number fuel buf (pos p) (codes "interval") before after missing
          ≡ returns (tab ++ (before ++ (decimal interval ++ (after ++ newline))))
    unfolding find lookup same_bytes answer
    list_number-interval before after missing =
        let f =
          dict_value_offset-lookup fields (codes "interval") [] fuel buf p rest
            {v = num (pos interval)} refl (omega arith) here enough fits in
        list_number-found (codes "interval") before after missing (decimal interval) f.offset f.ends
          f.positive (write_int-num (p + f.offset) interval f.behind f.here two_digits is_int)

    pub returned : {a b : ℤ} → returns a ≡ returns b → a ≡ b
    returned e = cc

    -- The list of the peers, at an offset of the dictionary.
    list_peers-lines :
        (offset : ℤ)
        → find fuel buf (pos p) (codes "peers") ≡ returns offset
        → (list_by_type ntop fuel buf (pos p +ℤ offset) t_string
            ≡ returns (
                tab
                ++ (codes "Peers (received in compact format):"
                    ++ (newline ++ lines show_address es))))
          × (type_at buf (pos p +ℤ offset) ≡ returns t_string)
    unfolding list_by_type find lookup same_bytes answer encode
    list_peers-lines offset found =
        let f =
          dict_value_offset-lookup fields (codes "peers") [] fuel buf p rest {v = str (packed es)}
            refl (omega arith) here enough fits in
        let same : pos f.offset ≡ offset = returned (sym f.ends ∙ found) in
        let listed =
          list_compact-lines ntop show_address es buf f.behind (p + f.offset) shows ok f.here
            (omega (arith, f.within, fits)) in
        let typed =
          type_at_lem buf (p + f.offset) f.here (entity_type-encode_string (packed es) f.behind) in
        rw (← same, +ℤ-pos) (rw listed refl, typed)

    -- What is listed of the dictionary.
    abbrev listing : Bytes
    listing =
        (tab
          ++ (codes "Announce interval: " ++ (decimal interval ++ (codes " seconds" ++ newline))))
        ++ ([]
            ++ ([]
                ++ (tab
                    ++ (codes "Peers (received in compact format):"
                        ++ (newline ++ lines show_address es)))))

    list_answer-listing : list_answer ntop fuel buf (pos p) ≡ returns listing
    unfolding list_answer lookup same_bytes answer
    list_answer-listing =
        let f =
          dict_value_offset-lookup fields (codes "peers") [] fuel buf p rest {v = str (packed es)}
            refl (omega arith) here enough fits in
        let found : find fuel buf (pos p) (codes "peers") ≡ returns (pos f.offset) =
          unfold find in f.ends in
        let (listed, typed) = list_peers-lines (pos f.offset) found in
        bind-returns _
          (list_number-interval (codes "Announce interval: ") (codes " seconds")
            (codes "Tracker response did not include announce interval" ++ newline))
          (bind-returns _
            (list_number-missing (codes "complete") (codes "Active Seeds: ") [] [] refl
              (omega arith))
            (bind-returns _
              (list_number-missing (codes "incomplete") (codes "Active Peers: ") [] [] refl
                (omega arith))
              (bind-returns _ found (bind-returns _ typed (bind-returns _ listed refl)))))

    pub list_body-listing :
        list_body ntop fuel buf (pos p)
        ≡ returns (pos 0, newline ++ (codes "Tracker response:" ++ (newline ++ listing)))
    unfolding list_body lookup same_bytes answer
    list_body-listing =
        let start = here ∙ ap (λ s. s ++ rest) (encode-dict fields) in
        let missing = find-missing (codes "failure reason") refl (omega arith) in
        rw (type_at_lem buf p start (entity_type_dict _), missing, list_answer-listing) refl

-- What getpeers prints for an interval and the lines for the peers.
abbrev pub printed : ℕ → Bytes → Bytes
printed interval peers =
    newline
    ++ (codes "Tracker response:"
        ++ (newline
            ++ ((tab
                  ++ (codes "Announce interval: "
                      ++ (decimal interval ++ (codes " seconds" ++ newline))))
                ++ (tab ++ (codes "Peers (received in compact format):" ++ (newline ++ peers))))))

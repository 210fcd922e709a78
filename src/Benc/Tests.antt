-- ===== src/Benc/Tests.antt =====
-- Runs of benc/benc.c on concrete data, and its theorems at concrete data.
use traccoon.Benc.Length.{entity_length}
use traccoon.Benc.Length.Encode.{entity_length-encode}
use traccoon.Benc.Offset.{list_item_offset, dict_value_offset}
use traccoon.Benc.Offset.Dict.{value_position}
use traccoon.Benc.Offset.Find.{dict_value_offset-value_position}
use traccoon.Benc.Offset.List.{offset_from, item_position, list_item_offset-item_position}
use traccoon.Benc.Scan.{int_value}
use traccoon.Benc.Scan.IntValue.{has_one_digit, int_value-encode}
use traccoon.Benc.Value.{
  num, str, list, dict, Items, nil, cons, Fields, end, field, encode, encode_string,
}
use traccoon.CLib.Decimal.{decimal, print_int}
use traccoon.Memory.{returns}
use traccoon.Prelude.{
  ◌≡◌, refl, some, [], ◌∷◌, ◌++◌, codes, length, if◌then◌else◌, pos, negsuc, arith,
}

-- An answer of a tracker, as the client gets it.
abbrev answer : Fields
answer =
    field (codes "interval") (num (pos 1800))
      (field (codes "peers") (list (cons (str (codes "abcdef")) (cons (num (negsuc 4)) nil))) end)

abbrev peers : Items
peers = cons (str (codes "abcdef")) (cons (dict answer) (cons (num (pos 77)) nil))

entity_length-encode_example :
    entity_length 60 (codes "xy" ++ (encode (dict answer) ++ 0 ∷ [])) (pos 2)
    ≡ returns (pos (length (encode (dict answer))))
unfolding encode encode_string decimal print_int
entity_length-encode_example =
    entity_length-encode (dict answer) 60 (codes "xy" ++ (encode (dict answer) ++ 0 ∷ [])) 2
      (0 ∷ []) refl (omega arith) (omega arith)

list_item_offset-item_position_example :
    list_item_offset 90 (encode (list peers) ++ 0 ∷ []) (pos 0) (pos 2)
    ≡ returns (offset_from 0 (item_position peers 2))
unfolding encode encode_string decimal print_int
list_item_offset-item_position_example =
    list_item_offset-item_position peers 2 90 (encode (list peers) ++ 0 ∷ []) 0 (0 ∷ []) refl
      (omega arith) (omega arith)

dict_value_offset-value_position_example :
    dict_value_offset 60 (encode (dict answer) ++ 0 ∷ []) (pos 0) (some (codes "peers" ++ 0 ∷ []))
    ≡ returns (offset_from 0 (value_position answer (codes "peers")))
unfolding encode encode_string decimal print_int
dict_value_offset-value_position_example =
    dict_value_offset-value_position (codes "peers") [] (omega arith) 60
      (encode (dict answer) ++ 0 ∷ []) 0 answer (0 ∷ []) refl (omega arith) (omega arith)

int_value-encode_example :
    int_value (encode (num (negsuc 41)) ++ 0 ∷ []) (pos 3)
    ≡ returns (if has_one_digit (negsuc 41) then pos 3 else negsuc 41)
int_value-encode_example = int_value-encode (negsuc 41) (0 ∷ []) (pos 3) (omega arith)

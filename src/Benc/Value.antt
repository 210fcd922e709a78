-- ===== src/Benc/Value.antt =====
-- Values, and their bencoding: the format that benc/benc.c reads.
use traccoon.CLib.Decimal.{decimal, print_int}
use traccoon.Prelude.{[], ◌∷◌, ◌++◌, Bytes, length, ℤ}

mutual
  pub data Value : Type 0 where
    num : ℤ → Value
    str : Bytes → Value
    list : Items → Value
    dict : Fields → Value

  pub data Items : Type 0 where
    nil : Items
    cons : Value → Items → Items

  pub data Fields : Type 0 where
    end : Fields
    field : Bytes → Value → Fields → Fields

unfoldable pub encode_string : Bytes → Bytes
encode_string s = decimal (length s) ++ b':' ∷ s

unfoldable mutual
  pub encode : Value → Bytes
  encode (num z) = b'i' ∷ print_int z ++ b'e' ∷ []
  encode (str s) = encode_string s
  encode (list xs) = b'l' ∷ encode_items xs ++ b'e' ∷ []
  encode (dict fs) = b'd' ∷ encode_fields fs ++ b'e' ∷ []

  pub encode_items : Items → Bytes
  encode_items nil = []
  encode_items (cons v xs) = encode v ++ encode_items xs

  pub encode_fields : Fields → Bytes
  encode_fields end = []
  encode_fields (field k v fs) = encode_string k ++ (encode v ++ encode_fields fs)

-- ===== src/Benc/Shape.antt =====
-- The first byte and the length of what is encoded.
use traccoon.Benc.Length.{at_end}
use traccoon.Benc.Value.{
  Value, num, str, list, dict, Items, nil, cons, Fields, end, field, encode_string, encode,
  encode_items, encode_fields,
}
use traccoon.CLib.Decimal.{print_int, decimal-Digits}
use traccoon.Prelude.{
  ℕ, ◌+◌, ◌<◌, ◌≡◌, refl, ap, false, [], ◌∷◌, ◌++◌, Bytes, length, ℤ, arith, length-append,
}

-- The first byte of a value: it ends no list and no string.
unfoldable pub Starts : Bytes → Type 0
Starts s = (c : ℕ) × (t : Bytes) × (s ≡ c ∷ t) × (at_end c ≡ false)

pub Starts-encode_string : (k : Bytes) → Starts (encode_string k)
unfolding Starts encode_string at_end
Starts-encode_string k =
    let (c, t, e, digit, _) = decimal-Digits (length k) in
    (c, t ++ b':' ∷ k, ap (λ s. s ++ b':' ∷ k) e, ground arith)

pub Starts-encode : (v : Value) → Starts (encode v)
unfolding Starts encode at_end
Starts-encode (num z) = (b'i', _, refl, refl)
Starts-encode (str s) = unfold Starts in Starts-encode_string s
Starts-encode (list xs) = (b'l', _, refl, refl)
Starts-encode (dict fs) = (b'd', _, refl, refl)

pub Starts-append : (s rest : Bytes) → Starts s → Starts (s ++ rest)
unfolding Starts
Starts-append s rest (c, t, e, h) = (c, t ++ rest, ap (λ u. u ++ rest) e, h)

pub encode-list : (xs : Items) → encode (list xs) ≡ b'l' ∷ encode_items xs ++ b'e' ∷ []
unfolding encode
encode-list xs = refl

pub encode-dict : (fs : Fields) → encode (dict fs) ≡ b'd' ∷ encode_fields fs ++ b'e' ∷ []
unfolding encode
encode-dict fs = refl

pub encode_items-nil : encode_items nil ≡ []
unfolding encode_items
encode_items-nil = refl

pub encode_fields-end : encode_fields end ≡ []
unfolding encode_fields
encode_fields-end = refl

pub encode_items-cons :
    (v : Value) (xs : Items) → encode_items (cons v xs) ≡ encode v ++ encode_items xs
unfolding encode_items
encode_items-cons v xs = refl

pub encode_fields-field :
    (k : Bytes) (v : Value) (fs : Fields)
    → encode_fields (field k v fs) ≡ encode_string k ++ (encode v ++ encode_fields fs)
unfolding encode_fields
encode_fields-field k v fs = refl

-- The lengths of what is in front.
pub length-num : (z : ℤ) → length (encode (num z)) ≡ length (print_int z) + 2
unfolding encode
length-num z = omega (arith, length-append (print_int z) (b'e' ∷ []))

pub length-list : (xs : Items) → length (encode (list xs)) ≡ length (encode_items xs) + 2
unfolding encode
length-list xs = omega (arith, length-append (encode_items xs) (b'e' ∷ []))

pub length-dict : (fs : Fields) → length (encode (dict fs)) ≡ length (encode_fields fs) + 2
unfolding encode
length-dict fs = omega (arith, length-append (encode_fields fs) (b'e' ∷ []))

pub length-cons :
    (v : Value) (xs : Items)
    → length (encode_items (cons v xs)) ≡ length (encode v) + length (encode_items xs)
unfolding encode_items
length-cons v xs = length-append (encode v) (encode_items xs)

pub length-field :
    (k : Bytes) (v : Value) (fs : Fields)
    → length (encode_fields (field k v fs))
      ≡ length (encode_string k) + (length (encode v) + length (encode_fields fs))
unfolding encode_fields
length-field k v fs = omega (
  arith,
  length-append (encode_string k) (encode v ++ encode_fields fs),
  length-append (encode v) (encode_fields fs),
)

pub Starts-pos : (s : Bytes) → Starts s → 0 < length s
unfolding Starts
Starts-pos s (c, t, e, _) = rw e (omega arith)

abbrev pub limit : ℕ
limit = 2147483648

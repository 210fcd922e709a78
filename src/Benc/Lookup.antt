-- ===== src/Benc/Lookup.antt =====
-- What stands at the offsets that `benc_dict_value_offset` and `benc_list_item_offset` return.
use traccoon.Benc.Length.Encode.{inside}
use traccoon.Benc.Offset.Dict.{same_bytes, value_position}
use traccoon.Benc.Offset.Find.{dict_value_offset-value_position}
use traccoon.Benc.Offset.List.{item_position, offset_from, list_item_offset-item_position}
use traccoon.Benc.Offset.{dict_value_offset, list_item_offset}
use traccoon.Benc.Shape.{
  encode-dict, encode-list, encode_fields-field, encode_items-cons, limit, length-dict, length-list,
}
use traccoon.Benc.Value.{
  Value, dict, list, Items, nil, cons, Fields, end, field, encode_string, encode, encode_fields,
  encode_items,
}
use traccoon.Memory.{Run, returns}
use traccoon.Prelude.{
  minus_one, subst, ℕ, zero, suc, ◌+◌, ◌≤◌, ◌<◌, ◌≡◌, ◌≢◌, refl, ap, sym, ◌∙◌, inl, inr, Bool-cases,
  Option, none, some, [], ◌∷◌, ◌++◌, Bytes, length, drop, All, if◌then◌else◌, ℤ, pos, arith,
  append_assoc, drop-append_more, drop-drop, length-append,
}

-- The value of the first field with a key.
unfoldable pub lookup : Fields → Bytes → Option Value
lookup end key = none
lookup (field k v fs) key = if same_bytes key k then some v else lookup fs key

-- The item with an index.
unfoldable pub item : Items → ℕ → Option Value
item nil n = none
item (cons v xs) zero = some v
item (cons v xs) (suc n) = item xs n

-- A position in a text where a value is encoded.
pub record Holds (v : Value) (text : Bytes) (k : ℕ) : Type 0 where
  pub behind : Bytes
  pub here : drop k text ≡ encode v ++ behind
  pub within : k + length (encode v) ≤ length text

Holds-append :
    (v : Value) (text s : Bytes) (k : ℕ) → Holds v text k → Holds v (s ++ text) (length s + k)
Holds-append v text s k h = record {
  behind = h.behind;
  here = drop-append_more s text k ∙ h.here;
  within = omega (arith, h.within, length-append s text);
}

Holds-start : (v : Value) (rest : Bytes) → Holds v (encode v ++ rest) 0
Holds-start v rest = record {
  behind = rest;
  here = refl;
  within = omega (arith, length-append (encode v) rest);
}

Holds-field :
    (k : Bytes) (w : Value) (fs : Fields) {v : Value} (j : ℕ)
    → Holds v (encode_string k ++ (encode w ++ encode_fields fs)) j
    → Holds v (encode_fields (field k w fs)) j
Holds-field k w fs {v} j h = subst (λ t. Holds v t j) (sym (encode_fields-field k w fs)) h

Holds-cons :
    (w : Value) (xs : Items) {v : Value} (j : ℕ)
    → Holds v (encode w ++ encode_items xs) j
    → Holds v (encode_items (cons w xs)) j
Holds-cons w xs {v} j h = subst (λ t. Holds v t j) (sym (encode_items-cons w xs)) h

Holds-at : {v : Value} {text : Bytes} {i j : ℕ} → i ≡ j → Holds v text i → Holds v text j
Holds-at {v} {text} e h = subst (Holds v text) e h

drop-prefix : (s t : Bytes) (k : ℕ) → k ≤ length s → drop k (s ++ t) ≡ drop k s ++ t
drop-prefix s t zero h = refl
drop-prefix [] t (suc k) h = absurd (omega arith)
drop-prefix (x ∷ s) t (suc k) h = drop-prefix s t k (omega arith)

value_position-lookup :
    (fs : Fields) (key : Bytes) {v : Value}
    → lookup fs key ≡ some v
    → (k : ℕ) × (value_position fs key ≡ some k) × Holds v (encode_fields fs) k
unfolding lookup value_position
value_position-lookup end key h = absurd (cc)
value_position-lookup (field k w fs) key {v} h = elim (Bool-cases (same_bytes key k)) [
  | inl same ↦
      let found : w ≡ v = cc in
      (
        length (encode_string k),
        rw same refl,
        Holds-field k w fs (length (encode_string k)) (
            Holds-at (omega arith) (
              Holds-append v (encode w ++ encode_fields fs) (encode_string k) 0 (
                subst (λ u. Holds v (encode u ++ encode_fields fs) 0) (sym found)
                  (Holds-start v (encode_fields fs))))),
      )
  | inr other ↦
      let (j, e, there) = value_position-lookup fs key (ground arith) in
      (
        length (encode_string k) + length (encode w) + j,
        rw (other, e) refl,
        Holds-field k w fs _ (
            Holds-at (omega arith) (
              Holds-append v (encode w ++ encode_fields fs) (encode_string k) _
                (Holds-append v (encode_fields fs) (encode w) j there))),
      )
]

item_position-item :
    (xs : Items) (n : ℕ) {v : Value}
    → item xs n ≡ some v
    → (k : ℕ) × (item_position xs n ≡ some k) × Holds v (encode_items xs) k
unfolding item item_position
item_position-item nil n h = absurd (cc)
item_position-item (cons w xs) zero {v} h =
    let found : w ≡ v = cc in
    (
      0,
      refl,
      Holds-cons w xs 0 (
          subst (λ u. Holds v (encode u ++ encode_items xs) 0) (sym found)
            (Holds-start v (encode_items xs))),
    )
item_position-item (cons w xs) (suc n) {v} h =
    let (j, e, there) = item_position-item xs n h in
    (
      length (encode w) + j,
      rw e refl,
      Holds-cons w xs _ (Holds-append v (encode_items xs) (encode w) j there),
    )

value_position-missing :
    (fs : Fields) (key : Bytes) → lookup fs key ≡ none → value_position fs key ≡ none
unfolding lookup value_position
value_position-missing end key h = refl
value_position-missing (field k w fs) key h = elim (Bool-cases (same_bytes key k)) [
  | inl same ↦ absurd (ground arith)
  | inr other ↦ rw (other, value_position-missing fs key (ground arith)) refl
]

item_position-missing : (xs : Items) (n : ℕ) → item xs n ≡ none → item_position xs n ≡ none
unfolding item item_position
item_position-missing nil n h = refl
item_position-missing (cons w xs) zero h = absurd (cc)
item_position-missing (cons w xs) (suc n) h = rw (item_position-missing xs n h) refl

-- What a search returned: an offset behind `p` at which the value is encoded, inside the entity of
-- `size` bytes at `p`, or -1.
pub record Found (buf : Bytes) (p size : ℕ) (v : Value) (result : Run ℤ) : Type 0 where
  pub offset : ℕ
  pub ends : result ≡ returns (pos offset)
  pub positive : 0 < offset
  pub behind : Bytes
  pub here : drop (p + offset) buf ≡ encode v ++ behind
  pub within : offset + length (encode v) < size

Found-inside :
    (buf : Bytes) (p c : ℕ) (text rest : Bytes) (v : Value) (k : ℕ) {result : Run ℤ}
    → drop p buf ≡ (c ∷ text ++ b'e' ∷ []) ++ rest
    → Holds v text k
    → result ≡ returns (pos (0 + k + 1))
    → Found buf p (length text + 2) v result
Found-inside buf p c text rest v k start h e = record {
  offset = k + 1;
  ends = e ∙ ap (λ n. returns (pos n)) (omega arith);
  positive = omega arith;
  behind = h.behind ++ b'e' ∷ rest;
  here =
      ap (λ n. drop n buf) {y = p + 0 + 1 + k} (omega arith)
      ∙ drop-drop (p + 0 + 1) k buf
      ∙ ap (drop k) (inside buf p c text rest start)
      ∙ drop-prefix text (b'e' ∷ rest) k (omega (arith, h.within))
      ∙ ap (λ s. s ++ b'e' ∷ rest) h.here
      ∙ append_assoc (encode v) h.behind (b'e' ∷ rest);
  within = omega (arith, h.within);
}

-- `benc_dict_value_offset` at an encoded dictionary returns a positive offset, at which the value
-- of the first field with the key is encoded.
pub dict_value_offset-lookup :
    (fs : Fields) (key after : Bytes) (fuel : ℕ) (buf : Bytes) (p : ℕ) (rest : Bytes) {v : Value}
    → lookup fs key ≡ some v
    → All (λ x. x ≢ 0) key
    → drop p buf ≡ encode (dict fs) ++ rest
    → length (encode (dict fs)) ≤ fuel
    → length (encode (dict fs)) < limit
    → Found buf p
        (length (encode (dict fs)))
        v
        (dict_value_offset fuel buf (pos p) (some (key ++ 0 ∷ after)))
dict_value_offset-lookup fs key after fuel buf p rest {v} found nz here enough fits =
    let (k, e, there) = value_position-lookup fs key found in
    let start = here ∙ ap (λ s. s ++ rest) (encode-dict fs) in
    rw (length-dict fs) (
      Found-inside buf p b'd' (encode_fields fs) rest v k start there (
        dict_value_offset-value_position key after nz fuel buf p fs rest here enough fits
        ∙ ap (λ o. returns (offset_from 0 o)) e))

pub dict_value_offset-missing :
    (fs : Fields) (key after : Bytes) (fuel : ℕ) (buf : Bytes) (p : ℕ) (rest : Bytes)
    → lookup fs key ≡ none
    → All (λ x. x ≢ 0) key
    → drop p buf ≡ encode (dict fs) ++ rest
    → length (encode (dict fs)) ≤ fuel
    → length (encode (dict fs)) < limit
    → dict_value_offset fuel buf (pos p) (some (key ++ 0 ∷ after)) ≡ returns minus_one
dict_value_offset-missing fs key after fuel buf p rest missing nz here enough fits =
    dict_value_offset-value_position key after nz fuel buf p fs rest here enough fits
    ∙ ap (λ o. returns (offset_from 0 o)) (value_position-missing fs key missing)

-- `benc_list_item_offset` at an encoded list, for an item that it has.
pub list_item_offset-item :
    (xs : Items) (n fuel : ℕ) (buf : Bytes) (p : ℕ) (rest : Bytes) {v : Value}
    → item xs n ≡ some v
    → drop p buf ≡ encode (list xs) ++ rest
    → length (encode (list xs)) ≤ fuel
    → length (encode (list xs)) < limit
    → Found buf p (length (encode (list xs))) v (list_item_offset fuel buf (pos p) (pos n))
list_item_offset-item xs n fuel buf p rest {v} found here enough fits =
    let (k, e, there) = item_position-item xs n found in
    let start = here ∙ ap (λ s. s ++ rest) (encode-list xs) in
    rw (length-list xs) (
      Found-inside buf p b'l' (encode_items xs) rest v k start there (
        list_item_offset-item_position xs n fuel buf p rest here enough fits
        ∙ ap (λ o. returns (offset_from 0 o)) e))

pub list_item_offset-missing :
    (xs : Items) (n fuel : ℕ) (buf : Bytes) (p : ℕ) (rest : Bytes)
    → item xs n ≡ none
    → drop p buf ≡ encode (list xs) ++ rest
    → length (encode (list xs)) ≤ fuel
    → length (encode (list xs)) < limit
    → list_item_offset fuel buf (pos p) (pos n) ≡ returns minus_one
list_item_offset-missing xs n fuel buf p rest missing here enough fits =
    list_item_offset-item_position xs n fuel buf p rest here enough fits
    ∙ ap (λ o. returns (offset_from 0 o)) (item_position-missing xs n missing)

-- ===== src/Benc/Length/Encode.antt =====
-- `benc_entity_length` measures what is encoded.
use traccoon.Benc.Shape.{
  Starts-encode_string, Starts-encode, Starts-append, encode-list, encode-dict, encode_items-cons,
  encode_fields-field, length-num, length-list, length-dict, length-cons, length-field, Starts-pos,
  limit,
}
use traccoon.Benc.Length.Rounds.{
  drop_item, list_round, dict_round, list_last, dict_last, good_key, odd_key,
}
use traccoon.Benc.Length.{from, list_length_loop, dict_length_loop, length_by_type, entity_length}
use traccoon.Benc.Scan.Shape.{
  entity_type-encode_string, string_entity_length-encode_string, int_entity_length-print_int,
  entity_type_int,
}
use traccoon.Benc.Scan.{EntityType, t_dict, t_list, peek, entity_type}
use traccoon.Benc.Value.{
  Value, num, str, list, dict, Items, nil, cons, Fields, end, field, encode_string, encode,
  encode_items, encode_fields,
}
use traccoon.CLib.Decimal.{print_int}
use traccoon.Memory.{returns}
use traccoon.Prelude.{
  ℕ, zero, suc, ◌+◌, ◌%◌, ◌<◌, ◌≤◌, ◌≡◌, refl, ap, sym, ◌∙◌, [], ◌∷◌, ◌++◌, Bytes, length, drop, ℤ,
  pos, arith, append_assoc, drop_tail,
}

-- The entity `s` at `p` is measured, whatever follows it.
Measures : Bytes → Type 0
Measures s =
    (fuel : ℕ) (buf : Bytes) (p : ℕ) (rest : Bytes)
    → drop p buf ≡ s ++ rest
    → length s ≤ fuel
    → length s < limit
    → entity_length fuel buf (pos p) ≡ returns (pos (length s))

-- The same of what a list, or a dictionary, has left behind an offset.
MeasuresItems : Bytes → Type 0
MeasuresItems s =
    (fuel rounds : ℕ) (buf : Bytes) (p off : ℕ) (rest : Bytes)
    → drop (p + off + 1) buf ≡ s ++ b'e' ∷ rest
    → length s ≤ fuel
    → length s < rounds
    → length s < limit
    → list_length_loop (entity_length fuel buf) rounds buf (pos p) (pos off)
      ≡ returns (pos (off + length s + 2))

MeasuresFields : Bytes → Type 0
MeasuresFields s =
    (fuel rounds : ℕ) (buf : Bytes) (p off index : ℕ) (rest : Bytes)
    → drop (p + off + 1) buf ≡ s ++ b'e' ∷ rest
    → length s ≤ fuel
    → length s < rounds
    → length s < limit
    → index % 2 ≡ 0
    → dict_length_loop (entity_length fuel buf) rounds buf (pos p) (pos off) index
      ≡ returns (pos (off + length s + 2))

entity_length_step :
    (fuel : ℕ) (buf : Bytes) (p : ℕ) {s : Bytes} {t : EntityType}
    → drop p buf ≡ s
    → entity_type s ≡ returns t
    → entity_length (suc fuel) buf (pos p)
      ≡ length_by_type (entity_length fuel buf) fuel buf (pos p) s t
unfolding entity_length from
entity_length_step fuel buf p here h = rw (here, h)

-- A string, as a value or as a key.
Measures-string : (k : Bytes) → Measures (encode_string k)
unfolding Measures length_by_type
Measures-string k zero buf p rest here enough fits =
    absurd (omega (arith, Starts-pos _ (Starts-encode_string k)))
Measures-string k (suc fuel) buf p rest here enough fits =
    entity_length_step fuel buf p here (entity_type-encode_string k rest)
    ∙ string_entity_length-encode_string k rest fits

Measures-num : (z : ℤ) → Measures (encode (num z))
unfolding Measures length_by_type
Measures-num z zero buf p rest here enough fits = absurd (omega (arith, length-num z))
Measures-num z (suc fuel) buf p rest here enough fits =
    let text : encode (num z) ++ rest ≡ b'i' ∷ (print_int z ++ b'e' ∷ rest) =
      unfold encode in ap (◌∷◌ b'i') (append_assoc (print_int z) (b'e' ∷ []) rest) in
    entity_length_step fuel buf p (here ∙ text) (entity_type_int z rest)
    ∙ int_entity_length-print_int z rest
    ∙ ap (λ n. returns (pos n)) (sym (length-num z))

-- The first item stands one behind the opening letter.
pub inside :
    (buf : Bytes) (p c : ℕ) (s rest : Bytes)
    → drop p buf ≡ (c ∷ s ++ b'e' ∷ []) ++ rest
    → drop (p + 0 + 1) buf ≡ s ++ b'e' ∷ rest
inside buf p c s rest here =
    ap (λ n. drop n buf) {y = suc p} (omega arith)
    ∙ drop_tail buf p (here ∙ ap (◌∷◌ c) (append_assoc s (b'e' ∷ []) rest))

pub entity_type_list : (s : Bytes) → entity_type (b'l' ∷ s) ≡ returns t_list
unfolding entity_type peek
entity_type_list s = refl

pub entity_type_dict : (s : Bytes) → entity_type (b'd' ∷ s) ≡ returns t_dict
unfolding entity_type peek
entity_type_dict s = refl

Measures-list : (xs : Items) → MeasuresItems (encode_items xs) → Measures (encode (list xs))
unfolding Measures MeasuresItems length_by_type
Measures-list xs ih zero buf p rest here enough fits = absurd (omega (arith, length-list xs))
Measures-list xs ih (suc fuel) buf p rest here enough fits =
    let len = length-list xs in
    let start = here ∙ ap (λ s. s ++ rest) (encode-list xs) in
    entity_length_step fuel buf p start (entity_type_list _)
    ∙ ih fuel fuel buf p 0 rest (inside buf p b'l' (encode_items xs) rest start) (omega arith)
        (omega arith) (omega arith)
    ∙ ap (λ n. returns (pos n)) (omega arith)

Measures-dict : (fs : Fields) → MeasuresFields (encode_fields fs) → Measures (encode (dict fs))
unfolding Measures MeasuresFields length_by_type
Measures-dict fs ih zero buf p rest here enough fits = absurd (omega (arith, length-dict fs))
Measures-dict fs ih (suc fuel) buf p rest here enough fits =
    let len = length-dict fs in
    let start = here ∙ ap (λ s. s ++ rest) (encode-dict fs) in
    entity_length_step fuel buf p start (entity_type_dict _)
    ∙ ih fuel fuel buf p 0 0 rest (inside buf p b'd' (encode_fields fs) rest start) (omega arith)
        (omega arith) (omega arith) refl
    ∙ ap (λ n. returns (pos n)) (omega arith)

MeasuresItems-nil : MeasuresItems (encode_items nil)
unfolding MeasuresItems encode_items
MeasuresItems-nil fuel zero buf p off rest here enough more fits = absurd (omega arith)
MeasuresItems-nil fuel (suc rounds) buf p off rest here enough more fits =
    list_last (entity_length fuel buf) rounds buf p off here
    ∙ ap (λ n. returns (pos n)) (omega arith)

MeasuresItems-cons :
    (v : Value) (xs : Items)
    → Measures (encode v)
    → MeasuresItems (encode_items xs)
    → MeasuresItems (encode_items (cons v xs))
unfolding Measures MeasuresItems
MeasuresItems-cons v xs hv hxs fuel zero buf p off rest here enough more fits = absurd (omega arith)
MeasuresItems-cons v xs hv hxs fuel (suc rounds) buf p off rest here enough more fits =
    let len = length-cons v xs in
    let start =
      here
      ∙ ap (λ s. s ++ b'e' ∷ rest) (encode_items-cons v xs)
      ∙ append_assoc (encode v) (encode_items xs) (b'e' ∷ rest) in
    let starts = Starts-encode v in
    let positive = Starts-pos (encode v) starts in
    let behind = drop_item buf (p + off + 1) (encode v) _ start in
    list_round (entity_length fuel buf) rounds buf p off (length (encode v)) start
      (Starts-append _ _ starts) (hv fuel buf (p + off + 1) _ start (omega arith) (omega arith))
    ∙ hxs fuel rounds buf p (off + length (encode v)) rest
        (ap (λ n. drop n buf) {y = p + off + 1 + length (encode v)} (omega arith) ∙ behind)
        (omega arith) (omega arith) (omega arith)
    ∙ ap (λ n. returns (pos n)) (omega arith)

MeasuresFields-end : MeasuresFields (encode_fields end)
unfolding MeasuresFields encode_fields
MeasuresFields-end fuel zero buf p off index rest here enough more fits even = absurd (omega arith)
MeasuresFields-end fuel (suc rounds) buf p off index rest here enough more fits even =
    dict_last (entity_length fuel buf) rounds buf p off here index even
    ∙ ap (λ n. returns (pos n)) (omega arith)

-- A key and its value take two rounds.
MeasuresFields-field :
    (k : Bytes) (v : Value) (fs : Fields)
    → Measures (encode v)
    → MeasuresFields (encode_fields fs)
    → MeasuresFields (encode_fields (field k v fs))
unfolding Measures MeasuresFields
MeasuresFields-field k v fs hv hfs fuel zero buf p off index rest here enough more fits even =
    absurd (omega arith)
MeasuresFields-field k v fs hv hfs fuel (suc zero) buf p off index rest here enough more fits even =
    absurd (
      omega (
        arith,
        length-field k v fs,
        Starts-pos _ (Starts-encode_string k),
        Starts-pos _ (Starts-encode v),
      ))
MeasuresFields-field k v fs hv hfs fuel (suc (suc rounds)) buf p off index rest here enough more
      fits even =
    let len = length-field k v fs in
    let key = Starts-encode_string k in
    let val = Starts-encode v in
    let key_pos = Starts-pos (encode_string k) key in
    let val_pos = Starts-pos (encode v) val in
    let start =
      here
      ∙ ap (λ s. s ++ b'e' ∷ rest) (encode_fields-field k v fs)
      ∙ append_assoc (encode_string k) (encode v ++ encode_fields fs) (b'e' ∷ rest) in
    let off' : ℕ = off + length (encode_string k) in
    let middle : drop (p + off' + 1) buf ≡ encode v ++ (encode_fields fs ++ b'e' ∷ rest) =
      ap (λ n. drop n buf) {y = p + off + 1 + length (encode_string k)} (omega arith)
      ∙ drop_item buf (p + off + 1) (encode_string k) _ start
      ∙ append_assoc (encode v) (encode_fields fs) (b'e' ∷ rest) in
    let off'' : ℕ = off' + length (encode v) in
    let behind : drop (p + off'' + 1) buf ≡ encode_fields fs ++ b'e' ∷ rest =
      ap (λ n. drop n buf) {y = p + off' + 1 + length (encode v)} (omega arith)
      ∙ drop_item buf (p + off' + 1) (encode v) _ middle in
    dict_round (entity_length fuel buf) (suc rounds) buf p off (length (encode_string k)) start
      (Starts-append _ _ key)
      (Measures-string k fuel buf (p + off + 1) _ start (omega arith) (omega arith)) index
      (good_key buf (p + off + 1) index k _ start)
    ∙ dict_round (entity_length fuel buf) rounds buf p off' (length (encode v)) middle
        (Starts-append _ _ val) (hv fuel buf (p + off' + 1) _ middle (omega arith) (omega arith))
        (index + 1) (odd_key buf _ (index + 1) (omega arith))
    ∙ hfs fuel rounds buf p off'' (index + 1 + 1) rest behind (omega arith) (omega arith)
        (omega arith) (omega arith)
    ∙ ap (λ n. returns (pos n)) (omega arith)

Measures-str : (s : Bytes) → Measures (encode (str s))
unfolding encode
Measures-str s = Measures-string s

mutual
  Measures-encode : (v : Value) → Measures (encode v)
  Measures-encode (num z) = Measures-num z
  Measures-encode (str s) = Measures-str s
  Measures-encode (list xs) = Measures-list xs (MeasuresItems-encode xs)
  Measures-encode (dict fs) = Measures-dict fs (MeasuresFields-encode fs)

  MeasuresItems-encode : (xs : Items) → MeasuresItems (encode_items xs)
  MeasuresItems-encode nil = MeasuresItems-nil
  MeasuresItems-encode (cons v xs) =
      MeasuresItems-cons v xs (Measures-encode v) (MeasuresItems-encode xs)

  MeasuresFields-encode : (fs : Fields) → MeasuresFields (encode_fields fs)
  MeasuresFields-encode end = MeasuresFields-end
  MeasuresFields-encode (field k v fs) =
      MeasuresFields-field k v fs (Measures-encode v) (MeasuresFields-encode fs)

-- A key is measured like a string.
pub entity_length-encode_string :
    (k : Bytes) (fuel : ℕ) (buf : Bytes) (p : ℕ) (rest : Bytes)
    → drop p buf ≡ encode_string k ++ rest
    → length (encode_string k) ≤ fuel
    → length (encode_string k) < limit
    → entity_length fuel buf (pos p) ≡ returns (pos (length (encode_string k)))
unfolding Measures
entity_length-encode_string k = Measures-string k

-- `benc_entity_length` at the encoding of a value, wherever it stands in an object and whatever
-- follows it, ends and returns the length of the encoding, if that is an `int`. Fuel as large as
-- that length is enough.
pub entity_length-encode :
    (v : Value) (fuel : ℕ) (buf : Bytes) (p : ℕ) (rest : Bytes)
    → drop p buf ≡ encode v ++ rest
    → length (encode v) ≤ fuel
    → length (encode v) < limit
    → entity_length fuel buf (pos p) ≡ returns (pos (length (encode v)))
unfolding Measures
entity_length-encode v = Measures-encode v

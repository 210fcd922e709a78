-- ===== src/Torrent/Reads.antt =====
-- What is read from a well-formed torrent file.
use traccoon.Prelude.{
  ℕ, ◌+◌, ◌<◌, ◌≤◌, ◌≡◌, refl, ap, sym, ◌∙◌, true, none, some, [], ◌∷◌, ◌++◌, Bytes, codes, length,
  drop, All, pos, ◌+ℤ◌, +ℤ-pos, arith, append-nil, length-append, take-append,
}
use traccoon.Benc.Length.{from}
use traccoon.Benc.Length.Encode.{entity_length-encode, entity_type_dict}
use traccoon.Benc.Length.Rounds.{type_at_lem}
use traccoon.Benc.Lookup.{lookup, dict_value_offset-lookup}
use traccoon.Benc.Offset.Dict.{drop_text}
use traccoon.Benc.Offset.Find.{length-key}
use traccoon.Benc.Scan.{entity_type}
use traccoon.Benc.Scan.Shape.{string_length-encode_string, string_data_offset-encode_string}
use traccoon.Benc.Shape.{limit, encode-dict}
use traccoon.Benc.Value.{str, dict, Fields, encode, encode_string, encode_fields}
use traccoon.CLib.Decimal.{decimal}
use traccoon.Encoding.Hex.{max_hash_len, max_hexenc_hash_len, write_hex, hex_encode}
use traccoon.Encoding.Hex.Encode.{IsByte, write_hex-hex_encode}
use traccoon.Memory.{returns, read, Fills}
use traccoon.Torrent.{
  returns, length, pos, ◌++◌, Bytes, from, Host, read_bytes, get_tracker, get_hash, is_torrent,
  read_buffer, read_torrentfile,
}

read_bytes-prefix : (s rest : Bytes) → read_bytes (s ++ rest) (pos (length s)) ≡ returns s
unfolding read_bytes
read_bytes-prefix s rest = ground (arith, length-append s rest, take-append s rest)

encode-str : (s : Bytes) → encode (str s) ≡ encode_string s
unfolding encode
encode-str s = refl

-- the buffer's content at an offset of a dictionary at its start
at_offset : (buf : Bytes) (k : ℕ) {s : Bytes} → drop (0 + k) buf ≡ s → from buf (pos k) ≡ returns s
unfolding from
at_offset buf k h = ap returns (ap (λ n. drop n buf) {y = 0 + k} (omega arith) ∙ h)

module _ (host : Host) (fs : Fields) (after : Bytes) (fuel : ℕ)
    (memory : (n : ℕ) → host.allocates n ≡ true) (enough : length (encode (dict fs)) ≤ fuel)
    (fits : length (encode (dict fs)) < limit) where
  abbrev buffer : Bytes
  buffer = encode (dict fs) ++ after

  -- `announce`: the string's data is copied.
  get_tracker_lem :
      (url : Bytes)
      → lookup fs (codes "announce") ≡ some (str url)
      → get_tracker host fuel buffer ≡ returns (some (url ++ 0 ∷ []))
  unfolding get_tracker
  get_tracker_lem url found =
      let f =
        dict_value_offset-lookup fs (codes "announce") [] fuel buffer 0 after found (omega arith)
          refl enough fits in
      let there : drop (0 + f.offset) buffer ≡ encode_string url ++ f.behind =
        f.here ∙ ap (λ s. s ++ f.behind) (encode-str url) in
      let size : length url < 2147483648 =
        omega (arith, f.within, length-key url, ap length (encode-str url)) in
      let d : ℕ = length (decimal (length url)) + 1 in
      let text : from buffer (pos d +ℤ pos f.offset) ≡ returns (url ++ f.behind) =
        ap (from buffer) (+ℤ-pos d f.offset)
        ∙ at_offset buffer (d + f.offset) (
            ap (λ n. drop n buffer) {y = 0 + f.offset + d} (omega arith)
            ∙ drop_text buffer (0 + f.offset) url f.behind there) in
      rw
        (
          f.ends,
          at_offset buffer f.offset there,
          string_length-encode_string url f.behind size,
          string_data_offset-encode_string url f.behind,
          text,
          read_bytes-prefix url f.behind,
          memory,
        )
        refl

  -- `info`: the digits of the hash of its encoding are written.
  get_hash_lem :
      (info : Fields) (hash : Bytes)
      → lookup fs (codes "info") ≡ some (dict info)
      → length (host.sha1 (encode (dict info))) ≡ max_hash_len
      → All IsByte (host.sha1 (encode (dict info)))
      → max_hexenc_hash_len < length hash
      → (full : Bytes) × (get_hash host fuel buffer hash ≡ returns full)
        × Fills (length hash) full (hex_encode (host.sha1 (encode (dict info))) ++ 0 ∷ [])
  unfolding get_hash
  get_hash_lem info hash found len bytes room =
      let f =
        dict_value_offset-lookup fs (codes "info") [] fuel buffer 0 after found (omega arith) refl
          enough fits in
      let there : drop f.offset buffer ≡ encode (dict info) ++ f.behind =
        ap (λ n. drop n buffer) {y = 0 + f.offset} (omega arith) ∙ f.here in
      let measured =
        entity_length-encode (dict info) fuel buffer f.offset f.behind there
          (omega (arith, f.within)) (omega (arith, f.within)) in
      let start = there ∙ ap (λ s. s ++ f.behind) (encode-dict info) in
      let (full, written, fills) =
        write_hex-hex_encode (host.sha1 (encode (dict info))) [] hash len bytes room in
      (
        full,
        rw
            (
              f.ends,
              measured,
              type_at_lem buffer f.offset start (entity_type_dict _),
              at_offset buffer f.offset f.here,
              read_bytes-prefix (encode (dict info)) f.behind,
            )
            (ap (λ h. write_hex h hash) (sym (append-nil _)) ∙ written),
        fills,
      )

  pub is_torrent_lem : is_torrent fuel buffer ≡ returns true
  unfolding is_torrent
  is_torrent_lem =
      let start : buffer ≡ b'd' ∷ (encode_fields fs ++ b'e' ∷ []) ++ after =
        ap (λ s. s ++ after) (encode-dict fs) in
      let measured = entity_length-encode (dict fs) fuel buffer 0 after refl enough fits in
      rw (ap entity_type start ∙ entity_type_dict _, measured) refl

-- `read_torrentfile` on a file that is the encoding of a dictionary with a string for `announce`
-- and a dictionary for `info`, below 2^31 bytes and with enough fuel, where memory is given, the
-- caller has no tracker and an empty buffer of 41 bytes or more for the hash, and SHA-1 gives 20
-- bytes: it returns 0, with the string and a terminator as the tracker, and the hex digits of the
-- hash of the encoding of `info` and a terminator at the start of the buffer.
pub read_torrentfile-lookup :
    (host : Host) (fs info : Fields) (url filename hash : Bytes) (fuel : ℕ)
    → host.open_file filename ≡ some (encode (dict fs))
    → ((n : ℕ) → host.allocates n ≡ true)
    → ((s : Bytes) → length (host.sha1 s) ≡ max_hash_len)
    → ((s : Bytes) → All IsByte (host.sha1 s))
    → length (encode (dict fs)) ≤ fuel
    → length (encode (dict fs)) < limit
    → lookup fs (codes "announce") ≡ some (str url)
    → lookup fs (codes "info") ≡ some (dict info)
    → max_hexenc_hash_len < length (0 ∷ hash)
    → (full : Bytes) × (read_torrentfile host fuel (some filename) none (0 ∷ hash)
        ≡ returns (record { result = pos 0; tracker = some (url ++ 0 ∷ []); hash = full }))
      × Fills (length (0 ∷ hash)) full (hex_encode (host.sha1 (encode (dict info))) ++ 0 ∷ [])
unfolding read_torrentfile read_buffer read
read_torrentfile-lookup host fs info url filename hash fuel file memory size bytes enough fits
      has_url has_info room =
    let valid = is_torrent_lem host fs (0 ∷ []) fuel memory enough fits in
    let tracker = get_tracker_lem host fs (0 ∷ []) fuel memory enough fits url has_url in
    let (full, digits, fills) =
      get_hash_lem host fs (0 ∷ []) fuel memory enough fits info (0 ∷ hash) has_info (size _)
        (bytes _) room in
    (
      full,
      rw (read_torrentfile, file)
          (rw (memory (length (encode (dict fs)) + 1)) (rw valid (rw tracker (rw digits refl)))),
      fills,
    )

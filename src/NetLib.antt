-- ===== src/NetLib.antt =====
-- getpeers/net.c and getpeers/string.c: URLs are split and requests are sent. An `int` that
-- overflows is taken to wrap around.
pub mod Merge
pub mod Splits
pub mod Url
pub mod Http
mod Tests
use traccoon.CLib.{strlen, strchr, strstr, strncpy_bytes}
use traccoon.Memory.{Run, returns, fault, ◌>>=◌, write}
use traccoon.Prelude.{
  negsuc, to_int, size_of_int, ℕ, ◌+◌, Option, none, some, List, [], ◌∷◌, ◌++◌, Bytes, codes,
  length, take, drop, leb, if◌then◌else◌, ℤ, pos, minus_one,
}

-- an `int` as an offset into an object, of which a negative one leads outside
abbrev pub at_int : {A : Type 0} → ℤ → (ℕ → Run A) → Run A
at_int (pos n) f = f n
at_int (negsuc n) f = fault

-- The first loop of `string_merge`: the length of all parts, before its conversion to `int`.
unfoldable pub total_length : List Bytes → Run ℕ
total_length [] = returns 0
total_length (part ∷ parts) = do n ← strlen part; rest ← total_length parts; returns (n + rest)

-- `bytes` at an offset of the object `rv`
unfoldable pub write_bytes : Bytes → ℕ → Bytes → Run Bytes
write_bytes rv off bytes =
    if leb (off + length bytes) (length rv)
    then returns (take off rv ++ (bytes ++ drop (off + length bytes) rv))
    else fault

-- The second loop: each part is copied without its terminator. The object and the last offset.
unfoldable pub copy_parts : List Bytes → Bytes → ℕ → Run (Bytes × ℕ)
copy_parts [] rv off = returns (rv, off)
copy_parts (part ∷ parts) rv off = do
  n ← strlen part
  bytes ← strncpy_bytes part n
  copied ← at_int (to_int (pos off)) (λ k. write_bytes rv k bytes)
  copy_parts parts copied (off + n)

-- `malloc` gives the object of a size as it finds it, or NULL.
unfoldable pub string_merge : (ℕ → Option Bytes) → List Bytes → Run (Option Bytes)
string_merge malloc parts = do
  len ← total_length parts
  elim (malloc (size_of_int (to_int (pos (len + 1))))) [
    | none ↦ returns none
    | some rv ↦ do
      copied ← copy_parts parts rv 0
      merged ← at_int (to_int (pos copied.1)) (λ k. write copied.0 k 0)
      returns (some merged)
  ]

-- `URL_COMPONENTS`: the pointers are offsets into the buffer that was given.
pub record UrlComponents : Type 0 where
  pub status : ℤ
  pub protocol : Option ℕ
  pub credentials : Option ℕ
  pub host : Option ℕ
  pub port : Option ℕ
  pub path : Option ℕ

-- the buffer, a component in it, and the pointer `url` behind
pub record Split : Type 0 where
  pub buffer : Bytes
  pub component : Option ℕ
  pub url : ℕ

-- The user and the password before an `@`.
unfoldable pub split_credentials : Bytes → ℕ → Run Split
split_credentials buffer url = do
  at ← strchr (drop url buffer) b'@'
  elim at [
    | none ↦ returns (record { buffer = buffer; component = none; url = url })
    | some n ↦ do
      cut ← write buffer (url + n) 0
      returns (record { buffer = cut; component = some url; url = url + n + 1 })
  ]

-- The port behind a `:`.
unfoldable pub split_port : Bytes → ℕ → Run Split
split_port buffer url = do
  colon ← strchr (drop url buffer) b':'
  elim colon [
    | none ↦ returns (record { buffer = buffer; component = none; url = url })
    | some n ↦ do
      cut ← write buffer (url + n) 0
      returns (record { buffer = cut; component = some (url + n + 1); url = url + n + 1 })
  ]

-- The path behind a `/`, whose absence is not tested again.
unfoldable pub split_path : Bytes → ℕ → Run Split
split_path buffer url = do
  slash ← strchr (drop url buffer) b'/'
  elim slash [
    | none ↦ fault
    | some n ↦ do
      cut ← write buffer (url + n) 0
      returns (record { buffer = cut; component = some (url + n + 1); url = url + n + 1 })
  ]

-- From the host on.
unfoldable pub split_host : Bytes → Option ℕ → ℕ → Run (Bytes × UrlComponents)
split_host buffer credentials host = do
  slash ← strchr (drop host buffer) b'/'
  elim slash [
    | none ↦ returns (
      buffer,
      record {
        status = minus_one;
        protocol = some 0;
        credentials = credentials;
        host = some host;
        port = none;
        path = none;
      },
    )
    | some n ↦ do
      port ← split_port buffer host
      path ← split_path port.buffer port.url
      returns (
        path.buffer,
        record {
          status = pos 0;
          protocol = some 0;
          credentials = credentials;
          host = some host;
          port = port.component;
          path = path.component;
        },
      )
  ]

abbrev pub no_components : UrlComponents
no_components = record {
  status = minus_one;
  protocol = none;
  credentials = none;
  host = none;
  port = none;
  path = none;
}

unfoldable pub parse_url_destructive : Bytes → Run (Bytes × UrlComponents)
parse_url_destructive url = do
  protocol ← strstr url (codes "://")
  elim protocol [
    | none ↦ returns (url, no_components)
    | some n ↦ do
      cut ← write url n 0
      credentials ← split_credentials cut (n + 3)
      split_host credentials.buffer credentials.component credentials.url
  ]

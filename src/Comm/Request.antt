-- ===== src/Comm/Request.antt =====
-- comm.c: what `parseSocket` reads from the request string of an announce and of a scrape, on what
-- `buffer` has in front of it. A pointer that may be NULL is an option.
use traccoon.CLib.Number.{strtoul}
use traccoon.CLib.{memcpy, strncpy_bytes, strstr}
use traccoon.Comm.{parse_event, parse_numwant}
use traccoon.Db.{AnnounceRequest}
use traccoon.Encoding.CharIndex.{char_index}
use traccoon.Encoding.Hex.{max_hash_len, hash_encode_hex}
use traccoon.Encoding.Url.{destructive_url_decode, max_urlenc_hash_len}
use traccoon.Memory.{Run, returns, fault, ◌>>=◌, write}
use traccoon.Neth.{text_after, decoded_strlen, http_param_length}
use traccoon.Track.Announce.{text_in}
use traccoon.Prelude.{
  ℕ, ◌+◌, ◌-◌, Bool, true, false, Option, none, some, ◌++◌, Bytes, codes, replicate, leb, ◌==◌,
  if◌then◌else◌, ℤ, pos, negsuc, to_int,
}

-- The address of the client, as `inet_ntop` prints it, and whether it is one of IPv6.
pub record Peer : Type 0 where
  pub address : Bytes
  pub is_ipv6 : Bool

-- The ways in which a request string can be read.
pub data Parsed (A : Type 0) : Type 0 where
  request : A → Parsed A
  unterminated : Parsed A
  missing : Parsed A
  out_of_bounds : Parsed A

-- The buffer is terminated at the first space.
unfoldable pub cut_at_space : Bytes → Run (Option Bytes)
cut_at_space buffer = do
  c ← char_index (some buffer) b' '
  elim c [ pos n ↦ (do cut ← write buffer n 0; returns (some cut)) | negsuc n ↦ returns none ]

-- A parameter whose length decodes to the length of a hash: how long it is.
unfoldable pub hash_length : Bytes → Run (Option ℕ)
hash_length param = do
  len ← http_param_length param
  decoded ← decoded_strlen param (pos len)
  returns (if decoded == max_hash_len then some len else none)

-- `strncpy` to an array of 61 bytes that was cleared: the string in it.
unfoldable pub copy_param : Bytes → ℕ → Run Bytes
copy_param param len =
    if leb len (max_urlenc_hash_len + 1)
    then (do
      bytes ← strncpy_bytes param len
      returns (text_in (bytes ++ replicate (max_urlenc_hash_len + 1 - len) 0)))
    else fault

unfoldable pub parse_flag : Bytes → Bytes → Run Bool
parse_flag buffer name = do
  found ← strstr buffer name
  elim found [ none ↦ returns false | some n ↦ returns true ]

-- the conversion of an `unsigned long` to an `int`, and 0 for a parameter that is missing
unfoldable pub parse_number : Option Bytes → Run ℤ
parse_number none = returns (pos 0)
parse_number (some text) = do n ← strtoul text; returns (to_int (pos n))

-- The request behind its three mandatory parameters.
unfoldable pub parse_params : Peer → Bytes → Bytes → Bytes → Bytes → Run (Parsed AnnounceRequest)
parse_params peer buffer hash peerid port = do
  event_text ← text_after buffer (codes "event=")
  numwant_text ← text_after buffer (codes "numwant=")
  left_text ← text_after buffer (codes "left=")
  compact ← parse_flag buffer (codes "compact=1")
  no_peer_id ← parse_flag buffer (codes "no_peer_id=1")
  event ← parse_event event_text
  hash_len ← hash_length hash
  peerid_len ← hash_length peerid
  elim hash_len [
    | none ↦ returns out_of_bounds
    | some n ↦ elim peerid_len [
      | none ↦ returns out_of_bounds
      | some m ↦ do
        info_hash ← copy_param hash n
        peer_id ← copy_param peerid m
        port_number ← parse_number (some port)
        numwant ← parse_numwant numwant_text
        left ← parse_number left_text
        returns (
            request (record {
              info_hash = info_hash;
              peer_id = peer_id;
              ip = peer.address;
              port = port_number;
              protover = if peer.is_ipv6 then pos 6 else pos 4;
              event = event;
              left = left;
              compact = compact;
              no_peer_id = no_peer_id;
              numwant = numwant;
            }))
    ]
  ]

-- The request string of an announce.
unfoldable pub parse_announce : Peer → Bytes → Run (Parsed AnnounceRequest)
parse_announce peer text = do
  cut ← cut_at_space text
  elim cut [
    | none ↦ returns unterminated
    | some buffer ↦ do
      hash ← text_after buffer (codes "info_hash=")
      peerid ← text_after buffer (codes "peer_id=")
      port ← text_after buffer (codes "port=")
      elim hash [
        | none ↦ returns missing
        | some h ↦ elim peerid [
          | none ↦ returns missing
          | some id ↦ elim port [
            | none ↦ returns missing
            | some p ↦ parse_params peer buffer h id p
          ]
        ]
      ]
  ]

-- The hash of a scrape in the local array `hashbuf`, which holds `array` before, where `local` is
-- what the array of `hashEncodeHex` holds.
unfoldable pub scrape_hash : Bytes → Bytes → Bytes → ℕ → Run Bytes
scrape_hash local array param len = do
  copied ← memcpy array param len
  ended ← write copied len 0
  decoded ← destructive_url_decode ended
  encoded ← hash_encode_hex local decoded.1 (pos max_urlenc_hash_len)
  returns encoded.1

-- The request string of a scrape: the hash, or none for all torrents.
unfoldable pub parse_scrape : Bytes → Bytes → Bytes → Run (Parsed (Option Bytes))
parse_scrape local array text = do
  cut ← cut_at_space text
  elim cut [
    | none ↦ returns unterminated
    | some buffer ↦ do
      found ← text_after buffer (codes "info_hash=")
      elim found [
        | none ↦ returns (request none)
        | some hash ↦ do
          len ← hash_length hash
          elim len [
            | none ↦ returns out_of_bounds
            | some n ↦ (do
              hex ← scrape_hash local array hash n
              returns (request (some (text_in hex))))
          ]
      ]
  ]

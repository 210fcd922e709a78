-- ===== src/GetPeers/Query.antt =====
-- The parameters that getpeers writes into a request, as the tracker's `textAfter` and
-- `httpParamLength` of neth.c read them.
use traccoon.GetPeers.Delivered.{Delivered, delivers, finds, AllValues}
use traccoon.Encoding.Url.Plain.{IsValueByte, url_encode-IsValueByte}
use traccoon.Encoding.Url.{url_encode}
use traccoon.GetPeers.{path_parts}
use traccoon.Memory.{returns}
use traccoon.Neth.Keys.{same, has_suffix}
use traccoon.Neth.Query.{query, behind_key}
use traccoon.Neth.{text_after}
use traccoon.NetLib.Merge.{joined}
use traccoon.Prelude.{
  zero, suc, take, ◌<◌, ◌-◌, ℕ, ◌≡◌, refl, ap, sym, subst, ◌∙◌, Bool, true, false, Option, none,
  some, List, [], ◌∷◌, ◌++◌, Bytes, codes, length, drop, All, if◌then◌else◌, arith, append_assoc,
  drop-append,
}

-- what getpeers asks for, by the names of the parameters
abbrev pub parameters : Bytes → Bytes → Bytes → Bytes → Option Bytes → Bytes → List (Bytes × Bytes)
parameters hash port numwant peerid none compact =
    (codes "info_hash", hash)
    ∷ (codes "port", port)
    ∷ (codes "numwant", numwant)
    ∷ (codes "peer_id", peerid)
    ∷ (codes "compact", compact)
    ∷ []
parameters hash port numwant peerid (some event) compact =
    (codes "info_hash", hash)
    ∷ (codes "port", port)
    ∷ (codes "numwant", numwant)
    ∷ (codes "peer_id", peerid)
    ∷ (codes "event", event)
    ∷ (codes "compact", compact)
    ∷ []

abbrev pub or_text : Bytes → Option Bytes → Bytes
or_text default none = default
or_text default (some text) = text

abbrev pub flag : Bool → Bytes
flag b = if b then codes "1" else codes "0"

pub path_parts-query :
    (path hash : Bytes) (local_port numwant : Option Bytes) (peerid : Bytes)
    (bt_event : Option Bytes) (compact : Bool)
    → joined (path_parts path hash local_port numwant peerid bt_event compact)
      ≡ path
        ++ query b'?' (
            parameters hash
              (or_text (codes "6969") local_port)
              (or_text (codes "50") numwant)
              peerid
              bt_event
              (flag compact))
unfolding path_parts query joined
path_parts-query path hash local_port numwant peerid none compact = refl
path_parts-query path hash local_port numwant peerid (some event) compact = refl

-- The query stands behind the path.
drop-path_parts :
    (path hash : Bytes) (local_port numwant : Option Bytes) (peerid : Bytes)
    (bt_event : Option Bytes) (compact : Bool) (rest : Bytes)
    → drop
        (length path)
        (joined (path_parts path hash local_port numwant peerid bt_event compact) ++ rest)
      ≡ query b'?' (
          parameters hash
            (or_text (codes "6969") local_port)
            (or_text (codes "50") numwant)
            peerid
            bt_event
            (flag compact))
        ++ rest
drop-path_parts path hash local_port numwant peerid bt_event compact rest =
    ap (λ s. drop (length path) (s ++ rest))
      (path_parts-query path hash local_port numwant peerid bt_event compact)
    ∙ ap (drop (length path)) (append_assoc path _ rest)
    ∙ drop-append path _

-- what is read for the event
abbrev pub EventRead : Bytes → Option Bytes → Type 0
EventRead text none = text_after text (codes "event" ++ b'=' ∷ []) ≡ returns none
EventRead text (some event) = Delivered text (codes "event") event

-- What is read of a text for the values that were written. The last one ends at the terminator.
pub record RequestRead (text hash port numwant peerid : Bytes) (event : Option Bytes)
    (compact behind : Bytes) : Type 0 where
  pub info_hash : Delivered text (codes "info_hash") hash
  pub port_text : Delivered text (codes "port") port
  pub numwant_text : Delivered text (codes "numwant") numwant
  pub peer_id : Delivered text (codes "peer_id") peerid
  pub event_text : EventRead text event
  pub compact_text : text_after text (codes "compact=") ≡ returns (some (compact ++ 0 ∷ behind))
  pub left_text : text_after text (codes "left=") ≡ returns none
  pub no_peer_id_text : text_after text (codes "no_peer_id=") ≡ returns none

abbrev pub AllValue : Option Bytes → Type 0
AllValue none = Unit
AllValue (some v) = All IsValueByte v

module _ (rest hash port numwant peerid compact : Bytes) (ph : All IsValueByte hash)
    (pp : All IsValueByte port) (pn : All IsValueByte numwant) (pi : All IsValueByte peerid)
    (pc : All IsValueByte compact) where
  pub query-RequestRead :
      (event : Option Bytes)
      → AllValue event
      → RequestRead
          (query b'?' (parameters hash port numwant peerid event compact) ++ 0 ∷ rest)
          hash
          port
          numwant
          peerid
          event
          compact
          rest
  unfolding has_suffix same behind_key query
  query-RequestRead none pe =
      let ps : List (Bytes × Bytes) = parameters hash port numwant peerid none compact in
      let vs : AllValues ps = (ph, (pp, (pn, (pi, (pc, tt))))) in
      record {
        info_hash = delivers rest ps vs (codes "info_hash") hash _ b'&' refl ph refl refl;
        port_text = delivers rest ps vs (codes "port") port _ b'&' refl pp refl refl;
        numwant_text = delivers rest ps vs (codes "numwant") numwant _ b'&' refl pn refl refl;
        peer_id = delivers rest ps vs (codes "peer_id") peerid _ b'&' refl pi refl refl;
        event_text = finds rest ps vs (codes "event") refl refl;
        compact_text = finds rest ps vs (codes "compact") refl refl;
        left_text = finds rest ps vs (codes "left") refl refl;
        no_peer_id_text = finds rest ps vs (codes "no_peer_id") refl refl;
      }
  query-RequestRead (some event) pe =
      let ps : List (Bytes × Bytes) = parameters hash port numwant peerid (some event) compact in
      let vs : AllValues ps = (ph, (pp, (pn, (pi, (pe, (pc, tt)))))) in
      record {
        info_hash = delivers rest ps vs (codes "info_hash") hash _ b'&' refl ph refl refl;
        port_text = delivers rest ps vs (codes "port") port _ b'&' refl pp refl refl;
        numwant_text = delivers rest ps vs (codes "numwant") numwant _ b'&' refl pn refl refl;
        peer_id = delivers rest ps vs (codes "peer_id") peerid _ b'&' refl pi refl refl;
        event_text = delivers rest ps vs (codes "event") event _ b'&' refl pe refl refl;
        compact_text = finds rest ps vs (codes "compact") refl refl;
        left_text = finds rest ps vs (codes "left") refl refl;
        no_peer_id_text = finds rest ps vs (codes "no_peer_id") refl refl;
      }

pub or_text-IsValueByte :
    (default : Bytes) (o : Option Bytes)
    → All IsValueByte default
    → AllValue o
    → All IsValueByte (or_text default o)
or_text-IsValueByte default none pd po = pd
or_text-IsValueByte default (some v) pd po = po

pub flag-IsValueByte : (b : Bool) → All IsValueByte (flag b)
flag-IsValueByte true = omega arith
flag-IsValueByte false = omega arith

-- Of a text and what stands behind it, the first bytes, which have the whole text and a byte more.
take-append_more :
    (s rest : Bytes) (c n : ℕ)
    → length s < n
    → take n (s ++ c ∷ rest) ≡ s ++ c ∷ take (n - length s - 1) rest
take-append_more s rest c zero h = absurd (omega (arith, h))
take-append_more [] rest c (suc n) h =
    let less : suc n - 0 - 1 ≡ n = omega arith in ap (λ k. c ∷ take k rest) (sym less)
take-append_more (x ∷ s) rest c (suc n) h =
    let same : n - length s - 1 ≡ suc n - suc (length s) - 1 = omega arith in
    ap (◌∷◌ x)
      (take-append_more s rest c n (omega (arith, h)) ∙ ap (λ k. s ++ c ∷ take k rest) same)

-- How much of a request the tracker reads behind `GET /`: its buffer has 1024 bytes with the
-- terminator, and it handles none that fills it.
abbrev pub most_behind : ℕ
most_behind = 1023 - 1 - 5

-- What getpeers puts into a request behind the path, with the encodings of a hash and of an id, the
-- tracker reads in the 1017 bytes that it takes behind `GET /`, where the request with the path is
-- shorter than them and a terminator stands behind it: for each of the parameters `textAfter` finds
-- the text that was put in and `httpParamLength` its length, or the default where an option was not
-- given, and an event only if one was given; the compact flag ends the request, which has no `left`
-- and no `no_peer_id`. No option has a zero, a `=`, a `&` or a space.
pub path_parts-RequestRead :
    (path h : Bytes) (local_port numwant : Option Bytes) (id : Bytes) (bt_event : Option Bytes)
    (compact : Bool) (rest : Bytes)
    → AllValue local_port
    → AllValue numwant
    → AllValue bt_event
    → length (
        joined (path_parts path (url_encode h) local_port numwant (url_encode id) bt_event compact))
      < most_behind
    → (behind : Bytes) × RequestRead
        (drop (length path) (
          take most_behind (
            joined
              (path_parts path (url_encode h) local_port numwant (url_encode id) bt_event compact)
            ++ 0 ∷ rest)))
        (url_encode h)
        (or_text (codes "6969") local_port)
        (or_text (codes "50") numwant)
        (url_encode id)
        bt_event
        (flag compact)
        behind
path_parts-RequestRead path h local_port numwant id bt_event compact rest pp pn pe fits =
    let port = or_text (codes "6969") local_port in
    let number = or_text (codes "50") numwant in
    let asked =
      joined (path_parts path (url_encode h) local_port numwant (url_encode id) bt_event compact) in
    let behind : Bytes = take (most_behind - length asked - 1) rest in
    (
      behind,
      subst
          (λ s.
            RequestRead s (url_encode h) port number (url_encode id) bt_event (flag compact) behind)
          (sym (
            ap (drop (length path)) (take-append_more asked rest 0 most_behind fits)
            ∙ drop-path_parts path (url_encode h) local_port numwant (url_encode id) bt_event
                compact (0 ∷ behind)))
          (query-RequestRead behind (url_encode h) port number (url_encode id) (flag compact)
            (url_encode-IsValueByte h)
            (or_text-IsValueByte (codes "6969") local_port (omega arith) pp)
            (or_text-IsValueByte (codes "50") numwant (omega arith) pn) (url_encode-IsValueByte id)
            (flag-IsValueByte compact) bt_event pe),
    )

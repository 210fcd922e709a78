-- ===== src/Track/Tests.antt =====
-- A reply with a peer of each family, and the peer that asks.
use traccoon.Benc.Value.{dict, encode}
use traccoon.CLib.Decimal.{decimal, print_int}
use traccoon.Db.Open.{IsDisciplined}
use traccoon.Db.Sample.{small, request, small-StepsNotOk, small-FindsAdded}
use traccoon.Encoding.Hex.Encode.{IsByte, are_bytes-IsByte}
use traccoon.Encoding.Hex.{hex_encode}
use traccoon.Encoding.Url.{url_decode}
use traccoon.NetLib.Merge.{is_text-IsNonzero}
use traccoon.Track.Announce.{Host, hash_array, text_in, peer_text, dict_reply, track, scrape}
use traccoon.Track.Balance.{IsUsable, Replied, IsAnswer, track-Replied, scrape-Replied}
use traccoon.Track.Hash.{hex_hash-hex_encode}
use traccoon.Track.Replies.{others, listing, dict_reply-encode}
use traccoon.Track.{hex_hash}
use traccoon.Memory.{returns}
use traccoon.Track.{PeerRow, Network}
use traccoon.Track.Compact.{IsAddress}
use traccoon.Prelude.{
  ◌≡◌, refl, false, some, List, [], ◌∷◌, Bytes, codes, replicate, All, pos, arith,
}

abbrev net : Network
net = record { pton4 = λ t. some (10 ∷ 0 ∷ 0 ∷ 1 ∷ []); pton6 = λ t. some (replicate 16 1) }

abbrev rows : List PeerRow
rows =
    record { peer_id = codes "abc"; ip = codes "10.0.0.1"; port = pos 6881; proto = pos 4 }
    ∷ record { peer_id = codes "abd"; ip = codes "10.0.0.1"; port = pos 51413; proto = pos 4 }
    ∷ record { peer_id = codes "abe"; ip = codes "::1"; port = pos 80; proto = pos 6 }
    ∷ []

abbrev host : Host
host = record { library = small; network = net; peers_of = λ t. rows; local = replicate 41 0 }

abbrev hash : Bytes
hash = codes "abcdefghijklmnopqrst"

hash-IsByte : All IsByte hash
hash-IsByte = are_bytes-IsByte hash refl

host-IsUsable : IsUsable host request
unfolding IsAddress peer_text decimal print_int
host-IsUsable = record {
  steps = small-StepsNotOk;
  finds = small-FindsAdded;
  four = λ t. refl;
  six = λ t. refl;
  few = omega arith;
  short = λ t. (omega arith, (omega arith, (omega arith, tt)));
}

hex_hash-hex_encode_example :
    (array : Bytes) × (hex_hash (replicate 41 0) (hash_array hash) ≡ returns array)
    × (text_in array ≡ hex_encode hash)
unfolding url_decode
hex_hash-hex_encode_example =
    hex_hash-hex_encode (replicate 41 0) hash hash refl (is_text-IsNonzero hash refl) (omega arith)
      refl refl hash-IsByte

dict_reply-encode_example :
    dict_reply false (codes "10.0.0.1") (codes "abc") 50 (pos 300) rows
    ≡ encode (dict (listing false (pos 300) (others (codes "10.0.0.1") (codes "abc") 50 rows)))
unfolding peer_text decimal print_int
dict_reply-encode_example =
    dict_reply-encode false (codes "10.0.0.1") (codes "abc") 50 (pos 300) rows
      (omega arith, (omega arith, (omega arith, tt)))

track-Replied_example : Replied small [] IsAnswer (track host request (pos 300) [])
unfolding url_decode IsDisciplined
track-Replied_example =
    track-Replied host request (pos 300) [] hash host-IsUsable refl (is_text-IsNonzero hash refl)
      (omega arith) refl refl hash-IsByte tt

scrape-Replied_example : Replied small [] (λ sent. Unit) (scrape host (some (hex_encode hash)) [])
unfolding IsDisciplined
scrape-Replied_example = scrape-Replied host (some (hex_encode hash)) [] tt

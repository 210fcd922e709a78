-- ===== src/NetLib/Tests.antt =====
-- Three strings that are merged, a URL with all its parts, and a response in two chunks.
use traccoon.Memory.{returns}
use traccoon.NetLib.{string_merge, parse_url_destructive}
use traccoon.NetLib.Http.{
  Connection, no_socket, not_connected, connected, Network, first_connection, http_get,
}
use traccoon.NetLib.Http.Receive.{received, begins}
use traccoon.NetLib.Http.Request.{http_get-received}
use traccoon.NetLib.Merge.{terminated, is_text-IsNonzero, string_merge-joined}
use traccoon.NetLib.Url.{parse_url_destructive-parts}
use traccoon.Prelude.{
  length-replicate, ℕ, ◌+◌, ◌≡◌, refl, Option, some, List, [], ◌∷◌, ◌++◌, Bytes, codes, length,
  take, replicate, pos, arith,
}

abbrev zeros : ℕ → Bytes
zeros n = replicate n 0

string_merge-joined_example :
    string_merge
      (λ n. some (replicate n 7))
      (terminated (codes "/a") ∷ terminated (codes "?x=") ∷ terminated (codes "1") ∷ [])
    ≡ returns (some (terminated (codes "/a?x=1")))
string_merge-joined_example =
    string_merge-joined (λ n. some (replicate n 7)) (codes "/a" ∷ codes "?x=" ∷ codes "1" ∷ [])
      (replicate 7 7)
      (
        is_text-IsNonzero (codes "/a") refl,
        (is_text-IsNonzero (codes "?x=") refl, (is_text-IsNonzero (codes "1") refl, tt)),
      )
      refl refl (omega arith)

parse_url_destructive-parts_example :
    parse_url_destructive (terminated (codes "ht://u@h:80/p"))
    ≡ returns (
      codes "ht"
          ++ (0 ∷ codes "//"
              ++ (codes "u" ++ 0 ∷ (codes "h" ++ 0 ∷ (codes "80" ++ 0 ∷ terminated (codes "p"))))),
      record {
        status = pos 0;
        protocol = some 0;
        credentials = some 5;
        host = some 7;
        port = some 9;
        path = some 12;
      },
    )
parse_url_destructive-parts_example =
    parse_url_destructive-parts (codes "ht") (some (codes "u")) (codes "h") (some (codes "80"))
      (codes "p") (ground arith) (ground arith) (ground arith) (ground arith) (ground arith)

abbrev chunks : List (Option Bytes)
chunks = some (codes "HTTP/" ++ replicate 507 65) ∷ some (codes "end") ∷ []

-- a connection whose sends take everything
abbrev connection : Connection
connection = record { send = λ k s. pos (length s); recvs = chunks }

abbrev net : Network
net = record {
  malloc = λ n. some (zeros n);
  getaddrinfo = λ h p. some (not_connected ∷ no_socket ∷ connected connection ∷ []);
}

http_get-received_example :
    (response : Bytes) × (http_get net
        (some (terminated (codes "h")))
        (some (terminated (codes "80")))
        (some (terminated (codes "p")))
      ≡ returns (pos 515, some response))
    × (take (length (received chunks) + 1) response ≡ terminated (received chunks))
unfolding received begins first_connection
http_get-received_example =
    http_get-received zeros (λ n. length-replicate n 0) net (codes "h") (codes "80") (codes "p")
      (not_connected ∷ no_socket ∷ connected connection ∷ []) connection
      (
        is_text-IsNonzero (codes "h") refl,
        is_text-IsNonzero (codes "80") refl,
        is_text-IsNonzero (codes "p") refl,
      )
      refl refl refl refl (omega arith, (omega arith, tt)) (omega arith) (omega arith)

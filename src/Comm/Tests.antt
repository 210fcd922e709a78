-- ===== src/Comm/Tests.antt =====
-- Parameters of an announce.
use traccoon.Comm.Request.{parse_announce}
use traccoon.Comm.Safe.{IsModest, parse_announce-Returns}
use traccoon.Memory.{Returns}
use traccoon.Neth.Bounds.{has_zero}
use traccoon.Prelude.{refl, false, [], ◌∷◌, ◌++◌, codes}

parse_announce-Returns_example : Returns IsModest (
    parse_announce
      (record { address = codes "10.0.0.1"; is_ipv6 = false })
      (codes "?info_hash=abcdefghijklmnopqrst&peer_id=-TR2840-123456789012&port=6881&left=0 H"
        ++ 0 ∷ []))
unfolding has_zero
parse_announce-Returns_example =
    parse_announce-Returns (record { address = codes "10.0.0.1"; is_ipv6 = false })
      (codes "?info_hash=abcdefghijklmnopqrst&peer_id=-TR2840-123456789012&port=6881&left=0 H"
        ++ 0 ∷ [])
      refl

-- ===== src/Neth/Tests.antt =====
-- Measuring the parameters of a request.
use traccoon.Neth.{decoded_strlen, http_param_length}
use traccoon.Neth.Bounds.{has_zero, decoded_strlen-http_param_length}
use traccoon.Neth.Keys.{same, has_suffix}
use traccoon.Neth.Query.{query, behind_key, text_after-behind_key}
use traccoon.Neth.{text_after}
use traccoon.Memory.{returns}
use traccoon.Prelude.{to_int, ℕ, ◌*◌, ◌≤◌, ◌≡◌, refl, List, [], ◌∷◌, ◌++◌, Bytes, codes, pos, arith}

abbrev request : Bytes
request = codes "a%20b%2f&port=1 HTTP" ++ 0 ∷ []

param : http_param_length request ≡ returns 8
unfolding http_param_length traccoon.Neth.http_param_length_from
param = refl

decoded : decoded_strlen request (pos 8) ≡ returns 4
unfolding decoded_strlen traccoon.Neth.decoded_strlen_from
decoded = refl

decoded_strlen-http_param_length_example :
    (len : ℕ) × (n : ℕ) × (http_param_length request ≡ returns len)
    × (decoded_strlen request (pos len) ≡ returns n)
    × (len ≤ 3 * n)
    × (n ≤ len)
    × (to_int (pos len) ≡ pos len)
    × (to_int (pos n) ≡ pos n)
unfolding has_zero
decoded_strlen-http_param_length_example =
    decoded_strlen-http_param_length request refl (omega arith)

-- three parameters, one without a value
abbrev params : List (Bytes × Bytes)
params = (codes "no_port", codes "port") ∷ (codes "left", codes "7") ∷ (codes "event", []) ∷ []

text_after-behind_key_example :
    text_after (query b'?' params ++ 0 ∷ []) (codes "left" ++ b'=' ∷ [])
    ≡ returns (behind_key (codes "left") (0 ∷ []) params)
unfolding has_suffix same
text_after-behind_key_example =
    text_after-behind_key (codes "left") [] params (omega arith) (omega arith) (omega arith) (
      (omega arith, omega arith, refl),
      ((omega arith, omega arith, refl), ((omega arith, tt, refl), tt)),
    )

-- ===== src/NetLib/Http/Request.antt =====
-- `http_get` from the connection to the response.
use traccoon.Encoding.Url.RoundTrip.{All-append}
use traccoon.Memory.{returns}
use traccoon.NetLib.Http.{
  get_response, push_request, Connection, Attempt, Network, first_connection, request_parts,
  send_request, exchange, http_get, max_send_retry_count, response_buffer_chunk,
}
use traccoon.NetLib.Http.Receive.{received, begins, IsRecv, get_response-received}
use traccoon.NetLib.Merge.{
  is_text, terminated, joined, IsNonzero, is_text-IsNonzero, string_merge-joined, strlen-terminated,
}
use traccoon.Prelude.{
  ◌^◌, ◌<◌, ℕ, ◌+◌, ◌≡◌, refl, ap, ◌∙◌, true, Option, some, List, [], ◌∷◌, ◌++◌, map, Bytes, codes,
  length, take, All, if◌then◌else◌, ℤ, pos, minus_one, arith, take-append,
}

abbrev pub line_end : Bytes
line_end = 13 ∷ 10 ∷ []

-- The request for a host, a port and a path, and the strings it is made of.
abbrev pub plain_parts : Bytes → Bytes → Bytes → List Bytes
plain_parts host port path =
    codes "GET /"
    ∷ path
    ∷ (codes " HTTP/1.1" ++ line_end)
    ∷ codes "Host: "
    ∷ host
    ∷ codes ":"
    ∷ port
    ∷ line_end
    ∷ codes "User-Agent: "
    ∷ codes "traccoon/netlib"
    ∷ line_end
    ∷ codes "Accept-Encoding: "
    ∷ codes "text/plain"
    ∷ line_end
    ∷ codes "Connection: "
    ∷ codes "close"
    ∷ line_end
    ∷ line_end
    ∷ []

abbrev pub request_text : Bytes → Bytes → Bytes → Bytes
request_text host port path = joined (plain_parts host port path)

parts-terminated :
    (host port path : Bytes)
    → request_parts (terminated host) (terminated port) (terminated path)
      ≡ map terminated (plain_parts host port path)
parts-terminated host port path = refl

-- a host, a port and a path without a zero byte
abbrev pub AreTexts : Bytes → Bytes → Bytes → Type 0
AreTexts host port path = All IsNonzero host × All IsNonzero port × All IsNonzero path

parts-IsNonzero :
    (host port path : Bytes)
    → AreTexts host port path
    → All (All IsNonzero) (plain_parts host port path)
parts-IsNonzero host port path (hz, pz, az) =
    let text : (s : Bytes) → is_text s ≡ true → All IsNonzero s = is_text-IsNonzero in
    let eol : All IsNonzero line_end = text line_end refl in
    (
      text (codes "GET /") refl,
      (
        az,
        (
          text (codes " HTTP/1.1" ++ line_end) refl,
          (
            text (codes "Host: ") refl,
            (
              hz,
              (
                text (codes ":") refl,
                (
                  pz,
                  (
                    eol,
                    (
                      text (codes "User-Agent: ") refl,
                      (
                        text (codes "traccoon/netlib") refl,
                        (
                          eol,
                          (
                            text (codes "Accept-Encoding: ") refl,
                            (
                              text (codes "text/plain") refl,
                              (
                                eol,
                                (
                                  text (codes "Connection: ") refl,
                                  (text (codes "close") refl, (eol, (eol, tt))),
                                ),
                              ),
                            ),
                          ),
                        ),
                      ),
                    ),
                  ),
                ),
              ),
            ),
          ),
        ),
      ),
    )

joined-IsNonzero : (ss : List Bytes) → All (All IsNonzero) ss → All IsNonzero (joined ss)
joined-IsNonzero [] nz = tt
joined-IsNonzero (s ∷ ss) (s_nz, nz) =
    All-append IsNonzero s (joined ss) s_nz (joined-IsNonzero ss nz)

-- A first `send` that takes everything ends the loop.
send_request-whole :
    (send : ℕ → Bytes → ℤ) (text : Bytes)
    → send 0 text ≡ pos (length text)
    → send_request send text max_send_retry_count 0 ≡ true
unfolding send_request
send_request-whole send text h = ground (arith, h)

push_request-whole :
    (malloc : ℕ → Option Bytes) (c : Connection) (text : Bytes)
    → c.send 0 text ≡ pos (length text)
    → push_request malloc c text ≡ get_response malloc c.recvs
unfolding push_request
push_request-whole malloc c text sent = rw (push_request, send_request-whole c.send text sent) refl

module _ (fresh : ℕ → Bytes) (size : (n : ℕ) → length (fresh n) ≡ n) where
  -- With memory that does not run out, `http_get` takes the first address that a connection can be
  -- made to. When the first `send` takes the whole request, `recv` delivers no more than it is asked
  -- for, and the request and the response with one chunk more are shorter than 2^31 bytes, the
  -- response is what `recv` delivers up to the first call that does not fill its chunk, be it a short
  -- one, the end or a failure, terminated; its length is the result if it begins with `HTTP/`, and
  -- else -1.
  pub http_get-received :
      (net : Network) (host port path : Bytes) (attempts : List Attempt) (c : Connection)
      → AreTexts host port path
      → net.malloc ≡ (λ n. some (fresh n))
      → net.getaddrinfo (terminated host) (terminated port) ≡ some attempts
      → first_connection attempts ≡ some c
      → c.send 0 (request_text host port path) ≡ pos (length (request_text host port path))
      → All IsRecv c.recvs
      → length (request_text host port path) + 1 < 2 ^ 31
      → length (received c.recvs) + response_buffer_chunk < 2 ^ 31
      → (response : Bytes) × (http_get net
            (some (terminated host))
            (some (terminated port))
            (some (terminated path))
          ≡ returns (
            if begins (codes "HTTP/") (received c.recvs)
                then pos (length (received c.recvs))
                else minus_one,
            some response,
          ))
        × (take (length (received c.recvs) + 1) response ≡ terminated (received c.recvs))
  unfolding http_get exchange
  http_get-received net host port path attempts c texts mem found first sent ok asked got_all =
      let (response, got, front) = get_response-received fresh size c.recvs ok got_all in
      let ss : List Bytes = plain_parts host port path in
      let nz : All (All IsNonzero) ss = parts-IsNonzero host port path texts in
      let memory : ℕ → Option Bytes = λ n. some (fresh n) in
      let text : Bytes = request_text host port path in
      (
        response,
        rw
            (
              http_get,
              found,
              first,
              mem,
              exchange,
              parts-terminated host port path,
              string_merge-joined memory ss (fresh (length text + 1)) nz refl
                  (size (length text + 1)) asked,
              strlen-terminated text [] (joined-IsNonzero ss nz),
            )
            (ap (λ m. push_request m c (take (length text) (terminated text))) mem
              ∙ ap (push_request memory c) (take-append text (0 ∷ []))
              ∙ push_request-whole memory c text sent
              ∙ got),
        front,
      )

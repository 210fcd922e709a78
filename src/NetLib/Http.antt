-- ===== src/NetLib/Http.antt =====
-- getpeers/net.c: `http_get`. What the network answers is a parameter: how each address behaves,
-- what each call of `send` returns, and what each call of `recv` delivers.
pub mod Receive
pub mod Request
use traccoon.CLib.{strlen, strncmp_equal}
use traccoon.Memory.{Run, returns, fault, ◌>>=◌, write, read}
use traccoon.NetLib.{at_int, string_merge, write_bytes}
use traccoon.NetLib.Merge.{terminated}
use traccoon.Prelude.{
  to_int, size_of_int, ℕ, zero, suc, ◌+◌, ◌-◌, ◌/◌, Bool, true, false, Option, none, some, List, [],
  ◌∷◌, ◌++◌, Bytes, codes, length, take, drop, ltb, ◌==◌, if◌then◌else◌, ℤ, pos, negsuc, minus_one,
}

-- `RESPONSE_BUFFER_CHUNK` and `MAX_SEND_RETRY_COUNT`
abbrev pub response_buffer_chunk : ℕ
response_buffer_chunk = 512

abbrev pub max_send_retry_count : ℕ
max_send_retry_count = 5

-- An established connection: what the `k`-th call of `send` returns for some bytes, and what the
-- calls of `recv` deliver, `none` for -1; behind the list, the other side has closed and they
-- deliver nothing.
pub record Connection : Type 0 where
  pub send : ℕ → Bytes → ℤ
  pub recvs : List (Option Bytes)

-- what `socket` and `connect` do for an address
pub data Attempt : Type 0 where
  no_socket : Attempt
  not_connected : Attempt
  connected : Connection → Attempt

-- the memory, and the addresses that `getaddrinfo` has for a host and a port, if it succeeds with
-- some
pub record Network : Type 0 where
  pub malloc : ℕ → Option Bytes
  pub getaddrinfo : Bytes → Bytes → Option (List Attempt)

-- The loop over the addresses.
unfoldable pub first_connection : List Attempt → Option Connection
first_connection [] = none
first_connection (no_socket ∷ rest) = first_connection rest
first_connection (not_connected ∷ rest) = first_connection rest
first_connection (connected c ∷ rest) = some c

-- The parts of the request for a host, a port and a path.
abbrev pub request_parts : Bytes → Bytes → Bytes → List Bytes
request_parts host port path =
    terminated (codes "GET /")
    ∷ path
    ∷ (codes " HTTP/1.1" ++ 13 ∷ 10 ∷ 0 ∷ [])
    ∷ terminated (codes "Host: ")
    ∷ host
    ∷ terminated (codes ":")
    ∷ port
    ∷ (13 ∷ 10 ∷ 0 ∷ [])
    ∷ terminated (codes "User-Agent: ")
    ∷ terminated (codes "traccoon/netlib")
    ∷ (13 ∷ 10 ∷ 0 ∷ [])
    ∷ terminated (codes "Accept-Encoding: ")
    ∷ terminated (codes "text/plain")
    ∷ (13 ∷ 10 ∷ 0 ∷ [])
    ∷ terminated (codes "Connection: ")
    ∷ terminated (codes "close")
    ∷ (13 ∷ 10 ∷ 0 ∷ [])
    ∷ (13 ∷ 10 ∷ 0 ∷ [])
    ∷ []

-- The loop that sends, with `tries` calls left and the first `bytes` bytes sent: whether the last
-- call did not fail.
unfoldable pub send_request : (ℕ → Bytes → ℤ) → Bytes → ℕ → ℕ → Bool
send_request send text zero bytes = true
send_request send text (suc tries) bytes =
    if ltb bytes (length text)
    then elim (send (max_send_retry_count - suc tries) (drop bytes text)) [
      | pos n ↦ send_request send text tries (bytes + n)
      | negsuc n ↦ false
    ]
    else true

-- The next chunk of the response, whose size is an `int`: `realloc` keeps what the buffer holds, and
-- its result is not tested.
unfoldable pub grow : (ℕ → Option Bytes) → Bytes → Run Bytes
grow malloc response =
    elim (malloc (size_of_int (to_int (pos (length response + response_buffer_chunk))))) [
      | none ↦ fault
      | some object ↦ returns (response ++ drop (length response) object)
    ]

-- The loop that receives, with `bytes` bytes in the buffer: the buffer and their number.
unfoldable pub receive : (ℕ → Option Bytes) → List (Option Bytes) → Bytes → ℕ → Run (Bytes × ℕ)
receive malloc [] response bytes = do grown ← grow malloc response; returns (grown, bytes)
receive malloc (none ∷ recvs) response bytes = do
  grown ← grow malloc response
  returns (grown, bytes)
receive malloc (some chunk ∷ recvs) response bytes = do
  grown ← grow malloc response
  filled ← at_int (to_int (pos (length response))) (λ offset. write_bytes grown offset chunk)
  elim (length chunk == response_buffer_chunk) [
    | true ↦ receive malloc recvs filled (bytes + length chunk)
    | false ↦ returns (filled, bytes + length chunk)
  ]

-- The response: the terminator is written behind it, and it is accepted if it starts like one.
unfoldable pub get_response : (ℕ → Option Bytes) → List (Option Bytes) → Run (ℤ × Option Bytes)
get_response malloc recvs = do
  received ← receive malloc recvs [] 0
  response ← at_int (to_int (pos received.1)) (λ n. write received.0 n 0)
  is_http ← strncmp_equal response (terminated (codes "HTTP/")) 5
  returns (if is_http then to_int (pos received.1) else minus_one, some response)

-- The request is sent, and the response is read if no call failed.
unfoldable pub push_request : (ℕ → Option Bytes) → Connection → Bytes → Run (ℤ × Option Bytes)
push_request malloc connection text =
    elim (send_request connection.send text max_send_retry_count 0) [
      | false ↦ returns (minus_one, none)
      | true ↦ get_response malloc connection.recvs
    ]

-- On a connection. Nothing tests the result of `string_merge`.
unfoldable pub exchange : (ℕ → Option Bytes) → Connection → List Bytes → Run (ℤ × Option Bytes)
exchange malloc connection parts = do
  merged ← string_merge malloc parts
  elim merged [
    | none ↦ fault
    | some text ↦ (do len ← strlen text; push_request malloc connection (take len text))
  ]

-- The result and `*response`. The host, the port and the path may be NULL.
unfoldable pub http_get :
    Network → Option Bytes → Option Bytes → Option Bytes → Run (ℤ × Option Bytes)
http_get net none port path = returns (minus_one, none)
http_get net (some host) none path = returns (minus_one, none)
http_get net (some host) (some port) none = returns (minus_one, none)
http_get net (some host) (some port) (some path) = elim (net.getaddrinfo host port) [
  | none ↦ returns (minus_one, none)
  | some attempts ↦ elim (first_connection attempts) [
    | none ↦ returns (minus_one, none)
    | some connection ↦ exchange net.malloc connection (request_parts host port path)
  ]
]

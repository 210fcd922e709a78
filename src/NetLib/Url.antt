-- ===== src/NetLib/Url.antt =====
-- What `parse_url_destructive` finds in a URL that is put together from its parts.
use traccoon.NetLib.Splits.{
  IsPlain, IsPathByte, All-map, write-append, write-append_2, strchr-behind, strchr-nowhere, before,
  url_from_host, cut_from_host, host_offset, offset_of, components_at, IsPort, IsCredentials,
  plain-slash, plain-colon, plain-at, path-at, split_path-slash, split_port-colon,
  split_port-missing,
}
use traccoon.CLib.Search.{IsOther, strstr-found}
use traccoon.CLib.{strchr}
use traccoon.Encoding.Url.RoundTrip.{All-append}
use traccoon.Memory.{returns}
use traccoon.NetLib.Merge.{terminated}
use traccoon.NetLib.{split_credentials, split_port, split_path, split_host, parse_url_destructive}
use traccoon.Prelude.{
  ℕ, ◌+◌, ◌≡◌, refl, ap, sym, ◌∙◌, Option, none, some, [], ◌∷◌, ◌++◌, Bytes, codes, length, drop,
  All, arith, append_assoc, length-append,
}

-- The first slash is the one before the path.
slash-url :
    (pre host : Bytes) (port : Option Bytes) (path : Bytes)
    → All IsPlain host
    → IsPort port
    → (k : ℕ) × (strchr (drop (length pre) (pre ++ url_from_host host port path)) b'/'
        ≡ returns (some k))
slash-url pre host none path ha po =
    (length host, strchr-behind pre host (terminated path) b'/' (plain-slash host ha))
slash-url pre host (some p) path ha po =
    let s : Bytes = host ++ b':' ∷ p in
    let plain : All (IsOther b'/') s =
      All-append (IsOther b'/') host (b':' ∷ p) (plain-slash host ha)
        ((omega arith, omega arith), plain-slash p po) in
    (
      length s,
      rw (sym (append_assoc host (b':' ∷ p) (b'/' ∷ terminated path)))
          (strchr-behind pre s (terminated path) b'/' plain),
    )

no_port-url :
    (pre host path : Bytes)
    → All IsPlain host
    → All IsPathByte path
    → split_port (pre ++ url_from_host host none path) (length pre)
      ≡ returns (record {
        buffer = pre ++ url_from_host host none path;
        component = none;
        url = length pre;
      })
no_port-url pre host path ha pa =
    let s : Bytes = host ++ b'/' ∷ path in
    let plain : All (IsOther b':') s =
      All-append (IsOther b':') host (b'/' ∷ path) (plain-colon host ha)
        ((omega arith, omega arith), All-map path (λ x (nz, co, at). (nz, co)) pa) in
    rw (sym (append_assoc host (b'/' ∷ path) (0 ∷ []))) (split_port-missing pre s plain)

-- The slash behind a port, in front of which the buffer is cut.
port_path-url :
    (pre host p path : Bytes)
    → All IsPlain p
    → split_path (pre ++ (host ++ 0 ∷ (p ++ b'/' ∷ terminated path))) (length pre + length host + 1)
      ≡ returns (record {
        buffer = pre ++ (host ++ 0 ∷ (p ++ 0 ∷ terminated path));
        component = some (length pre + length host + 1 + length p + 1);
        url = length pre + length host + 1 + length p + 1;
      })
port_path-url pre host p path po =
    let front : Bytes = pre ++ (host ++ 0 ∷ []) in
    let len : length front ≡ length pre + length host + 1 =
      omega (arith, length-append pre (host ++ 0 ∷ []), length-append host (0 ∷ [])) in
    let text : (c : ℕ)
        → front ++ (p ++ c ∷ terminated path) ≡ pre ++ (host ++ 0 ∷ (p ++ c ∷ terminated path)) =
      λ c.
        append_assoc pre (host ++ 0 ∷ []) (p ++ c ∷ terminated path)
        ∙ ap (λ t. pre ++ t) (append_assoc host (0 ∷ []) (p ++ c ∷ terminated path)) in
    rw (sym (text b'/'), sym (text 0), sym len)
      (split_path-slash front p (terminated path) (plain-slash p po))

split_host-url :
    (pre host : Bytes) (port : Option Bytes) (path : Bytes) (credentials : Option ℕ)
    → All IsPlain host
    → IsPort port
    → All IsPathByte path
    → split_host (pre ++ url_from_host host port path) credentials (length pre)
      ≡ returns
          (pre ++ cut_from_host host port path, components_at credentials (length pre) host port)
unfolding split_host
split_host-url pre host none path credentials ha po pa =
    let (k, slash) = slash-url pre host none path ha po in
    rw
      (
        slash,
        no_port-url pre host path ha pa,
        split_path-slash pre host (terminated path) (plain-slash host ha),
      )
      refl
split_host-url pre host (some p) path credentials ha po pa =
    let (k, slash) = slash-url pre host (some p) path ha po in
    rw
      (
        slash,
        split_port-colon pre host (p ++ b'/' ∷ terminated path) (plain-colon host ha),
        port_path-url pre host p path po,
      )
      refl

-- The text from the host on, without its terminator.
no_at-url :
    (host : Bytes) (port : Option Bytes) (path : Bytes)
    → All IsPlain host
    → IsPort port
    → All IsPathByte path
    → (t : Bytes) × (url_from_host host port path ≡ terminated t) × All (IsOther b'@') t
no_at-url host none path ha po pa = (
  host ++ b'/' ∷ path,
  sym (append_assoc host (b'/' ∷ path) (0 ∷ [])),
  All-append (IsOther b'@') host (b'/' ∷ path) (plain-at host ha)
      ((omega arith, omega arith), path-at path pa),
)
no_at-url host (some p) path ha po pa =
    let rest : Bytes = p ++ b'/' ∷ path in
    (
      host ++ b':' ∷ rest,
      ap (λ t. host ++ b':' ∷ t) (sym (append_assoc p (b'/' ∷ path) (0 ∷ [])))
          ∙ sym (append_assoc host (b':' ∷ rest) (0 ∷ [])),
      All-append (IsOther b'@') host (b':' ∷ rest) (plain-at host ha) (
        (omega arith, omega arith),
        All-append (IsOther b'@') p (b'/' ∷ path) (plain-at p po)
            ((omega arith, omega arith), path-at path pa),
      ),
    )

cut_credentials :
    (pre : Bytes) (credentials : Option Bytes) (host : Bytes) (port : Option Bytes) (path : Bytes)
    → IsCredentials credentials
    → All IsPlain host
    → IsPort port
    → All IsPathByte path
    → split_credentials (pre ++ before credentials b'@' (url_from_host host port path)) (length pre)
      ≡ returns (record {
        buffer = pre ++ before credentials 0 (url_from_host host port path);
        component = offset_of credentials (length pre);
        url = host_offset (length pre) credentials;
      })
unfolding split_credentials
cut_credentials pre none host port path ca ha po pa =
    let (t, text, plain) = no_at-url host port path ha po pa in
    rw (text, strchr-nowhere pre t b'@' (omega arith) plain)
      (ap (λ u. returns (record { buffer = pre ++ u; component = none; url = length pre })) text)
cut_credentials pre (some s) host port path ca ha po pa =
    rw
      (
        strchr-behind pre s (url_from_host host port path) b'@' ca,
        write-append_2 pre s (url_from_host host port path) b'@' 0,
      )
      refl

split_host-behind :
    (pre : Bytes) (credentials : Option Bytes) (host : Bytes) (port : Option Bytes) (path : Bytes)
    (c : Option ℕ)
    → All IsPlain host
    → IsPort port
    → All IsPathByte path
    → split_host
        (pre ++ before credentials 0 (url_from_host host port path))
        c
        (host_offset (length pre) credentials)
      ≡ returns (
        pre ++ before credentials 0 (cut_from_host host port path),
        components_at c (host_offset (length pre) credentials) host port,
      )
split_host-behind pre none host port path c ha po pa = split_host-url pre host port path c ha po pa
split_host-behind pre (some s) host port path c ha po pa =
    let front : Bytes = pre ++ (s ++ 0 ∷ []) in
    let len : length front ≡ length pre + length s + 1 =
      omega (arith, length-append pre (s ++ 0 ∷ []), length-append s (0 ∷ [])) in
    let text : (t : Bytes) → front ++ t ≡ pre ++ (s ++ 0 ∷ t) =
      λ t. append_assoc pre (s ++ 0 ∷ []) t ∙ ap (λ u. pre ++ u) (append_assoc s (0 ∷ []) t) in
    rw
      (
        sym (text (url_from_host host port path)),
        sym (text (cut_from_host host port path)),
        sym len,
      )
      (split_host-url front host port path c ha po pa)

-- A URL `protocol://credentials@host:port/path`, whose credentials and port may be missing, whose
-- protocol has no colon, whose credentials have no `@`, whose host and port have no slash, colon or
-- `@` and whose path has no colon or `@`, is accepted: the separators in front of each part are
-- overwritten by terminators, and each pointer is the offset where its part begins.
pub parse_url_destructive-parts :
    (protocol : Bytes) (credentials : Option Bytes) (host : Bytes) (port : Option Bytes)
    (path : Bytes)
    → All (IsOther b':') protocol
    → IsCredentials credentials
    → All IsPlain host
    → IsPort port
    → All IsPathByte path
    → parse_url_destructive
        (protocol ++ (codes "://" ++ before credentials b'@' (url_from_host host port path)))
      ≡ returns (
        protocol ++ (0 ∷ codes "//" ++ before credentials 0 (cut_from_host host port path)),
        components_at
            (offset_of credentials (length protocol + 3))
            (host_offset (length protocol + 3) credentials)
            host
            port,
      )
unfolding parse_url_destructive
parse_url_destructive-parts protocol credentials host port path pr ca ha po pa =
    let rest : Bytes = before credentials b'@' (url_from_host host port path) in
    let front : Bytes = protocol ++ 0 ∷ codes "//" in
    let len : length front ≡ length protocol + 3 = length-append protocol (0 ∷ codes "//") in
    let text : (t : Bytes) → front ++ t ≡ protocol ++ (0 ∷ codes "//" ++ t) =
      λ t. append_assoc protocol (0 ∷ codes "//") t in
    rw
      (
        strstr-found protocol (codes "//") rest b':' pr,
        write-append protocol (codes "//" ++ rest) b':' 0,
        sym len,
        sym (text rest),
        sym (text (before credentials 0 (cut_from_host host port path))),
        cut_credentials front credentials host port path ca ha po pa,
      )
      (split_host-behind front credentials host port path (offset_of credentials (length front)) ha
        po pa)

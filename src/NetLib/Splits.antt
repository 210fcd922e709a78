-- ===== src/NetLib/Splits.antt =====
-- URLs that are put together from their parts, and single separators in them.
use traccoon.CLib.Search.{IsOther, strchr-found, strchr-missing}
use traccoon.CLib.{strchr}
use traccoon.Memory.{returns, write, write-set}
use traccoon.NetLib.Merge.{terminated}
use traccoon.NetLib.{UrlComponents, split_port, split_path}
use traccoon.Prelude.{
  set, ℕ, ◌+◌, ◌≡◌, ◌≢◌, refl, ap, sym, ◌∙◌, Option, none, some, [], ◌∷◌, ◌++◌, Bytes, length, drop,
  All, pos, arith, append_assoc, length-append, drop-append,
}

-- a byte of a host or a port, and one of a path
abbrev pub IsPlain : ℕ → Type 0
IsPlain x = (x ≢ 0) × (x ≢ b'/') × (x ≢ b':') × (x ≢ b'@')

abbrev pub IsPathByte : ℕ → Type 0
IsPathByte x = (x ≢ 0) × (x ≢ b':') × (x ≢ b'@')

pub All-map : {P Q : ℕ → Type 0} (xs : Bytes) → ((x : ℕ) → P x → Q x) → All P xs → All Q xs
All-map [] f a = a
All-map (x ∷ xs) f (p, a) = (f x p, All-map xs f a)

pub set-append :
    (pre rest : Bytes) (c v : ℕ) → set (pre ++ c ∷ rest) (length pre) v ≡ pre ++ v ∷ rest
set-append [] rest c v = refl
set-append (x ∷ pre) rest c v = ap (◌∷◌ x) (set-append pre rest c v)

pub write-append :
    (pre rest : Bytes) (c v : ℕ)
    → write (pre ++ c ∷ rest) (length pre) v ≡ returns (pre ++ v ∷ rest)
write-append pre rest c v =
    write-set (pre ++ c ∷ rest) (length pre) v (omega (arith, length-append pre (c ∷ rest)))
    ∙ ap returns (set-append pre rest c v)

-- The byte behind two texts is overwritten.
pub write-append_2 :
    (pre s rest : Bytes) (c v : ℕ)
    → write (pre ++ (s ++ c ∷ rest)) (length pre + length s) v ≡ returns (pre ++ (s ++ v ∷ rest))
write-append_2 pre s rest c v =
    rw
      (
        sym (append_assoc pre s (c ∷ rest)),
        sym (append_assoc pre s (v ∷ rest)),
        sym (length-append pre s),
      )
      (write-append (pre ++ s) rest c v)

pub strchr-behind :
    (pre s rest : Bytes) (c : ℕ)
    → All (IsOther c) s
    → strchr (drop (length pre) (pre ++ (s ++ c ∷ rest))) c ≡ returns (some (length s))
strchr-behind pre s rest c a = rw (drop-append pre (s ++ c ∷ rest)) (strchr-found s rest c a)

pub strchr-nowhere :
    (pre s : Bytes) (c : ℕ)
    → c ≢ 0
    → All (IsOther c) s
    → strchr (drop (length pre) (pre ++ terminated s)) c ≡ returns none
strchr-nowhere pre s c c_nz a = rw (drop-append pre (terminated s)) (strchr-missing s [] c c_nz a)

-- the parts before and behind which the code looks for a separator
abbrev pub before : Option Bytes → ℕ → Bytes → Bytes
before none sep rest = rest
before (some s) sep rest = s ++ sep ∷ rest

abbrev pub behind : Option Bytes → ℕ → Bytes → Bytes
behind none sep rest = rest
behind (some s) sep rest = sep ∷ (s ++ rest)

-- A URL as it is given, and the buffer with the separators overwritten.
abbrev pub url_from_host : Bytes → Option Bytes → Bytes → Bytes
url_from_host host port path = host ++ behind port b':' (b'/' ∷ terminated path)

abbrev pub cut_from_host : Bytes → Option Bytes → Bytes → Bytes
cut_from_host host port path = host ++ behind port 0 (0 ∷ terminated path)

abbrev pub host_offset : ℕ → Option Bytes → ℕ
host_offset n none = n
host_offset n (some s) = n + length s + 1

-- an offset that is there where the part is
abbrev pub offset_of : Option Bytes → ℕ → Option ℕ
offset_of none n = none
offset_of (some s) n = some n

abbrev pub path_at : ℕ → Bytes → Option Bytes → ℕ
path_at host_at host none = host_at + length host + 1
path_at host_at host (some s) = host_at + length host + 1 + length s + 1

abbrev pub components_at : Option ℕ → ℕ → Bytes → Option Bytes → UrlComponents
components_at credentials host_at host port = record {
  status = pos 0;
  protocol = some 0;
  credentials = credentials;
  host = some host_at;
  port = offset_of port (host_at + length host + 1);
  path = some (path_at host_at host port);
}

abbrev pub IsPort : Option Bytes → Type 0
IsPort none = Unit
IsPort (some s) = All IsPlain s

abbrev pub IsCredentials : Option Bytes → Type 0
IsCredentials none = Unit
IsCredentials (some s) = All (IsOther b'@') s

pub plain-slash : (s : Bytes) → All IsPlain s → All (IsOther b'/') s
plain-slash s a = All-map s (λ x (nz, sl, co, at). (nz, sl)) a

pub plain-colon : (s : Bytes) → All IsPlain s → All (IsOther b':') s
plain-colon s a = All-map s (λ x (nz, sl, co, at). (nz, co)) a

pub plain-at : (s : Bytes) → All IsPlain s → All (IsOther b'@') s
plain-at s a = All-map s (λ x (nz, sl, co, at). (nz, at)) a

pub path-at : (s : Bytes) → All IsPathByte s → All (IsOther b'@') s
path-at s a = All-map s (λ x (nz, co, at). (nz, at)) a

pub split_path-slash :
    (pre s rest : Bytes)
    → All (IsOther b'/') s
    → split_path (pre ++ (s ++ b'/' ∷ rest)) (length pre)
      ≡ returns (record {
        buffer = pre ++ (s ++ 0 ∷ rest);
        component = some (length pre + length s + 1);
        url = length pre + length s + 1;
      })
unfolding split_path
split_path-slash pre s rest a =
    rw (strchr-behind pre s rest b'/' a, write-append_2 pre s rest b'/' 0) refl

pub split_port-colon :
    (pre s rest : Bytes)
    → All (IsOther b':') s
    → split_port (pre ++ (s ++ b':' ∷ rest)) (length pre)
      ≡ returns (record {
        buffer = pre ++ (s ++ 0 ∷ rest);
        component = some (length pre + length s + 1);
        url = length pre + length s + 1;
      })
unfolding split_port
split_port-colon pre s rest a =
    rw (strchr-behind pre s rest b':' a, write-append_2 pre s rest b':' 0) refl

pub split_port-missing :
    (pre s : Bytes)
    → All (IsOther b':') s
    → split_port (pre ++ terminated s) (length pre)
      ≡ returns (record { buffer = pre ++ terminated s; component = none; url = length pre })
unfolding split_port
split_port-missing pre s a = rw (strchr-nowhere pre s b':' (omega arith) a) refl

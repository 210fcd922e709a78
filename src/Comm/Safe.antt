-- ===== src/Comm/Safe.antt =====
-- No request string makes the parsing of an announce leave its buffers.
use traccoon.CLib.{strncmp_equal}
use traccoon.Comm.Params.{clamp_lem}
use traccoon.Comm.Request.{
  Peer, Parsed, request, unterminated, missing, out_of_bounds, cut_at_space, hash_length,
  copy_param, parse_flag, parse_number, parse_params, parse_announce,
}
use traccoon.Comm.Scans.{
  IsTerminated, EndsIf, EndsBehind, EndsFrom, split_text, set-IsTerminated, strncmp_equal-Returns,
  strstr-Returns, text_after-Returns, strtoul-Returns, strncpy_bytes-Returns,
}
use traccoon.Comm.{is_event, event_of, parse_event, clamp_numwant, parse_numwant}
use traccoon.Db.{AnnounceRequest, no_event}
use traccoon.Encoding.CharIndex.{char_index, char_index-Found, Found}
use traccoon.Encoding.Hex.{max_hash_len}
use traccoon.Encoding.Url.{max_urlenc_hash_len}
use traccoon.Memory.{
  returns, ◌>>=◌, write, read, read-drop, write-set, Returns, Returns-bind, IfSome, Returns-IfSome,
}
use traccoon.Neth.Bounds.{has_zero, scans_lem}
use traccoon.Neth.{text_after}
use traccoon.NetLib.Merge.{IsNonzero, is_text, is_text-IsNonzero}
use traccoon.Track.Announce.{text_in, rounds_up_to}
use traccoon.Prelude.{
  set, ℕ, ◌+◌, ◌-◌, ◌<◌, ◌≤◌, ◌≡◌, refl, ap, ◌∙◌, Bool, true, false, Option, none, some, [], ◌∷◌,
  ◌++◌, Bytes, codes, length, replicate, All, ◌==◌, if◌then◌else◌, ℤ, pos, negsuc, to_int, arith,
  length-append,
}

cut-Found :
    (s t : Bytes) (c : ℤ)
    → Found t b' ' c
    → length t < length s
    → Returns EndsIf
        (elim c [ pos n ↦ write s n 0 >>= (λ cut. returns (some cut)) | negsuc n ↦ returns none ])
cut-Found s t (pos n) (before, after, splits, len, others) lt =
    let inside : n < length s =
      omega (arith, len, lt, ap length splits, length-append before (b' ' ∷ after)) in
    (some (set s n 0), rw (write-set s n 0 inside) refl, set-IsTerminated s n inside)
cut-Found s t (negsuc n) f lt = (none, refl, tt)

-- The rest of a buffer is cut at its first space.
cut_at_space-Returns : (s : Bytes) → IsTerminated s → Returns EndsIf (cut_at_space s)
unfolding cut_at_space
cut_at_space-Returns s z =
    let (t, rest, e, nz) = split_text s z in
    let (i, found, where_it_is) = char_index-Found t rest b' ' nz in
    let longer : length t < length s = omega (arith, ap length e, length-append t (0 ∷ rest)) in
    rw (ap (λ u. char_index (some u) b' ') e ∙ found) (cut-Found s t i where_it_is longer)

-- a length that was measured for the hash
abbrev pub Fits : Option ℕ → Type 0
Fits o = IfSome (λ n. n ≤ max_urlenc_hash_len) o

Fits-intro :
    (b : Bool) (n : ℕ) → (b ≡ true → n ≤ max_urlenc_hash_len) → Fits (if b then some n else none)
Fits-intro true n h = h refl
Fits-intro false n h = tt

hash_length-Returns : (s : Bytes) → IsTerminated s → Returns Fits (hash_length s)
unfolding hash_length
hash_length-Returns s z =
    let (len, n, e, e', le, _, _) = scans_lem s z in
    (_, rw (e, e') refl, Fits-intro (n == max_hash_len) len (λ h. ground (arith, h, le)))

text_in-length : (s : Bytes) → length (text_in s) ≤ length s
text_in-length [] = omega arith
text_in-length (x ∷ s) = ground (arith, text_in-length s)

copy_param-Returns :
    (s : Bytes) (n : ℕ)
    → IsTerminated s
    → n ≤ max_urlenc_hash_len
    → Returns (λ t. Unit) (copy_param s n)
unfolding copy_param
copy_param-Returns s n z fits =
    let (bytes, e, len) = strncpy_bytes-Returns s n z in
    (text_in (bytes ++ replicate (max_urlenc_hash_len + 1 - n) 0), ground (arith, e), tt)

parse_flag-Returns :
    (s name : Bytes) → IsTerminated s → All IsNonzero name → Returns (λ b. Unit) (parse_flag s name)
unfolding parse_flag
parse_flag-Returns s name z nz = Returns-bind _ (strstr-Returns s name z nz) found
  where
    found :
        (o : Option ℕ)
        → EndsFrom (length name) s o
        → Returns (λ b. Unit) (elim o [ none ↦ returns false | some n ↦ returns true ])
    found none p = (false, refl, tt)
    found (some n) p = (true, refl, tt)

parse_number-Returns : (o : Option Bytes) → EndsIf o → Returns (λ z. Unit) (parse_number o)
unfolding parse_number
parse_number-Returns none p = (pos 0, refl, tt)
parse_number-Returns (some s) p =
    Returns-bind _ (strtoul-Returns s p) (λ n u. (to_int (pos n), refl, tt))

-- a number of peers that is sent for
abbrev pub IsFew : ℤ → Type 0
IsFew z = rounds_up_to z ≤ 50

clamp-IsFew : (z : ℤ) → IsFew (clamp_numwant z)
clamp-IsFew z = let (n, e, low, high) = clamp_lem z in rw e high

parse_numwant-Returns : (o : Option Bytes) → EndsIf o → Returns IsFew (parse_numwant o)
unfolding parse_numwant
parse_numwant-Returns none p = (_, refl, clamp-IsFew (pos 0))
parse_numwant-Returns (some s) p =
    Returns-bind _ (strtoul-Returns s p) (λ n u. (_, refl, clamp-IsFew (to_int (pos n))))

event_behind :
    (s : Bytes) (b : Bool)
    → EndsBehind 2 s b
    → Returns (λ e. Unit) (if b then (read s 2 >>= λ c. returns (event_of c)) else returns no_event)
unfolding has_zero
event_behind s false p = (no_event, refl, tt)
event_behind [] true p = absurd (cc)
event_behind (a ∷ []) true p = absurd (cc)
event_behind (a ∷ b ∷ []) true p = absurd (cc)
event_behind (a ∷ b ∷ c ∷ s) true p = (event_of c, rw (read-drop (a ∷ b ∷ c ∷ s) 2 refl) refl, tt)

is_event-Returns : (s : Bytes) → IsTerminated s → Returns (EndsBehind 2 s) (is_event s)
unfolding is_event
is_event-Returns s z =
    Returns-bind _ (strncmp_equal-Returns s (codes "st") z (is_text-IsNonzero (codes "st") refl))
      second
  where
    second :
        (b : Bool)
        → EndsBehind 2 s b
        → Returns
            (EndsBehind 2 s)
            (if b then returns true else strncmp_equal s (codes "co" ++ 0 ∷ []) 2)
    second true p = (true, refl, p)
    second false p = strncmp_equal-Returns s (codes "co") z (is_text-IsNonzero (codes "co") refl)

parse_event-Returns : (o : Option Bytes) → EndsIf o → Returns (λ e. Unit) (parse_event o)
unfolding parse_event
parse_event-Returns none p = (no_event, refl, tt)
parse_event-Returns (some s) p = Returns-bind _ (is_event-Returns s p) (λ b q. event_behind s b q)

-- A request for at most 50 peers.
unfoldable pub IsModest : Parsed AnnounceRequest → Type 0
IsModest (request ar) = IsFew ar.numwant
IsModest unterminated = Unit
IsModest missing = Unit
IsModest out_of_bounds = Unit

-- a parameter that is looked for
param :
    (s : Bytes) (name : Bytes)
    → IsTerminated s
    → is_text name ≡ true
    → Returns EndsIf (text_after s name)
param s name z h = text_after-Returns s name z (is_text-IsNonzero name h)

flag :
    (s : Bytes) (name : Bytes)
    → IsTerminated s
    → is_text name ≡ true
    → Returns (λ b. Unit) (parse_flag s name)
flag s name z h = parse_flag-Returns s name z (is_text-IsNonzero name h)

parse_params-Returns :
    (peer : Peer) (buffer hash peerid port : Bytes)
    → IsTerminated buffer
    → IsTerminated hash
    → IsTerminated peerid
    → IsTerminated port
    → Returns IsModest (parse_params peer buffer hash peerid port)
unfolding parse_params IsModest
parse_params-Returns peer buffer hash peerid port z zh zi zp =
    Returns-bind _ (param buffer (codes "event=") z refl) (λ event_text pe.
      Returns-bind _ (param buffer (codes "numwant=") z refl) (λ numwant_text pn.
        Returns-bind _ (param buffer (codes "left=") z refl) (λ left_text pl.
          Returns-bind _ (flag buffer (codes "compact=1") z refl) (λ compact u.
            Returns-bind _ (flag buffer (codes "no_peer_id=1") z refl) (λ no_peer_id u.
              Returns-bind _ (parse_event-Returns event_text pe) (λ event u.
                Returns-bind _ (hash_length-Returns hash zh) (λ hash_len fits.
                  Returns-bind _ (hash_length-Returns peerid zi) (λ peerid_len fits'.
                    Returns-IfSome (λ n. n ≤ max_urlenc_hash_len) (out_of_bounds, refl, tt)
                      (λ n n_fits.
                        Returns-IfSome (λ m. m ≤ max_urlenc_hash_len) (out_of_bounds, refl, tt)
                          (λ m m_fits.
                            Returns-bind _ (copy_param-Returns hash n zh n_fits) (λ info_hash u.
                              Returns-bind _ (copy_param-Returns peerid m zi m_fits) (λ peer_id u.
                                Returns-bind _ (parse_number-Returns (some port) zp)
                                  (λ port_number u.
                                    Returns-bind _ (parse_numwant-Returns numwant_text pn)
                                      (λ numwant few.
                                        Returns-bind _ (parse_number-Returns left_text pl)
                                          (λ left u. (_, refl, few)))))))
                          peerid_len fits')
                      hash_len fits))))))))

-- For any terminated text behind `announce`, the parsing ends without an access outside of the
-- buffer or of the arrays of 61 bytes, and a request that is accepted is for at most 50 peers.
pub parse_announce-Returns :
    (peer : Peer) (s : Bytes) → IsTerminated s → Returns IsModest (parse_announce peer s)
unfolding parse_announce IsModest
parse_announce-Returns peer s z = Returns-bind _ (cut_at_space-Returns s z) (λ cut ends.
    Returns-IfSome IsTerminated (unterminated, refl, tt)
      (λ buffer zb. Returns-bind _ (param buffer (codes "info_hash=") zb refl) (λ hash ph.
        Returns-bind _ (param buffer (codes "peer_id=") zb refl) (λ peerid pi.
          Returns-bind _ (param buffer (codes "port=") zb refl) (λ port pp.
            Returns-IfSome IsTerminated (missing, refl, tt)
              (λ h zh.
                Returns-IfSome IsTerminated (missing, refl, tt)
                  (λ i zi.
                    Returns-IfSome IsTerminated (missing, refl, tt)
                      (λ p zp. parse_params-Returns peer buffer h i p zb zh zi zp) port pp)
                  peerid pi)
              hash ph))))
      cut ends)

-- ===== src/Track/Balance.antt =====
-- A request uses the database as its functions promise.
use traccoon.Db.Balance.{Holds-now, StepsNotOk, Ready, prepared_lem, read_row_lem, finalize_lem}
use traccoon.Db.Calls.{
  Query, Library, Session, give, call, Call, ◌>>=◌, finalize, query_torrent_id, query_torrent_peers,
  get_seed_count, get_completion_count, get_peers_count, increase_completion_count, int, text,
}
use traccoon.Db.Open.{
  Achieves-given, number, opened, IsDisciplined, downloads_counted, Achieves, Achieves-bind,
  Achieves-give, Achieves-weaken, Achieves-branch, Achieves-from, Holds, From,
}
use traccoon.Db.Update.{FindsAdded, update_lem, counted_for}
use traccoon.Db.{
  AnnounceRequest, db_nosuchhash, db_failed, get_torrent_id, update_peer, query_torrent_param,
}
use traccoon.Memory.{Run, returns}
use traccoon.Track.Announce.{
  rounds_up_to, Host, without_calls, ok_headers, unknown_hash, database_error, server_error,
  answer_for, answer_peers, peers_reply, prepared_request, hash_array, text_in, track, scrape,
  scrape_numbers,
}
use traccoon.Track.{hex_hash}
use traccoon.Track.Compact.{Pton}
use traccoon.Encoding.Hex.Encode.{IsByte}
use traccoon.Encoding.Hex.{max_hash_len, max_hexenc_hash_len}
use traccoon.Encoding.Url.{url_decode, max_urlenc_hash_len}
use traccoon.Track.Hash.{hex_hash-hex_encode}
use traccoon.Track.Replies.{
  IsDict, IsShort, peers_reply-IsDict, unknown_hash-IsDict, database_error-IsDict,
  server_error-IsDict,
}
use traccoon.Prelude.{
  ℕ, ◌+◌, ◌≤◌, ◌≡◌, ◌≢◌, refl, sym, subst, false, Option, none, some, List, [], ◌∷◌, ◌++◌, Bytes,
  length, All, ◌==◌, ℤ, ==ℤ,
}

-- A session that closes what it opens.
abbrev Closes : Library → List Query → List Call → Type 0
Closes lib st h = (n : ℕ) × Holds lib st n h

module _ (lib : Library) (st : List Query) where
  Achieves-Closes :
      {A : Type 0} {s : Session A} {Q : A → List Call → Type 0}
      → ((n : ℕ) → Achieves (Holds lib st n) s Q)
      → Achieves (Closes lib st) s Q
  Achieves-Closes w = record { outcome = λ h p. (w p.0).outcome h p.1 }

  Closes-some :
      {A : Type 0} {s : Session A} {m : A → ℕ → ℕ}
      → ((n : ℕ) → Achieves (Holds lib st n) s (λ a. Holds lib st (m a n)))
      → Achieves (Closes lib st) s (λ a. Closes lib st)
  Closes-some {m = m} w = Achieves-Closes (λ n. Achieves-weaken (w n) (λ a h p. (m a n, p)))

  get_torrent_id_lem :
      (hash : Bytes) → Achieves (Closes lib st) (get_torrent_id lib hash) (λ t. Closes lib st)
  unfolding get_torrent_id
  get_torrent_id_lem hash =
      Closes-some {m = λ a n. n}
        (λ n. read_row_lem lib st n query_torrent_id (text hash ∷ []) db_nosuchhash refl)

  query_torrent_param_lem :
      (q : Query) (torrent : ℤ)
      → (number q == number increase_completion_count) ≡ false
      → Achieves (Closes lib st) (query_torrent_param lib q torrent) (λ t. Closes lib st)
  unfolding query_torrent_param
  query_torrent_param_lem q torrent other =
      Closes-some {m = λ a n. n} (λ n. read_row_lem lib st n q (int torrent ∷ []) db_failed other)

  answer_for_lem :
      (torrent : ℤ) (s : Session Bytes) (P : Bytes → Type 0)
      → P unknown_hash
      → P database_error
      → Achieves (Closes lib st) s (λ t h. P t × Closes lib st h)
      → Achieves (Closes lib st) (answer_for torrent s) (λ t h. P t × Closes lib st h)
  unfolding answer_for
  answer_for_lem torrent s P unknown failed w =
      Achieves-branch (λ b. Closes lib st) (Achieves-give unknown_hash (λ h p. (unknown, p)))
        (Achieves-branch (λ b. Closes lib st) (Achieves-give database_error (λ h p. (failed, p))) w
          (==ℤ torrent db_failed))
        (==ℤ torrent db_nosuchhash)

  without_calls_lem :
      {A : Type 0} (r : Run A) (a : A) (P : List Call → Type 0)
      → r ≡ returns a
      → Achieves P (without_calls r) (λ b h. P h × (b ≡ a))
  without_calls_lem r a P e = rw e (Achieves-give a (λ h p. (p, refl)))

-- What a request leaves, which starts with the history `h`: it ends with a text, and the statements
-- are open that were open before, each having been used only while it was open.
pub record Replied (lib : Library) (h : List Call) (P : Bytes → Type 0)
    (run : Run (Bytes × List Call)) : Type 0 where
  pub reply : Bytes
  pub after : List Call
  pub ends : run ≡ returns (reply, after)
  pub content : P reply
  pub disciplined : IsDisciplined lib after
  pub open_now : opened lib after ≡ opened lib h

replied_lem :
    (lib : Library) (h : List Call) {P : Bytes → Type 0} {s : Session Bytes}
    → IsDisciplined lib h
    → Achieves (Closes lib (opened lib h)) s (λ t g. P t × Closes lib (opened lib h) g)
    → Replied lib h P (s h)
replied_lem lib h d w =
    let (t, h', e, p) = w.outcome h (downloads_counted lib h, Holds-now lib h d) in
    record {
      reply = t;
      after = h';
      ends = e;
      content = p.0;
      disciplined = p.1.1.disciplined;
      open_now = p.1.1.open_now;
    }

-- a reply: the headers, and a bencoded dictionary
unfoldable pub IsAnswer : Bytes → Type 0
IsAnswer sent = (body : Bytes) × (sent ≡ ok_headers ++ body) × IsDict body

-- What is asked of the network and of the peers of a torrent.
pub record IsUsable (host : Host) (ar : AnnounceRequest) : Type 0 where
  pub steps : StepsNotOk host.library
  pub finds : (t : ℤ) → FindsAdded host.library t ar.peer_id
  pub four : Pton 4 host.network.pton4
  pub six : Pton 16 host.network.pton6
  pub few : rounds_up_to ar.numwant ≤ 50
  pub short : (t : ℤ) → All (IsShort ar.no_peer_id) (host.peers_of t)

module _ (host : Host) (ar : AnnounceRequest) (u : IsUsable host ar) (interval : ℤ)
    (st : List Query) where
  fetched_lem :
      (torrent : ℤ) (hash : Bytes) (n : ℕ) (h₀ : List Call)
      → Achieves
          (From host.library (query_torrent_peers ∷ st) n h₀)
          (do
            reply ← without_calls (
                peers_reply host.network
                  (prepared_request ar hash)
                  interval
                  (host.peers_of torrent))
            done ← call host.library (finalize query_torrent_peers)
            updated ← update_peer host.library 2 torrent (prepared_request ar hash)
            give reply)
          (λ t h. IsDict t × Closes host.library st h)
  fetched_lem torrent hash n h₀ =
      let request : AnnounceRequest = prepared_request ar hash in
      let (body, e, d) =
        peers_reply-IsDict host.network request interval (host.peers_of torrent) u.four u.six u.few
          (u.short torrent) in
      Achieves-bind (without_calls_lem host.library st _ body _ e) (λ reply. Achieves-given (λ same.
        Achieves-bind
          (Achieves-weaken (finalize_lem host.library st n query_torrent_peers h₀)
            (λ e h p. p.holds))
          (λ done.
            Achieves-bind (update_lem host.library u.steps st n 0 torrent request (u.finds torrent))
              (λ updated.
                Achieves-give reply
                  (λ h p. (subst IsDict (sym same) d, (counted_for request updated n, p)))))))

  answer_peers_lem :
      (torrent : ℤ) (hash : Bytes)
      → Achieves
          (Closes host.library st)
          (answer_peers host (prepared_request ar hash) interval torrent)
          (λ t h. IsDict t × Closes host.library st h)
  unfolding answer_peers
  answer_peers_lem torrent hash = Achieves-Closes host.library st (λ n.
      Achieves-from host.library st n (λ h₀.
        Achieves-bind (prepared_lem host.library st n query_torrent_peers (int torrent ∷ []) h₀) (
          Achieves-branch (Ready host.library st n query_torrent_peers _)
            (fetched_lem torrent hash n _)
            (Achieves-give server_error (λ h p. (server_error-IsDict, (n, p)))))))

  track_lem :
      (array : Bytes)
      → hex_hash host.local (hash_array ar.info_hash) ≡ returns array
      → Achieves
          (Closes host.library st)
          (track host ar interval)
          (λ t h. IsAnswer t × Closes host.library st h)
  unfolding track IsAnswer
  track_lem array e =
      Achieves-bind (without_calls_lem host.library st _ array (Closes host.library st) e) (λ hash.
        Achieves-given (λ same.
          Achieves-bind (get_torrent_id_lem host.library st (text_in hash)) (λ torrent.
            Achieves-bind
              (answer_for_lem host.library st torrent _ IsDict unknown_hash-IsDict
                database_error-IsDict (answer_peers_lem torrent (text_in hash)))
              (λ reply. Achieves-give (ok_headers ++ reply) (λ h p. ((reply, refl, p.0), p.1))))))

-- For a hash of at most 60 bytes that decodes to 20, `track` ends when the network and the database
-- can be used: the statements are open that were open before, each having been used only while it
-- was open, and what is sent is the headers and a bencoded dictionary.
pub track-Replied :
    (host : Host) (ar : AnnounceRequest) (interval : ℤ) (h : List Call) (hash : Bytes)
    → IsUsable host ar
    → length host.local ≡ max_hexenc_hash_len + 1
    → All (λ x. x ≢ 0) ar.info_hash
    → length ar.info_hash ≤ max_urlenc_hash_len
    → url_decode ar.info_hash ≡ some hash
    → length hash ≡ max_hash_len
    → All IsByte hash
    → IsDisciplined host.library h
    → Replied host.library h IsAnswer (track host ar interval h)
track-Replied host ar interval h hash u size nz fits decodes len bytes d =
    let (array, e, digits) =
      hex_hash-hex_encode host.local ar.info_hash hash size nz fits decodes len bytes in
    replied_lem host.library h d (track_lem host ar u interval (opened host.library h) array e)

-- `scrape` ends, whatever the database answers, with the statements open that were open before,
-- each having been used only while it was open.
pub scrape-Replied :
    (host : Host) (hash : Option Bytes) (h : List Call)
    → IsDisciplined host.library h
    → Replied host.library h (λ sent. Unit) (scrape host hash h)
unfolding scrape scrape_numbers
scrape-Replied host none h d = replied_lem host.library h d (Achieves-give _ (λ g p. (tt, p)))
scrape-Replied host (some hash) h d =
    let st : List Query = opened host.library h in
    replied_lem host.library h d (
      Achieves-bind (get_torrent_id_lem host.library st hash) (λ torrent.
        Achieves-bind
          (answer_for_lem host.library st torrent _ (λ t. Unit) tt tt
            (Achieves-bind (query_torrent_param_lem host.library st get_seed_count torrent refl)
              (λ seeds.
                Achieves-bind
                  (query_torrent_param_lem host.library st get_completion_count torrent refl)
                  (λ downloads.
                    Achieves-bind
                      (query_torrent_param_lem host.library st get_peers_count torrent refl)
                      (λ peers. Achieves-give _ (λ g p. (tt, p)))))))
          (λ reply. Achieves-give _ (λ g p. (tt, p.1)))))

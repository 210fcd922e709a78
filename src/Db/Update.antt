-- ===== src/Db/Update.antt =====
-- `addPeer`, `prunePeers` and `updatePeer`: the statements they leave open, and the downloads that
-- are counted.
use traccoon.Db.Balance.{
  bound_calls, Ready, prepared_lem, StepsNotOk, counted_by, write_row_lem, step_row_lem, Balanced,
  Holds-now,
}
use traccoon.Db.Calls.{
  Query, add_torrent_peer, query_peer_by_id, update_peer_data, query_prune_peers,
  increase_completion_count, Bound, int, text, Call, prepare, step, finalize, Library, sqlite_row,
  sqlite_done, Session, ◌>>=◌, give,
}
use traccoon.Db.Open.{
  IsDisciplined, downloads_counted, Achieves, Achieves-bind, Achieves-give, Achieves-weaken,
  Achieves-given, Achieves-branch, Achieves-if_some, Holds, From, Achieves-from,
  Achieves-current_time,
}
use traccoon.Db.{
  db_failed, e_generic, is_completed, AnnounceRequest, write_row, add_peer, prune_peers, query_peer,
  modify_peer, update_peer,
}
use traccoon.Prelude.{
  ℕ, suc, ◌+◌, ◌≡◌, ◌∙◌, refl, ap, sym, subst, inl, inr, Bool, Bool-cases, Option-cases, true,
  false, not, Option, none, some, List, [], ◌∷◌, Bytes, ◌&&◌, ◌||◌, if◌then◌else◌, ℤ, pos, ==ℤ,
  to_int, arith,
}

-- The last calls of the history inserted the peer `p` of the torrent `t`.
pub record Added (lib : Library) (t : ℤ) (p : Bytes) (h : List Call) : Type 0 where
  pub before : List Call
  pub rest : List Bound
  pub calls :
      h
      ≡ finalize add_torrent_peer
        ∷ step add_torrent_peer
        ∷ bound_calls add_torrent_peer 1 (int t ∷ text p ∷ rest) (prepare add_torrent_peer ∷ before)
  pub done :
      ==ℤ
        (lib.answer
          (bound_calls add_torrent_peer 1
            (int t ∷ text p ∷ rest)
            (prepare add_torrent_peer ∷ before))
          (step add_torrent_peer))
        sqlite_done
      ≡ true

-- What is known of a history behind `addPeer`, by whether it returned 0.
abbrev pub AddedOn : Bool → Library → ℤ → Bytes → List Call → Type 0
AddedOn true lib t p h = Added lib t p h
AddedOn false lib t p h = Unit

AddedOn-intro :
    (b : Bool) {lib : Library} {t : ℤ} {p : Bytes} {h : List Call}
    → (b ≡ true → Added lib t p h)
    → AddedOn b lib t p h
AddedOn-intro true w = w refl
AddedOn-intro false w = tt

-- The calls of the query for the peer `p` of the torrent `t`, up to its step.
abbrev pub asked_for : ℤ → Bytes → List Call → List Call
asked_for t p h =
    bound_calls query_peer_by_id 1 (int t ∷ text p ∷ []) (prepare query_peer_by_id ∷ h)

-- A peer that was just inserted is found: the query for it does not say that there is no row.
unfoldable pub FindsAdded : Library → ℤ → Bytes → Type 0
FindsAdded lib t p =
    (h : List Call)
    → Added lib t p h
    → ==ℤ (lib.answer (asked_for t p h) (step query_peer_by_id)) sqlite_done ≡ false

-- the downloads that are counted when `updatePeer` has returned `r`
abbrev pub counted_for : AnnounceRequest → ℤ → ℕ → ℕ
counted_for ar r n = if ==ℤ r (pos 0) && is_completed ar.event then n + 1 else n

Achieves-subst :
    {A : Type 0} {lib : Library} {st : List Query} {m n : ℕ} {s : Session A}
    {Q : A → List Call → Type 0}
    → m ≡ n
    → Achieves (Holds lib st n) s Q
    → Achieves (Holds lib st m) s Q
Achieves-subst {lib = lib} {st = st} {s = s} {Q = Q} e w =
    subst (λ k. Achieves (Holds lib st k) s Q) (sym e) w

module _ (lib : Library) (steps : StepsNotOk lib) (st : List Query) (n : ℕ) where
  add_peer_lem :
      (ar : AnnounceRequest) (t : ℤ)
      → Achieves
          (Holds lib st n)
          (add_peer lib ar t)
          (λ r h. Holds lib st n h × (==ℤ r (pos 0) ≡ true → Added lib t ar.peer_id h))
  unfolding add_peer
  add_peer_lem ar t = Achieves-bind (Achieves-current_time lib st n) (
      Achieves-if_some (λ r h. Holds lib st n h × (==ℤ r (pos 0) ≡ true → Added lib t ar.peer_id h))
        (Achieves-give e_generic (λ h p. (p, λ ok. absurd (cc))))
        (λ now. Achieves-from lib st n (λ h₀.
          Achieves-weaken (write_row_lem lib st n add_torrent_peer _ h₀ steps) (λ r h p. (
            subst (λ k. Holds lib st k h) (ground arith) p.balance,
            λ ok. record {
              before = h₀;
              rest = text ar.ip ∷ int ar.port ∷ int (to_int now) ∷ int ar.protover ∷ [];
              calls = (p.success ok).0;
              done = (p.success ok).1;
            },
          )))))

  write_lem :
      (q : Query) (vs : List Bound)
      → Achieves (Holds lib st n) (write_row lib q vs) (λ r. Holds lib st (counted_by q r n))
  write_lem q vs =
      Achieves-from lib st n
        (λ h₀. Achieves-weaken (write_row_lem lib st n q vs h₀ steps) (λ r h p. p.balance))

  pub prune_lem :
      (expire_interval : ℤ)
      → Achieves (Holds lib st n) (prune_peers lib expire_interval) (λ r. Holds lib st n)
  unfolding prune_peers
  prune_lem expire_interval = Achieves-bind (Achieves-current_time lib st n) (
      Achieves-if_some (λ r. Holds lib st n) (Achieves-give e_generic (λ h p. p))
        (λ now.
          Achieves-weaken (write_lem query_prune_peers _)
            (λ r h p. subst (λ k. Holds lib st k h) (ground arith) p)))

  modify_peer_lem :
      (t : ℤ) (ar : AnnounceRequest) (row : ℤ)
      → Achieves
          (Holds lib st n)
          (modify_peer lib t ar row)
          (λ r. Holds lib st (counted_for ar r n))
  unfolding modify_peer
  modify_peer_lem t ar row = Achieves-bind (Achieves-current_time lib st n) (
      Achieves-if_some (λ r. Holds lib st (counted_for ar r n)) (Achieves-give e_generic (λ h p. p))
        (λ now. Achieves-bind (write_lem update_peer_data _) (λ e.
          elim (Bool-cases (not (==ℤ e (pos 0)) || not (is_completed ar.event))) [
            | inl over ↦
                rw over (Achieves-give e (λ h p. subst (λ k. Holds lib st k h) (ground arith) p))
            | inr count ↦ rw count (
                Achieves-weaken
                  (Achieves-subst (ground arith) (write_lem increase_completion_count (int t ∷ [])))
                  (λ r h p. subst (λ k. Holds lib st k h) (ground arith) p))
          ])))

  -- what the query for the peer has told
  abbrev Answered : List Call → Option (ℤ × ℤ) → Type 0
  Answered h₀ none = Unit
  Answered h₀ (some v) = v.0 ≡ lib.answer h₀ (step query_peer_by_id)

  query_peer_lem :
      (t : ℤ) (ar : AnnounceRequest) (h₀ : List Call)
      → Achieves
          (From lib st n h₀)
          (query_peer lib t ar)
          (λ r h. Holds lib st n h × Answered (asked_for t ar.peer_id h₀) r)
  unfolding query_peer
  query_peer_lem t ar h₀ = Achieves-bind (prepared_lem lib st n query_peer_by_id _ h₀) (
      Achieves-branch (Ready lib st n query_peer_by_id (asked_for t ar.peer_id h₀))
        (Achieves-bind (step_row_lem lib st n query_peer_by_id _ refl _)
          (λ v. Achieves-give (some v) (λ h p. p)))
        (Achieves-give none (λ h p. (p, tt))))

  Achieves-strengthen :
      {P R : List Call → Type 0} {s : Session ℤ} {Q : ℤ → List Call → Type 0}
      → ((h : List Call) → P h → R h)
      → Achieves R s Q
      → Achieves P s Q
  Achieves-strengthen w hs = record { outcome = λ h p. hs.outcome h (w h p) }

  module _ (t : ℤ) (ar : AnnounceRequest) (again : Session ℤ) where
    abbrev Again : Type 0
    Again =
        Achieves (λ h. Holds lib st n h × Added lib t ar.peer_id h) again
          (λ r. Holds lib st (counted_for ar r n))

    -- the peer is not in the database: it is added, and then `again` runs
    add_again_lem :
        Again
        → Achieves
            (Holds lib st n)
            (add_peer lib ar t >>= λ added. elim (==ℤ added (pos 0)) [
              | true ↦ again
              | false ↦ give db_failed
            ])
            (λ r. Holds lib st (counted_for ar r n))
    add_again_lem w = Achieves-bind (add_peer_lem ar t) (λ r. elim (Bool-cases (==ℤ r (pos 0))) [
      | inl ok ↦ rw ok (Achieves-strengthen (λ h p. (p.0, p.1 refl)) w)
      | inr bad ↦ rw bad (Achieves-give db_failed (λ h p. p.0))
    ])

    continue_lem :
        (v : ℤ × ℤ)
        → (==ℤ v.0 sqlite_done ≡ true → Again)
        → Achieves
            (Holds lib st n)
            (elim (==ℤ v.0 sqlite_done) [
              | true ↦ add_peer lib ar t >>= λ added. elim (==ℤ added (pos 0)) [
                | true ↦ again
                | false ↦ give db_failed
              ]
              | false ↦ elim (==ℤ v.0 sqlite_row) [
                | true ↦ modify_peer lib t ar v.1
                | false ↦ give db_failed
              ]
            ])
            (λ r. Holds lib st (counted_for ar r n))
    continue_lem v w = elim (Bool-cases (==ℤ v.0 sqlite_done)) [
      | inl done ↦ rw done (add_again_lem (w done))
      | inr other ↦ rw other (
          Achieves-branch (λ b. Holds lib st n) (modify_peer_lem t ar v.1)
            (Achieves-give db_failed (λ h p. p)) (==ℤ v.0 sqlite_row))
    ]

  update_step :
      (fuel : ℕ) (t : ℤ) (ar : AnnounceRequest) (h₀ : List Call)
      → (==ℤ (lib.answer (asked_for t ar.peer_id h₀) (step query_peer_by_id)) sqlite_done ≡ true
          → Again t ar (update_peer lib fuel t ar))
      → Achieves
          (From lib st n h₀)
          (update_peer lib (suc fuel) t ar)
          (λ r. Holds lib st (counted_for ar r n))
  unfolding update_peer
  update_step fuel t ar h₀ w = Achieves-bind (query_peer_lem t ar h₀) (λ o. elim (Option-cases o) [
    | inl e ↦ rw e (Achieves-give db_failed (λ h p. p.0))
    | inr (v, e) ↦ rw e (
        Achieves-given (λ same.
          continue_lem t ar _ v (λ done. w (ap (λ x. ==ℤ x sqlite_done) (sym same) ∙ done))))
  ])

  pub update_lem :
      (fuel : ℕ) (t : ℤ) (ar : AnnounceRequest)
      → FindsAdded lib t ar.peer_id
      → Achieves
          (Holds lib st n)
          (update_peer lib (suc (suc fuel)) t ar)
          (λ r. Holds lib st (counted_for ar r n))
  unfolding FindsAdded
  update_lem fuel t ar finds =
      let second : Again t ar (update_peer lib (suc fuel) t ar) = record {
        outcome = λ h p.
            (update_step fuel t ar h (λ d. let found = finds h p.1 in absurd (cc))).outcome h
              (record { holds = p.0; now = refl });
      } in
      Achieves-from lib st n (λ h₀. update_step (suc fuel) t ar h₀ (λ d. second))

-- `updatePeer` ends, for a database in which an inserted peer is found, after at most one call of
-- itself. Its statements are finalised, and each was used only while it was open. One download more
-- is counted if it returns 0 for an announce with the event "completed", and none otherwise.
pub update_peer-Balanced :
    (lib : Library) (fuel : ℕ) (t : ℤ) (ar : AnnounceRequest) (h : List Call)
    → StepsNotOk lib
    → FindsAdded lib t ar.peer_id
    → IsDisciplined lib h
    → (b : Balanced lib h (update_peer lib (suc (suc fuel)) t ar h)) × (downloads_counted lib
          b.after
        ≡ counted_for ar b.result (downloads_counted lib h))
update_peer-Balanced lib fuel t ar h steps finds d =
    let (r, h', e, p) = (update_lem lib steps _ _ fuel t ar finds).outcome h (Holds-now lib h d) in
    (
      record {
        result = r;
        after = h';
        ends = e;
        disciplined = p.disciplined;
        open_now = p.open_now;
      },
      p.counted,
    )

-- `addPeer` ends with its statement finalised, and uses it only while it is open. If it returns 0,
-- its last calls are a completed insertion of the peer for the torrent.
pub add_peer-Added :
    (lib : Library) (ar : AnnounceRequest) (t : ℤ) (h : List Call)
    → StepsNotOk lib
    → IsDisciplined lib h
    → (b : Balanced lib h (add_peer lib ar t h)) × AddedOn
        (==ℤ b.result (pos 0))
        lib
        t
        ar.peer_id
        b.after
add_peer-Added lib ar t h steps d =
    let (r, h', e, p) = (add_peer_lem lib steps _ _ ar t).outcome h (Holds-now lib h d) in
    (
      record {
        result = r;
        after = h';
        ends = e;
        disciplined = p.0.disciplined;
        open_now = p.0.open_now;
      },
      AddedOn-intro (==ℤ r (pos 0)) p.1,
    )

-- `prunePeers` ends with its statement finalised, and uses it only while it is open. It counts no
-- download.
pub prune_peers-Balanced :
    (lib : Library) (expire_interval : ℤ) (h : List Call)
    → StepsNotOk lib
    → IsDisciplined lib h
    → (b : Balanced lib h (prune_peers lib expire_interval h)) × (downloads_counted lib b.after
        ≡ downloads_counted lib h)
prune_peers-Balanced lib expire_interval h steps d =
    let (r, h', e, p) = (prune_lem lib steps _ _ expire_interval).outcome h (Holds-now lib h d) in
    (
      record {
        result = r;
        after = h';
        ends = e;
        disciplined = p.disciplined;
        open_now = p.open_now;
      },
      p.counted,
    )

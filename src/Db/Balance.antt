-- ===== src/Db/Balance.antt =====
-- Every function of db.c leaves the statements open that were open before, and uses a statement
-- only while it is open. `updatePeer` counts a download exactly when it should.
use traccoon.Db.Calls.{
  Query, query_torrent_id, increase_completion_count, Bound, text, Call, prepare, bind, step,
  column_int, finalize, Library, sqlite_ok, sqlite_error, sqlite_busy, sqlite_row, sqlite_done,
  Session, ◌>>=◌, give, call,
}
use traccoon.Db.Open.{
  number, pop, opened, IsDisciplined, count_after, downloads_counted, Achieves, Achieves-bind,
  Achieves-give, Achieves-weaken, Achieves-given, Achieves-branch, Holds, From, Achieves-from,
  Achieves-call,
}
use traccoon.Db.{
  int, query_torrent_param, db_failed, bind_all, prepared, write_result, run_write, run_read,
  step_row, get_torrent_id, write_row, db_nosuchhash,
}
use traccoon.Memory.{Run, returns}
use traccoon.Prelude.{
  ℕ, ◌+◌, ◌≡◌, ◌∙◌, refl, ap, sym, subst, inl, inr, Bool, Bool-cases, true, false, List, [], ◌∷◌,
  Bytes, ◌==◌, ◌&&◌, if◌then◌else◌, ℤ, pos, ==ℤ, arith,
}

number_same : (q : Query) → (number q == number q) ≡ true
number_same q = ground arith

pop_same : (q : Query) (st : List Query) → pop q (q ∷ st) ≡ st
pop_same q st = ground (arith, number_same q)

-- the history when values are bound to the parameters from `i` on
abbrev pub bound_calls : Query → ℕ → List Bound → List Call → List Call
bound_calls q i [] h = h
bound_calls q i (v ∷ vs) h = bound_calls q (i + 1) vs (bind q i v ∷ h)

module _ (lib : Library) (st : List Query) (n : ℕ) where
  -- what `prepared` leaves: the statement is open, or nothing has changed
  abbrev pub Ready : Query → List Call → Bool → List Call → Type 0
  Ready q h₀ true h = From lib (q ∷ st) n h₀ h
  Ready q h₀ false h = Holds lib st n h

  pub finalize_lem :
      (q : Query) (h₀ : List Call)
      → Achieves
          (From lib (q ∷ st) n h₀)
          (call lib (finalize q))
          (λ e. From lib st n (finalize q ∷ h₀))
  finalize_lem q h₀ =
      Achieves-weaken
        (rw (pop_same q st) at (Achieves-call lib (q ∷ st) n (finalize q) (number_same q) h₀))
        (λ a h p. p.0)

  bind_all_lem :
      (q : Query) (i : ℕ) (vs : List Bound) (h₀ : List Call)
      → Achieves (From lib (q ∷ st) n h₀) (bind_all lib q i vs) (Ready q (bound_calls q i vs h₀))
  unfolding bind_all
  bind_all_lem q i [] h₀ = Achieves-give true (λ h p. p)
  bind_all_lem q i (v ∷ vs) h₀ =
      Achieves-bind
        (Achieves-weaken (Achieves-call lib (q ∷ st) n (bind q i v) (number_same q) h₀)
          (λ e h p. p.0))
        (λ e. elim (Bool-cases (==ℤ e sqlite_ok)) [
          | inl ok ↦ rw ok (bind_all_lem q (i + 1) vs (bind q i v ∷ h₀))
          | inr bad ↦
              rw bad (Achieves-bind (finalize_lem q _) (λ d. Achieves-give false (λ h p. p.holds)))
        ])

  pub prepared_lem :
      (q : Query) (vs : List Bound) (h₀ : List Call)
      → Achieves
          (From lib st n h₀)
          (prepared lib q vs)
          (Ready q (bound_calls q 1 vs (prepare q ∷ h₀)))
  unfolding prepared
  prepared_lem q vs h₀ =
      Achieves-bind (Achieves-weaken (Achieves-call lib st n (prepare q) refl h₀) (λ e h p. p.0))
        (λ e. elim (Bool-cases (==ℤ e sqlite_ok)) [
          | inl ok ↦ rw ok (bind_all_lem q 1 vs (prepare q ∷ h₀))
          | inr bad ↦ rw bad (Achieves-give false (λ h p. p.holds))
        ])

-- `sqlite3_step` never answers SQLITE_OK.
unfoldable pub StepsNotOk : Library → Type 0
StepsNotOk lib = (h : List Call) (q : Query) → ==ℤ (lib.answer h (step q)) sqlite_ok ≡ false

-- the downloads that are counted when a function that runs `q` last has returned `r`
abbrev pub counted_by : Query → ℤ → ℕ → ℕ
counted_by q r n =
    if ==ℤ r (pos 0) && number q == number increase_completion_count then n + 1 else n

write_result-zero :
    (e : ℤ) → ==ℤ e sqlite_ok ≡ false → ==ℤ (write_result e) (pos 0) ≡ ==ℤ e sqlite_done
write_result-zero e h = elim (Bool-cases (==ℤ e sqlite_done)) [
  | inl done ↦ rw done refl
  | inr other ↦ rw other (elim (Bool-cases (==ℤ e sqlite_busy)) [
    | inl busy ↦ rw busy refl
    | inr more ↦ rw more (elim (Bool-cases (==ℤ e sqlite_error)) [
      | inl error ↦ rw error refl
      | inr last ↦ rw last h
    ])
  ])
]

-- What a session that writes leaves: on success its calls are the last ones.
pub record Wrote (lib : Library) (st : List Query) (n : ℕ) (q : Query) (vs : List Bound)
    (h₀ : List Call) (r : ℤ) (h : List Call) : Type 0 where
  pub balance : Holds lib st (counted_by q r n) h
  pub success :
      ==ℤ r (pos 0) ≡ true
      → (h ≡ finalize q ∷ step q ∷ bound_calls q 1 vs (prepare q ∷ h₀))
        × (==ℤ (lib.answer (bound_calls q 1 vs (prepare q ∷ h₀)) (step q)) sqlite_done ≡ true)

module _ (lib : Library) (st : List Query) (n : ℕ) where
  run_write_lem :
      (q : Query) (h₀ : List Call)
      → StepsNotOk lib
      → Achieves (From lib (q ∷ st) n h₀) (run_write lib q) (λ r h.
        From lib st (counted_by q r n) (finalize q ∷ step q ∷ h₀) h
        × (==ℤ r (pos 0) ≡ ==ℤ (lib.answer h₀ (step q)) sqlite_done))
  unfolding run_write StepsNotOk
  run_write_lem q h₀ steps =
      Achieves-bind (Achieves-call lib (q ∷ st) n (step q) (number_same q) h₀) (λ e.
        Achieves-given (λ same.
          let zero_iff = write_result-zero e (ap (λ x. ==ℤ x sqlite_ok) same ∙ steps h₀ q) in
          let count : count_after (step q) e n ≡ counted_by q (write_result e) n =
            ground (arith, zero_iff) in
          Achieves-bind (finalize_lem lib st (count_after (step q) e n) q (step q ∷ h₀)) (λ d.
            Achieves-give (write_result e) (λ h p. (
              subst (λ k. From lib st k (finalize q ∷ step q ∷ h₀) h) count p,
              zero_iff ∙ ap (λ x. ==ℤ x sqlite_done) same,
            )))))

  pub write_row_lem :
      (q : Query) (vs : List Bound) (h₀ : List Call)
      → StepsNotOk lib
      → Achieves (From lib st n h₀) (write_row lib q vs) (Wrote lib st n q vs h₀)
  unfolding write_row
  write_row_lem q vs h₀ steps = Achieves-bind (prepared_lem lib st n q vs h₀) (
      Achieves-branch (Ready lib st n q (bound_calls q 1 vs (prepare q ∷ h₀)))
        (Achieves-weaken (run_write_lem q _ steps)
          (λ r h p. record { balance = p.0.holds; success = λ ok. (p.0.now, sym p.1 ∙ ok) }))
        (Achieves-give db_failed (λ h p. record { balance = p; success = λ ok. absurd (cc) })))

  close_lem :
      (q : Query) → Achieves (Holds lib (q ∷ st) n) (call lib (finalize q)) (λ e. Holds lib st n)
  close_lem q =
      Achieves-from lib (q ∷ st) n
        (λ h₀. Achieves-weaken (finalize_lem lib st n q h₀) (λ e h p. p.holds))

  pub step_row_lem :
      (q : Query) (f : ℤ → ℤ)
      → (number q == number increase_completion_count) ≡ false
      → (h₀ : List Call)
      → Achieves
          (From lib (q ∷ st) n h₀)
          (step_row lib q f)
          (λ r h. Holds lib st n h × (r.0 ≡ lib.answer h₀ (step q)))
  unfolding step_row
  step_row_lem q f other h₀ =
      Achieves-bind (rw other at (Achieves-call lib (q ∷ st) n (step q) (number_same q) h₀)) (λ e.
        Achieves-given (λ same.
          Achieves-bind {Q = λ r. Holds lib (q ∷ st) n}
            (elim (Bool-cases (==ℤ e sqlite_row)) [
              | inl row ↦ rw row (
                  Achieves-weaken
                    (Achieves-call lib (q ∷ st) n (column_int q 0) (number_same q) (step q ∷ h₀))
                    (λ a h p. p.0.holds))
              | inr no_row ↦ rw no_row (Achieves-give (f e) (λ h p. p.holds))
            ])
            (λ r. Achieves-bind (close_lem q) (λ d. Achieves-give (e, r) (λ h p. (p, same))))))

  pub read_row_lem :
      (q : Query) (vs : List Bound) (missing : ℤ)
      → (number q == number increase_completion_count) ≡ false
      → Achieves
          (Holds lib st n)
          (prepared lib q vs >>= λ ready. elim ready [
            | true ↦ run_read lib q missing
            | false ↦ give db_failed
          ])
          (λ r. Holds lib st n)
  unfolding run_read
  read_row_lem q vs missing other = Achieves-from lib st n (λ h₀.
      Achieves-bind (prepared_lem lib st n q vs h₀) (
        Achieves-branch (Ready lib st n q (bound_calls q 1 vs (prepare q ∷ h₀)))
          (Achieves-bind (step_row_lem q _ other _) (λ r. Achieves-give r.1 (λ h p. p.0)))
          (Achieves-give db_failed (λ h p. p))))

-- What a call of a function of db.c leaves, which starts with the history `h`: it ends, its own
-- statements are finalised, and each was used only while it was open.
pub record Balanced (lib : Library) (h : List Call) (run : Run (ℤ × List Call)) : Type 0 where
  pub result : ℤ
  pub after : List Call
  pub ends : run ≡ returns (result, after)
  pub disciplined : IsDisciplined lib after
  pub open_now : opened lib after ≡ opened lib h

pub Holds-now :
    (lib : Library) (h : List Call)
    → IsDisciplined lib h
    → Holds lib (opened lib h) (downloads_counted lib h) h
Holds-now lib h d = record { disciplined = d; open_now = refl; counted = refl }

pub balanced_lem :
    (lib : Library) (h : List Call) {s : Session ℤ} {m : ℤ → ℕ}
    → IsDisciplined lib h
    → Achieves
        (Holds lib (opened lib h) (downloads_counted lib h))
        s
        (λ r. Holds lib (opened lib h) (m r))
    → Balanced lib h (s h)
balanced_lem lib h d w =
    let (r, h', e, p) = w.outcome h (Holds-now lib h d) in
    record { result = r; after = h'; ends = e; disciplined = p.disciplined; open_now = p.open_now }

-- `getTorrentId` ends, whatever the database answers, with the statements open that were open
-- before, and uses and finalises its own statement only while it is open.
pub get_torrent_id-Balanced :
    (lib : Library) (hash : Bytes) (h : List Call)
    → IsDisciplined lib h
    → Balanced lib h (get_torrent_id lib hash h)
unfolding get_torrent_id
get_torrent_id-Balanced lib hash h d =
    balanced_lem lib h d (read_row_lem lib _ _ query_torrent_id (text hash ∷ []) db_nosuchhash refl)

-- So does `queryTorrentParam`, for a query that counts no download.
pub query_torrent_param-Balanced :
    (lib : Library) (q : Query) (torrent : ℤ) (h : List Call)
    → (number q == number increase_completion_count) ≡ false
    → IsDisciplined lib h
    → Balanced lib h (query_torrent_param lib q torrent h)
unfolding query_torrent_param
query_torrent_param-Balanced lib q torrent h other d =
    balanced_lem lib h d (read_row_lem lib _ _ q (int torrent ∷ []) db_failed other)

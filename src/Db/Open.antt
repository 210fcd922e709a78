-- ===== src/Db/Open.antt =====
-- The statements that are open after a history of calls, and the rules for the calls that open,
-- use and close them.
use traccoon.Db.Calls.{
  Query, query_torrent_id, query_torrent_peers, add_torrent_peer, query_peer_by_id,
  update_peer_data, query_prune_peers, increase_completion_count, get_completion_count,
  get_seed_count, get_peers_count, query_torrent_count, Call, gettimeofday, prepare, bind, step,
  column_int, finalize, Library, sqlite_ok, sqlite_done, Session, call, current_time,
}
pub use traccoon.Memory.State.{
  Achieves, Achieves-bind, Achieves-give, Achieves-weaken, Achieves-branch, Achieves-if_some,
  Achieves-given,
}
use traccoon.Prelude.{
  ℕ, ◌+◌, ◌≡◌, ◌∙◌, refl, ap, Bool, true, false, List, [], ◌∷◌, ◌==◌, ◌&&◌, if◌then◌else◌, ℤ, ==ℤ,
}

abbrev pub number : Query → ℕ
number query_torrent_id = 0
number query_torrent_peers = 1
number add_torrent_peer = 2
number query_peer_by_id = 3
number update_peer_data = 4
number query_prune_peers = 5
number increase_completion_count = 6
number get_completion_count = 7
number get_seed_count = 8
number get_peers_count = 9
number query_torrent_count = 10

abbrev pub on_top : Query → List Query → Bool
on_top q [] = false
on_top q (r ∷ st) = number q == number r

abbrev pub pop : Query → List Query → List Query
pop q [] = []
pop q (r ∷ st) = if number q == number r then st else r ∷ st

-- A call that answers `e` when the statements `st` are open, the newest first, leaves these.
abbrev pub open_after : Call → ℤ → List Query → List Query
open_after (prepare q) e st = if ==ℤ e sqlite_ok then q ∷ st else st
open_after (finalize q) e st = pop q st
open_after _ e st = st

-- A statement is used or finalised only while it is the newest of the open ones.
abbrev pub allowed : Call → List Query → Bool
allowed gettimeofday st = true
allowed (prepare q) st = true
allowed (bind q i v) st = on_top q st
allowed (step q) st = on_top q st
allowed (column_int q i) st = on_top q st
allowed (finalize q) st = on_top q st

unfoldable pub opened : Library → List Call → List Query
opened lib [] = []
opened lib (c ∷ h) = open_after c (lib.answer h c) (opened lib h)

unfoldable pub IsDisciplined : Library → List Call → Type 0
IsDisciplined lib [] = Unit
IsDisciplined lib (c ∷ h) = (allowed c (opened lib h) ≡ true) × IsDisciplined lib h

-- The downloads that are counted after a call: a completed step of one statement counts one.
abbrev pub count_after : Call → ℤ → ℕ → ℕ
count_after (step q) e n =
    if number q == number increase_completion_count && ==ℤ e sqlite_done then n + 1 else n
count_after _ e n = n

unfoldable pub downloads_counted : Library → List Call → ℕ
downloads_counted lib [] = 0
downloads_counted lib (c ∷ h) = count_after c (lib.answer h c) (downloads_counted lib h)

-- The history keeps to the discipline, `st` are open, and `n` downloads were counted.
pub record Holds (lib : Library) (st : List Query) (n : ℕ) (h : List Call) : Type 0 where
  pub disciplined : IsDisciplined lib h
  pub open_now : opened lib h ≡ st
  pub counted : downloads_counted lib h ≡ n

-- The same, at the history `h₀`.
pub record From (lib : Library) (st : List Query) (n : ℕ) (h₀ h : List Call) : Type 0 where
  pub holds : Holds lib st n h
  pub now : h ≡ h₀

pub Achieves-from {ℓ} :
    {A : Type ℓ} (lib : Library) (st : List Query) (n : ℕ) {Q : A → List Call → Type 0}
    {s : Session A}
    → ((h₀ : List Call) → Achieves (From lib st n h₀) s Q)
    → Achieves (Holds lib st n) s Q
Achieves-from lib st n w = record {
  outcome = λ h p. (w h).outcome h (record { holds = p; now = refl });
}

pub Achieves-call :
    (lib : Library) (st : List Query) (n : ℕ) (c : Call)
    → allowed c st ≡ true
    → (h₀ : List Call)
    → Achieves
        (From lib st n h₀)
        (call lib c)
        (λ e h. From lib (open_after c e st) (count_after c e n) (c ∷ h₀) h × (e ≡ lib.answer h₀ c))
unfolding IsDisciplined opened downloads_counted
Achieves-call lib st n c ok h₀ = record {
  outcome = λ h p. (
    lib.answer h c,
    c ∷ h,
    refl,
    (
      record {
        holds = record {
          disciplined = (ap (allowed c) p.holds.open_now ∙ ok, p.holds.disciplined);
          open_now = ap (open_after c (lib.answer h c)) p.holds.open_now;
          counted = ap (count_after c (lib.answer h c)) p.holds.counted;
        };
        now = ap (◌∷◌ c) p.now;
      },
      ap (λ g. lib.answer g c) p.now,
    ),
  );
}

pub Achieves-current_time :
    (lib : Library) (st : List Query) (n : ℕ)
    → Achieves (Holds lib st n) (current_time lib) (λ t. Holds lib st n)
unfolding IsDisciplined opened downloads_counted
Achieves-current_time lib st n = record {
  outcome = λ h p. (
    _,
    gettimeofday ∷ h,
    refl,
    record { disciplined = (refl, p.disciplined); open_now = p.open_now; counted = p.counted },
  );
}

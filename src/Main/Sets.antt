-- ===== src/Main/Sets.antt =====
-- What one option of the server sets.
use traccoon.Comm.Scans.{IsTerminated, strtoul-Returns}
use traccoon.Db.Create.{SetupCall}
use traccoon.Main.Options.{Settings, starts, number, option, is_four}
use traccoon.Memory.{returns, ◌>>=◌, Returns, Returns-bind}
use traccoon.Neth.Bounds.{has_zero}
use traccoon.Prelude.{
  ℕ, ◌≡◌, ◌≢◌, refl, ap, sym, subst, inl, inr, Bool, false, ◌||◌, Bool-cases, some, List, [], ◌∷◌,
  ◌++◌, Bytes, ◌==◌, if◌then◌else◌, ℤ, arith,
}

text-IsTerminated : (text : Bytes) → IsTerminated (text ++ 0 ∷ [])
unfolding has_zero
text-IsTerminated [] = refl
text-IsTerminated (c ∷ text) = ground (arith, text-IsTerminated text)

-- `strtoul` ends on an argument.
number-Returns : (text : Bytes) → Returns (λ n. Unit) (number text)
unfolding number
number-Returns text =
    Returns-bind _ (strtoul-Returns (text ++ 0 ∷ []) (text-IsTerminated text))
      (λ n u. (_, refl, tt))

-- What one option with the letter `c` makes of the settings `s`.
pub record Sets (c : ℕ) (text : Bytes) (s t : Settings) : Type 0 where
  pub database_file : t.database_file ≡ (if c == b'f' then text else s.database_file)
  pub bindhost : t.bindhost ≡ (if c == b'b' then some text else s.bindhost)
  pub force_ipv4 : t.force_ipv4 ≡ (if c == b'i' then some (is_four text) else s.force_ipv4)
  pub port : t.port ≡ (if c == b'p' then text else s.port)
  pub workers : returns t.workers ≡ (if c == b'w' then number text else returns s.workers)
  pub queue_size : returns t.queue_size ≡ (if c == b'q' then number text else returns s.queue_size)
  pub announce_interval :
      returns t.announce_interval ≡ (if c == b'a' then number text else returns s.announce_interval)

by_letter : (P : ℕ → Type 0) (c d : ℕ) → P d → ((c == d) ≡ false → P c) → P c
by_letter P c d here other = elim (Bool-cases (c == d)) [
  | inl e ↦ subst P (ground (arith, e)) here
  | inr e ↦ other e
]

abbrev pub OutcomeOf : (List SetupCall → SetupCall → ℤ) → Bytes → Settings → ℕ → Type 0
OutcomeOf setup text s c =
    (t : Settings) × (option setup c text s ≡ returns (starts t)) × Sets c text s t

module _ (setup : List SetupCall → SetupCall → ℤ) (text : Bytes) (s : Settings) where
  sets_database : OutcomeOf setup text s b'f'
  unfolding option
  sets_database = (
    record s { database_file = text },
    refl,
    record {
      database_file = refl;
      bindhost = refl;
      force_ipv4 = refl;
      port = refl;
      workers = refl;
      queue_size = refl;
      announce_interval = refl;
    },
  )

  sets_bindhost : OutcomeOf setup text s b'b'
  unfolding option
  sets_bindhost = (
    record s { bindhost = some text },
    refl,
    record {
      database_file = refl;
      bindhost = refl;
      force_ipv4 = refl;
      port = refl;
      workers = refl;
      queue_size = refl;
      announce_interval = refl;
    },
  )

  sets_family : OutcomeOf setup text s b'i'
  unfolding option
  sets_family = (
    record s { force_ipv4 = some (is_four text) },
    refl,
    record {
      database_file = refl;
      bindhost = refl;
      force_ipv4 = refl;
      port = refl;
      workers = refl;
      queue_size = refl;
      announce_interval = refl;
    },
  )

  sets_port : OutcomeOf setup text s b'p'
  unfolding option
  sets_port = (
    record s { port = text },
    refl,
    record {
      database_file = refl;
      bindhost = refl;
      force_ipv4 = refl;
      port = refl;
      workers = refl;
      queue_size = refl;
      announce_interval = refl;
    },
  )

  sets_workers : OutcomeOf setup text s b'w'
  unfolding option
  sets_workers =
      let (n, e, u) = number-Returns text in
      (
        record s { workers = n },
        ap (λ r. r >>= λ m. returns (starts (record s { workers = m }))) e,
        record {
          database_file = refl;
          bindhost = refl;
          force_ipv4 = refl;
          port = refl;
          workers = sym e;
          queue_size = refl;
          announce_interval = refl;
        },
      )

  sets_queue : OutcomeOf setup text s b'q'
  unfolding option
  sets_queue =
      let (n, e, u) = number-Returns text in
      (
        record s { queue_size = n },
        ap (λ r. r >>= λ m. returns (starts (record s { queue_size = m }))) e,
        record {
          database_file = refl;
          bindhost = refl;
          force_ipv4 = refl;
          port = refl;
          workers = refl;
          queue_size = sym e;
          announce_interval = refl;
        },
      )

  sets_interval : OutcomeOf setup text s b'a'
  unfolding option
  sets_interval =
      let (n, e, u) = number-Returns text in
      (
        record s { announce_interval = n },
        ap (λ r. r >>= λ m. returns (starts (record s { announce_interval = m }))) e,
        record {
          database_file = refl;
          bindhost = refl;
          force_ipv4 = refl;
          port = refl;
          workers = refl;
          queue_size = refl;
          announce_interval = sym e;
        },
      )

  -- the letters of the settings
  abbrev is_setting : ℕ → Bool
  is_setting c =
      c == b'f' || c == b'b' || c == b'i' || c == b'p' || c == b'w' || c == b'q' || c == b'a'

  sets_nothing : (c : ℕ) → c ≢ b'c' → is_setting c ≡ false → OutcomeOf setup text s c
  unfolding option
  sets_nothing c no_creation other = (
    s,
    ground (arith, no_creation, other),
    record {
      database_file = ground (arith, other);
      bindhost = ground (arith, other);
      force_ipv4 = ground (arith, other);
      port = ground (arith, other);
      workers = ground (arith, other);
      queue_size = ground (arith, other);
      announce_interval = ground (arith, other);
    },
  )

  pub option-Sets : (c : ℕ) → c ≢ b'c' → OutcomeOf setup text s c
  option-Sets c no_creation = by_letter (OutcomeOf setup text s) c b'f' sets_database (λ f.
      by_letter (OutcomeOf setup text s) c b'b' sets_bindhost (λ b.
        by_letter (OutcomeOf setup text s) c b'i' sets_family (λ i.
          by_letter (OutcomeOf setup text s) c b'p' sets_port (λ p.
            by_letter (OutcomeOf setup text s) c b'w' sets_workers (λ w.
              by_letter (OutcomeOf setup text s) c b'q' sets_queue (λ q.
                by_letter (OutcomeOf setup text s) c b'a' sets_interval
                  (λ a. sets_nothing c no_creation (ground (arith, f, b, i, p, w, q, a)))))))))

-- ===== src/Main/Last.antt =====
-- What the options of the server set: for each setting, the last option for it.
use traccoon.Main.Sets.{option-Sets}
use traccoon.CLib.{letter_of}
use traccoon.Db.Create.{SetupCall}
use traccoon.Main.Options.{Settings, starts, number, and_then, is_four, parse_options}
use traccoon.Memory.{returns, ◌>>=◌}
use traccoon.Prelude.{
  ℕ, ◌≡◌, ◌≢◌, refl, ap, sym, ◌∙◌, inl, inr, Bool, false, Option-cases, none, some, List, [], ◌∷◌,
  Bytes, All, ◌==◌, if◌then◌else◌, ℤ, arith,
}

-- whether an argument has the letter `c`
abbrev pub has_letter : ℕ → Bytes → Bool
has_letter c arg = elim (letter_of arg) [ none ↦ false | some d ↦ d == c ]

-- the text behind the last argument with the letter `c`, or the one given
abbrev pub last_text {ℓ} : {A : Type ℓ} → ℕ → (Bytes → A) → List (Bytes × Bytes) → A → A
last_text c f [] default = default
last_text c f ((arg, text) ∷ ps) default =
    last_text c f ps (if has_letter c arg then f text else default)

-- The settings `t` behind arguments, from the settings `s`: for each the last one.
pub record Configured (ps : List (Bytes × Bytes)) (s t : Settings) : Type 0 where
  pub database_file : t.database_file ≡ last_text b'f' (λ text. text) ps s.database_file
  pub bindhost : t.bindhost ≡ last_text b'b' some ps s.bindhost
  pub force_ipv4 : t.force_ipv4 ≡ last_text b'i' (λ text. some (is_four text)) ps s.force_ipv4
  pub port : t.port ≡ last_text b'p' (λ text. text) ps s.port
  pub workers : returns t.workers ≡ last_text b'w' number ps (returns s.workers)
  pub queue_size : returns t.queue_size ≡ last_text b'q' number ps (returns s.queue_size)
  pub announce_interval :
      returns t.announce_interval ≡ last_text b'a' number ps (returns s.announce_interval)

module _ {ℓ} {A : Type ℓ} (c : ℕ) (f : Bytes → A) (ps : List (Bytes × Bytes)) (arg text : Bytes)
    (default : A) where
  last_text-plain :
      letter_of arg ≡ none → last_text c f ((arg, text) ∷ ps) default ≡ last_text c f ps default
  last_text-plain plain = rw (plain, has_letter) refl

  last_text-flag :
      (d : ℕ)
      → letter_of arg ≡ some d
      → last_text c f ((arg, text) ∷ ps) default
        ≡ last_text c f ps (if d == c then f text else default)
  last_text-flag d flag = rw (flag, has_letter) refl

creates_nothing :
    (c : ℕ) (arg : Bytes) → letter_of arg ≡ some c → has_letter b'c' arg ≡ false → c ≢ b'c'
creates_nothing c arg flag no_creation e = absurd (ground (arith, e, flag, no_creation))

-- Where no argument asks for a new database, the loop over the arguments two by two ends, and each
-- setting is what the last argument for it says, or what it was before.
pub parse_options-Configured :
    (setup : List SetupCall → SetupCall → ℤ) (ps : List (Bytes × Bytes)) (s : Settings)
    → All (λ (p : Bytes × Bytes). has_letter b'c' p.0 ≡ false) ps
    → (t : Settings) × (parse_options setup ps s ≡ returns (starts t)) × Configured ps s t
unfolding parse_options
parse_options-Configured setup [] s none_creates = (
  s,
  refl,
  record {
    database_file = refl;
    bindhost = refl;
    force_ipv4 = refl;
    port = refl;
    workers = refl;
    queue_size = refl;
    announce_interval = refl;
  },
)
parse_options-Configured setup ((arg, text) ∷ ps) s (no_creation, none_creates) =
    elim (Option-cases (letter_of arg)) [
      | inl plain ↦
          let (t, e, configured) = parse_options-Configured setup ps s none_creates in
          (
            t,
            rw (plain, parse_options) e,
            record {
              database_file =
                  configured.database_file
                  ∙ sym (last_text-plain b'f' (λ x. x) ps arg text s.database_file plain);
              bindhost =
                  configured.bindhost
                  ∙ sym (last_text-plain b'b' some ps arg text s.bindhost plain);
              force_ipv4 =
                  configured.force_ipv4
                  ∙ sym
                      (last_text-plain b'i' (λ x. some (is_four x)) ps arg text s.force_ipv4 plain);
              port = configured.port ∙ sym (last_text-plain b'p' (λ x. x) ps arg text s.port plain);
              workers =
                  configured.workers
                  ∙ sym (last_text-plain b'w' number ps arg text (returns s.workers) plain);
              queue_size =
                  configured.queue_size
                  ∙ sym (last_text-plain b'q' number ps arg text (returns s.queue_size) plain);
              announce_interval =
                  configured.announce_interval
                  ∙ sym
                      (last_text-plain b'a' number ps arg text (returns s.announce_interval) plain);
            },
          )
      | inr (c, flag) ↦
          let (u, e, sets) = option-Sets setup text s c (creates_nothing c arg flag no_creation) in
          let (t, e', configured) = parse_options-Configured setup ps u none_creates in
          (
            t,
            rw (flag, parse_options)
                (ap (λ r. r >>= λ o. and_then o (λ v. parse_options setup ps v)) e ∙ e'),
            record {
              database_file =
                  configured.database_file
                  ∙ ap (last_text b'f' (λ x. x) ps) sets.database_file
                  ∙ sym (last_text-flag b'f' (λ x. x) ps arg text s.database_file c flag);
              bindhost =
                  configured.bindhost
                  ∙ ap (last_text b'b' some ps) sets.bindhost
                  ∙ sym (last_text-flag b'b' some ps arg text s.bindhost c flag);
              force_ipv4 =
                  configured.force_ipv4
                  ∙ ap (last_text b'i' (λ x. some (is_four x)) ps) sets.force_ipv4
                  ∙ sym
                      (last_text-flag b'i' (λ x. some (is_four x)) ps arg text s.force_ipv4 c flag);
              port =
                  configured.port
                  ∙ ap (last_text b'p' (λ x. x) ps) sets.port
                  ∙ sym (last_text-flag b'p' (λ x. x) ps arg text s.port c flag);
              workers =
                  configured.workers
                  ∙ ap (last_text b'w' number ps) sets.workers
                  ∙ sym (last_text-flag b'w' number ps arg text (returns s.workers) c flag);
              queue_size =
                  configured.queue_size
                  ∙ ap (last_text b'q' number ps) sets.queue_size
                  ∙ sym (last_text-flag b'q' number ps arg text (returns s.queue_size) c flag);
              announce_interval =
                  configured.announce_interval
                  ∙ ap (last_text b'a' number ps) sets.announce_interval
                  ∙ sym
                      (last_text-flag b'a' number ps arg text (returns s.announce_interval) c flag);
            },
          )
    ]

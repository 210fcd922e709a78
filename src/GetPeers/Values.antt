-- ===== src/GetPeers/Values.antt =====
-- The values that getpeers writes into a request, as neth.c and comm.c read them.
use traccoon.CLib.Decimal.{strtoul-value, Digits, IsDigit, value}
use traccoon.CLib.Number.{ulong_max}
use traccoon.CLib.{is_digit, strstr, starts_with}
use traccoon.Comm.Flags.{parse_flag-found}
use traccoon.Comm.Params.{event_name, parse_event-event_name}
use traccoon.Comm.Request.{parse_flag}
use traccoon.Comm.{parse_event, clamp_numwant, parse_numwant}
use traccoon.Db.{BtEvent, started, stopped, completed, no_event}
use traccoon.Encoding.Url.Plain.{IsValueByte}
use traccoon.Encoding.Url.RoundTrip.{All-append}
use traccoon.GetPeers.Delivered.{AllValues}
use traccoon.GetPeers.Query.{EventRead, AllValue, or_text, flag}
use traccoon.Memory.{returns}
use traccoon.Neth.Query.{query}
use traccoon.Neth.{text_after, ends_param}
use traccoon.Prelude.{
  ℕ, ◌≤◌, ◌≡◌, ◌≢◌, refl, sym, subst, ◌∙◌, Bool, true, false, Option, none, some, List, [], ◌∷◌,
  ◌++◌, Bytes, codes, All, pos, to_int, arith,
}

-- a byte that does not end a request
abbrev IsInside : ℕ → Type 0
IsInside x = (x ≢ 0) × (x ≢ b' ')

value-IsInside : (v : Bytes) → All IsValueByte v → All IsInside v
value-IsInside [] pv = tt
value-IsInside (x ∷ v) ((nz, e, a, s), pv) = ((nz, s), value-IsInside v pv)

pub query-IsInside :
    (sep : ℕ) (ps : List (Bytes × Bytes))
    → IsInside sep
    → All (λ p. All IsInside p.0) ps
    → AllValues ps
    → All IsInside (query sep ps)
unfolding query
query-IsInside sep [] here names values = tt
query-IsInside sep ((key, v) ∷ ps) here (name, names) (pv, values) = (
  here,
  All-append IsInside key _ name (
    (omega arith, omega arith),
    All-append IsInside v _ (value-IsInside v pv)
        (query-IsInside b'&' ps (omega arith, omega arith) names values),
  ),
)

-- A number as an option gives it.
abbrev pub IsNumber : Bytes → Type 0
IsNumber s = Digits s × (value 0 s ≤ ulong_max)

abbrev pub IsNumberOption : Option Bytes → Type 0
IsNumberOption none = Unit
IsNumberOption (some s) = IsNumber s

digits-IsValueByte : (s : Bytes) → All IsDigit s → All IsValueByte s
digits-IsValueByte [] ds = tt
digits-IsValueByte (c ∷ s) ((low, high), ds) =
    ((omega arith, omega arith, omega arith, omega arith), digits-IsValueByte s ds)

pub number-IsValueByte : (s : Bytes) → IsNumber s → All IsValueByte s
number-IsValueByte s ((c, t, e, d, ds), fits) =
    subst (All IsValueByte) (sym e) (digits-IsValueByte (c ∷ t) (d, ds))

pub ends_param-is_digit : (c : ℕ) → ends_param c ≡ true → is_digit c ≡ false
unfolding is_digit
ends_param-is_digit c h = ground (arith, h)

abbrev pub or_event : Option BtEvent → BtEvent
or_event none = no_event
or_event (some e) = e

abbrev pub event_text : Option BtEvent → Option Bytes
event_text none = none
event_text (some e) = some (event_name e)

-- What `parse_event` makes of the event that is found.
pub event_read :
    (text : Bytes) (e : Option BtEvent)
    → EventRead text (event_text e)
    → (o : Option Bytes) × (text_after text (codes "event=") ≡ returns o)
      × (parse_event o ≡ returns (or_event e))
event_read text none r = (none, r, unfold parse_event in refl)
event_read text (some e) (c, behind, found, measured, ends) =
    (some (event_name e ++ c ∷ behind), found, parse_event-event_name e (c ∷ behind))

event_name-IsValueByte : (e : BtEvent) → All IsValueByte (event_name e)
unfolding event_name
event_name-IsValueByte started = omega arith
event_name-IsValueByte stopped = omega arith
event_name-IsValueByte completed = omega arith
event_name-IsValueByte no_event = omega arith

pub event-AllValue : (e : Option BtEvent) → AllValue (event_text e)
event-AllValue none = tt
event-AllValue (some e) = event_name-IsValueByte e

pub numwant_read :
    (s rest : Bytes) (c : ℕ)
    → IsNumber s
    → ends_param c ≡ true
    → parse_numwant (some (s ++ c ∷ rest)) ≡ returns (clamp_numwant (to_int (pos (value 0 s))))
unfolding parse_numwant
numwant_read s rest c (digits, fits) ends =
    rw (strtoul-value s rest c digits (ends_param-is_digit c ends) fits) refl

flag_behind :
    (behind : Bytes) (compact : Bool)
    → parse_flag (codes "compact=" ++ (flag compact ++ 0 ∷ behind)) (codes "compact=1")
      ≡ returns compact
unfolding parse_flag strstr starts_with
flag_behind behind true = refl
flag_behind behind false = refl

pub flag_read :
    (text behind : Bytes) (compact : Bool)
    → text_after text (codes "compact=") ≡ returns (some (flag compact ++ 0 ∷ behind))
    → parse_flag text (codes "compact=1") ≡ returns compact
flag_read text behind compact found =
    parse_flag-found text (codes "compact=") (codes "1") _ found ∙ flag_behind behind compact

pub IsNumber-or_text :
    (default : Bytes) (o : Option Bytes)
    → IsNumber default
    → IsNumberOption o
    → IsNumber (or_text default o)
IsNumber-or_text default none d n = d
IsNumber-or_text default (some s) d n = n

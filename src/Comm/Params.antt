-- ===== src/Comm/Params.antt =====
-- What is read for the parameters of an announce.
use traccoon.CLib.Decimal.{Digits, value, strtoul-value}
use traccoon.CLib.Number.{ulong_max}
use traccoon.CLib.{is_digit, strncmp_equal}
use traccoon.Comm.{is_event, parse_event, clamp_numwant, parse_numwant}
use traccoon.Db.{BtEvent, started, stopped, completed, no_event}
use traccoon.Memory.{returns, read}
use traccoon.Prelude.{
  ℕ, ◌≤◌, ◌≡◌, refl, ap, inl, inr, Bool-cases, false, not, ◌||◌, some, ◌∷◌, ◌++◌, Bytes, codes, ℤ,
  pos, negsuc, ltb_ℤ, to_int, arith,
}

-- the names of the protocol
unfoldable pub event_name : BtEvent → Bytes
event_name started = codes "started"
event_name stopped = codes "stopped"
event_name completed = codes "completed"
event_name no_event = codes "empty"

-- The parameter `event` is read as the event whose name it starts with.
pub parse_event-event_name :
    (e : BtEvent) (rest : Bytes) → parse_event (some (event_name e ++ rest)) ≡ returns e
unfolding parse_event is_event event_name strncmp_equal read
parse_event-event_name started rest = refl
parse_event-event_name stopped rest = refl
parse_event-event_name completed rest = refl
parse_event-event_name no_event rest = refl

pub clamp_lem : (z : ℤ) → (n : ℕ) × (clamp_numwant z ≡ pos n) × (1 ≤ n) × (n ≤ 50)
clamp_lem (pos k) = elim (Bool-cases (ltb_ℤ (pos 50) (pos k) || not (ltb_ℤ (pos 0) (pos k)))) [
  | inl far ↦ (50, rw far refl, omega arith, omega arith)
  | inr near ↦ (k, rw near refl, ground arith, ground arith)
]
clamp_lem (negsuc k) = (50, ground arith, omega arith, omega arith)

-- For the digits of any number that fits an unsigned long, followed by something else, the number
-- of peers that is read for `numwant` is from 1 to 50.
pub parse_numwant-value :
    (s rest : Bytes) (c : ℕ)
    → Digits s
    → is_digit c ≡ false
    → value 0 s ≤ ulong_max
    → (n : ℕ) × (parse_numwant (some (s ++ c ∷ rest)) ≡ returns (pos n)) × (1 ≤ n) × (n ≤ 50)
unfolding parse_numwant
parse_numwant-value s rest c d h fits =
    let (n, e, low, high) = clamp_lem (to_int (pos (value 0 s))) in
    (n, rw (strtoul-value s rest c d h fits) (ap returns e), low, high)

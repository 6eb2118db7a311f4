-- ===== src/Saga/Journal.antt =====
-- The journal that app/services/booking_saga.py writes, against the rows of the bookings: what the journal of a booking
-- says of its state, and whether its entries are moves of the state machine.
pub mod Entries
pub mod Beginning
pub mod Tickets
pub mod Compensation
pub mod Payment
pub mod Run
mod Tests
use concurrent_flight_bookin.Prelude.{
  ℕ, ◌≡◌, ◌⊎◌, Bool, true, false, ◌&&◌, Option, none, some, List, [], ◌∷◌, ◌==◌, if◌then◌else◌,
  is_null,
}
use concurrent_flight_bookin.Domain.Enums.{BookingState, booking_is, allowed_transitions}
use concurrent_flight_bookin.Domain.Models.{Db, BookingAudit}
use concurrent_flight_bookin.Domain.States.{one_of}
use concurrent_flight_bookin.Saga.Steps.{InState}

abbrev pub or_else : Option BookingState → Option BookingState → Option BookingState
or_else none t = t
or_else (some s) t = some s

-- The state that the newest entry of the booking with a new state names.
abbrev pub replay : ℕ → List BookingAudit → Option BookingState
replay b [] = none
replay b (r ∷ rows) =
    let rest = replay b rows in if r.booking_id == b then or_else r.to_state rest else rest

abbrev is_last : BookingState → Option BookingState → Bool
is_last s none = false
is_last s (some t) = booking_is t s

-- An entry, as `from_state` and `to_state`, after a journal that replays to a state: a move of the state machine that
-- starts from that state, the first one to PENDING, or no move.
abbrev pub is_lawful : Option BookingState → Option BookingState → Option BookingState → Bool
is_lawful none none so_far = true
is_lawful none (some t) so_far = is_null so_far && booking_is t BookingState.pending
is_lawful (some f) none so_far = false
is_lawful (some f) (some t) so_far = is_last f so_far && one_of t (allowed_transitions f)

-- Each entry of the booking is lawful after those before it.
abbrev pub is_walk : ℕ → List BookingAudit → Bool
is_walk b [] = true
is_walk b (r ∷ rows) =
    let rest = is_walk b rows in
    if r.booking_id == b then is_lawful r.from_state r.to_state (replay b rows) && rest else rest

-- The journal is a walk of the state machine from PENDING to this state.
abbrev pub WalksTo : ℕ → BookingState → Db → Type 0
WalksTo b s db = (replay b db.audit ≡ some s) × (is_walk b db.audit ≡ true)

-- The walk ends at the state of the booking's row.
abbrev pub Told : ℕ → BookingState → Db → Type 0
Told b s db = WalksTo b s db × InState b (s ∷ []) db

-- So it does, or the row is VOIDED and the walk ends at COMPENSATING.
abbrev pub Truthful : ℕ → Db → Type 0
Truthful b db =
    ((s : BookingState) × Told b s db)
    ⊎ (WalksTo b BookingState.compensating db × InState b (BookingState.voided ∷ []) db)

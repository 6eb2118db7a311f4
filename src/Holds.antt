-- ===== src/Holds.antt =====
-- app/services/holds.py and app/jobs/sweep.py: the contended writes on `seat_inventory`. Each UPDATE is one step on the
-- table; `now` is its `func.now()`, and `hold_id` what `uuid.uuid4()` returned.
pub mod Outcomes
pub mod Schema
pub mod Race
pub mod Sweep
pub mod Release
mod Tests
use concurrent_flight_bookin.Prelude.{
  ℕ, ◌+◌, ◌-◌, ◌≡◌, Bool, true, false, not, ◌&&◌, ◌||◌, Option, none, some, List, [], ◌∷◌, map,
  Text, ltb, leb, ◌==◌, same, if◌then◌else◌, is_eq, is_lt, is_gt, is_null, select, first,
  count_where, update_where,
}
use concurrent_flight_bookin.Errors.{AppError, Exc}
use concurrent_flight_bookin.Config.{Settings, seconds}
use concurrent_flight_bookin.Domain.Enums.{SeatStatus, seat_is}
use concurrent_flight_bookin.Domain.Models.{SeatInventory, Ticket, Flight, Db}

pub data Result {ℓ} (A : Type ℓ) : Type ℓ where
  ok : A → Result A
  err : Exc → Result A

-- The WHERE clause that says "this seat can be taken right now".
abbrev pub takeable : ℕ → SeatInventory → Bool
takeable now seat =
    seat_is seat.status SeatStatus.available
    || (seat_is seat.status SeatStatus.held && is_lt seat.hold_expires_at now)

abbrev pub hold_is_live : ℕ → SeatInventory → Bool
hold_is_live now seat = seat_is seat.status SeatStatus.held && is_gt seat.hold_expires_at now

-- The WHERE clause of `count_active_holds`.
abbrev pub active_hold : ℕ → ℕ → SeatInventory → Bool
active_hold now user_id seat = is_eq seat.held_by_user_id user_id && hold_is_live now seat

unfoldable pub count_active_holds : ℕ → ℕ → List SeatInventory → ℕ
count_active_holds now user_id seats = count_where (active_hold now user_id) seats

-- `str.upper` on the letters that SeatNumber allows.
unfoldable pub upper : Text → Text
upper = map (λ c. if leb b'a' c && leb c b'z' then c - 32 else c)

abbrev pub is_seat : ℕ → Text → SeatInventory → Bool
is_seat flight_id seat_no seat = seat.flight_id == flight_id && same seat.seat_no seat_no

-- The SET clause of the hold.
abbrev pub held_for : ℕ → ℕ → ℕ → SeatInventory → SeatInventory
held_for user_id hold_id expires seat = record seat {
  status = SeatStatus.held;
  held_by_user_id = some user_id;
  hold_id = some hold_id;
  hold_expires_at = some expires;
  booking_id = none;
  version = seat.version + 1;
}

-- `ttl_seconds or settings.hold_ttl_seconds`
abbrev pub ttl_or : Option ℕ → ℕ → ℕ
ttl_or none d = d
ttl_or (some t) d = if t == 0 then d else t

-- The UPDATE ... RETURNING of `acquire_hold`, and the answer when no row matched. The seat is unique by flight and number.
unfoldable pub take_seat :
    ℕ → ℕ → ℕ → ℕ → ℕ → Text → List SeatInventory → Result SeatInventory × List SeatInventory
unfolding upper
take_seat now expires hold_id user_id flight_id seat_no seats =
    elim (first (λ s. is_seat flight_id seat_no s && takeable now s) seats) [
      | some seat ↦ (
        ok (held_for user_id hold_id expires seat),
        update_where (λ s. is_seat flight_id seat_no s && takeable now s)
            (held_for user_id hold_id expires) seats,
      )
      | none ↦ (
        if count_where (is_seat flight_id seat_no) seats == 0
            then err (Exc.app AppError.not_found)
            else err (Exc.app AppError.seat_unavailable),
        seats,
      )
    ]

unfoldable pub acquire_hold :
    Settings
    → ℕ
    → ℕ
    → ℕ
    → ℕ
    → Text
    → Option ℕ
    → List SeatInventory
    → Result SeatInventory × List SeatInventory
unfolding count_active_holds take_seat
acquire_hold settings now hold_id user_id flight_id seat_no ttl_seconds seats =
    if leb settings.max_active_holds_per_user (count_active_holds now user_id seats)
    then (err (Exc.app AppError.too_many_holds), seats)
    else take_seat now (now + seconds (ttl_or ttl_seconds settings.hold_ttl_seconds)) hold_id
        user_id flight_id (upper seat_no) seats

-- The SET clause that `release_hold` and the sweep share.
abbrev pub freed : SeatInventory → SeatInventory
freed seat = record seat {
  status = SeatStatus.available;
  held_by_user_id = none;
  hold_id = none;
  hold_expires_at = none;
  version = seat.version + 1;
}

-- The conditions of `release_hold`; the user is checked when one is given.
abbrev pub releasable : ℕ → Option ℕ → SeatInventory → Bool
releasable hold_id user_id seat =
    is_eq seat.hold_id hold_id
    && seat_is seat.status SeatStatus.held
    && (elim user_id [ none ↦ true | some u ↦ is_eq seat.held_by_user_id u ])

-- `rows_affected(result) > 0`, and the table.
unfoldable pub release_hold : ℕ → Option ℕ → List SeatInventory → Bool × List SeatInventory
release_hold hold_id user_id seats = (
  ltb 0 (count_where (releasable hold_id user_id) seats),
  update_where (releasable hold_id user_id) freed seats,
)

-- The WHERE clause of the sweep.
abbrev pub sweepable : ℕ → SeatInventory → Bool
sweepable now seat =
    seat_is seat.status SeatStatus.held && is_lt seat.hold_expires_at now && is_null seat.booking_id

unfoldable pub sweep_expired_holds : ℕ → List SeatInventory → ℕ × List SeatInventory
sweep_expired_holds now seats =
    (count_where (sweepable now) seats, update_where (sweepable now) freed seats)

-- The two UPDATEs of `release_seats_for_booking`.
abbrev pub live_ticket_of : ℕ → Ticket → Bool
live_ticket_of booking_id t = t.booking_id == booking_id && is_null t.voided_at

abbrev pub void_ticket : ℕ → Ticket → Ticket
void_ticket now t = record t { voided_at = some now }

abbrev pub belongs_to : ℕ → SeatInventory → Bool
belongs_to booking_id seat = is_eq seat.booking_id booking_id

abbrev pub returned : SeatInventory → SeatInventory
returned seat = record seat {
  status = SeatStatus.available;
  held_by_user_id = none;
  hold_id = none;
  hold_expires_at = none;
  booking_id = none;
  version = seat.version + 1;
}

unfoldable pub release_seats_for_booking : ℕ → ℕ → Db → ℕ × Db
release_seats_for_booking now booking_id db = (
  count_where (belongs_to booking_id) db.seats,
  record db {
    tickets = update_where (live_ticket_of booking_id) (void_ticket now) db.tickets;
    seats = update_where (belongs_to booking_id) returned db.seats;
  },
)

unfoldable pub get_flight_or_404 : ℕ → List Flight → Result Flight
get_flight_or_404 flight_id flights = elim (first (λ f. f.id == flight_id) flights) [
  | none ↦ err (Exc.app AppError.not_found)
  | some f ↦ ok f
]

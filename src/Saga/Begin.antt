-- ===== src/Saga/Begin.antt =====
-- Step 1 of `run` of app/services/booking_saga.py: lock the held seats, check them, and create the booking.
use concurrent_flight_bookin.Prelude.{
  ℕ, zero, suc, ◌+◌, Bool, false, not, ◌&&◌, ◌||◌, Option, none, some, List, [], ◌∷◌, map, Text,
  ◌==◌, same, leb, if◌then◌else◌, is_eq, select, count_where, update_where, length, ◌++◌, is_null,
}
use concurrent_flight_bookin.Errors.{Exc, AppError}
use concurrent_flight_bookin.Domain.Enums.{SeatStatus, seat_is, BookingState, AuditEventType}
use concurrent_flight_bookin.Domain.Models.{Db, Booking, BookingPassenger, SeatInventory}
use concurrent_flight_bookin.Holds
use concurrent_flight_bookin.Holds.{get_flight_or_404}
use concurrent_flight_bookin.Payments.Triggers.{last_four}
use concurrent_flight_bookin.Saga.Session.{
  Action, pure, raise, ◌>>=◌, ◌>>◌, commit, read, modify, reject_if, journal,
}
use concurrent_flight_bookin.Saga.Ticketing.{elem, order_by_id, lapsed, TicketDraw}

pub record PassengerIn : Type 0 where
  pub given_name : Text
  pub family_name : Text
  pub passport_number : Option Text

-- BookingCreate
pub record BookingCreate : Type 0 where
  pub hold_ids : List ℕ
  pub passengers : List PassengerIn
  pub card_token : Text

-- What one run draws from `uuid4`, `generate_pnr` and `generate_eticket_number`, and the times that it reads.
pub record Draws : Type 0 where
  pub booking_id : ℕ
  pub payment_id : ℕ
  pub pnr : ℕ → Text
  pub passenger_id : ℕ → ℕ
  pub ticket : ℕ → TicketDraw
  pub provider_ref : Text
  pub retry_ref : Text
  pub checked_at : ℕ
  pub ticketed_at : ℕ

-- `_lock_seats_for_holds`
abbrev pub held_under : List ℕ → ℕ → SeatInventory → Bool
held_under hold_ids user_id s =
    (elim s.hold_id [ none ↦ false | some h ↦ elem h hold_ids ]) && is_eq s.held_by_user_id user_id

unfoldable pub lock_seats_for_holds : List ℕ → ℕ → List SeatInventory → List SeatInventory
unfolding order_by_id
lock_seats_for_holds hold_ids user_id seats =
    order_by_id (select (held_under hold_ids user_id) seats)

-- `_seconds_left(s) <= 0 or s.status != SeatStatus.HELD`
abbrev pub is_expired : ℕ → SeatInventory → Bool
is_expired now s = lapsed now s || not (seat_is s.status SeatStatus.held)

-- The one flight of all the seats, if `len(flight_ids) == 1`.
unfoldable pub single_flight : List SeatInventory → Option ℕ
single_flight [] = none
single_flight (s ∷ ss) =
    if count_where (λ t. not (t.flight_id == s.flight_id)) ss == 0 then some s.flight_id else none

unfoldable pub sum_prices : List SeatInventory → ℕ
sum_prices [] = 0
sum_prices (s ∷ ss) = s.price + sum_prices ss

-- `sorted(seats, key=lambda s: (s.row_no, s.seat_letter))`, a stable sort.
abbrev pub before : SeatInventory → SeatInventory → Bool
before s t =
    not (leb t.row_no s.row_no) || (s.row_no == t.row_no && leb s.seat_letter t.seat_letter)

unfoldable pub insert_by_row : SeatInventory → List SeatInventory → List SeatInventory
insert_by_row s [] = s ∷ []
insert_by_row s (t ∷ ts) =
    let rest = insert_by_row s ts in if before s t then s ∷ t ∷ ts else t ∷ rest

unfoldable pub order_by_row : List SeatInventory → List SeatInventory
unfolding insert_by_row
order_by_row [] = []
order_by_row (s ∷ ss) = insert_by_row s (order_by_row ss)

-- `_unique_pnr`: the attempts left, and the number of the next candidate.
unfoldable pub unique_pnr : ℕ → ℕ → (ℕ → Text) → List Booking → Option Text
unique_pnr zero i pnr bookings = none
unique_pnr (suc attempts) i pnr bookings =
    let rest = unique_pnr attempts (i + 1) pnr bookings in
    if count_where (λ b. same b.ref (pnr i)) bookings == 0 then some (pnr i) else rest

abbrev pub max_pnr_attempts : ℕ
max_pnr_attempts = 6

-- The rows of the passengers, one for each seat, as `zip(..., strict=True)` pairs them.
unfoldable pub passenger_rows :
    ℕ → (ℕ → ℕ) → ℕ → List PassengerIn → List SeatInventory → Option (List BookingPassenger)
unfolding last_four
passenger_rows booking_id draw i [] [] = some []
passenger_rows booking_id draw i (p ∷ ps) (s ∷ ss) =
    elim (passenger_rows booking_id draw (i + 1) ps ss) [
      | none ↦ none
      | some rows ↦ some (
          record {
            id = draw i;
            booking_id = booking_id;
            given_name = p.given_name;
            family_name = p.family_name;
            passport_last4 = elim p.passport_number [ none ↦ none | some n ↦ some (last_four n) ];
            seat_inventory_id = some s.id;
          }
          ∷ rows)
    ]
passenger_rows booking_id draw i [] (s ∷ ss) = none
passenger_rows booking_id draw i (p ∷ ps) [] = none

abbrev pub pinned : ℕ → SeatInventory → SeatInventory
pinned booking_id s = record s { booking_id = some booking_id; version = s.version + 1 }

abbrev pub or_raise : {G A : Type 0} → Option A → Exc → Action G A
or_raise none e = raise e
or_raise (some a) e = pure a

abbrev pub lift : {G A : Type 0} → Holds.Result A → Action G A
lift (Holds.ok a) = pure a
lift (Holds.err e) = raise e

-- What step 1 hands on, the objects of the seats among it.
pub record Begun : Type 0 where
  pub booking : Booking
  pub rows : List BookingPassenger
  pub seats : List SeatInventory

abbrev pub insert_booking : Booking → List BookingPassenger → List ℕ → Db → Db
insert_booking booking rows seat_ids db = record db {
  bookings = booking ∷ db.bookings;
  passengers = rows ++ db.passengers;
  seats = update_where (λ s. elem s.id seat_ids) (pinned booking.id) db.seats;
}

module _ {G : Type 0} where
  unfoldable pub begin_booking : Draws → ℕ → BookingCreate → Text → Action G Begun
  begin_booking draws user_id payload idempotency_key = do
    seats ← read (λ db. lock_seats_for_holds payload.hold_ids user_id db.seats)
    reject_if (not (length seats == length payload.hold_ids)) (Exc.app AppError.not_found)
    reject_if (not (count_where (is_expired draws.checked_at) seats == 0))
        (Exc.app AppError.hold_expired)
    reject_if (is_null (single_flight seats)) (Exc.app AppError.seat_unavailable)
    flight_id ← or_raise (single_flight seats) (Exc.app AppError.seat_unavailable)
    found ← read (λ db. get_flight_or_404 flight_id db.flights)
    flight ← lift found
    candidate ← read (λ db. unique_pnr max_pnr_attempts 0 draws.pnr db.bookings)
    ref ← or_raise candidate Exc.no_unique_pnr
    let booking : Booking = record {
      id = draws.booking_id;
      ref = ref;
      user_id = user_id;
      flight_id = flight_id;
      state = BookingState.pending;
      total_amount = sum_prices seats;
      currency = flight.currency;
      idempotency_key = idempotency_key;
    }
    rows ←
        or_raise
          (passenger_rows draws.booking_id draws.passenger_id 0 payload.passengers
            (order_by_row seats))
          Exc.zip_length
    let begun : Begun = record {
      booking = booking;
      rows = rows;
      seats = map (pinned booking.id) (order_by_row seats);
    }
    modify (insert_booking booking rows (map (λ s. s.id) (order_by_row seats)))
    modify (journal booking.id AuditEventType.booking_created none (some BookingState.pending))
    modify (journal booking.id AuditEventType.seats_locked none none)
    commit
    pure begun

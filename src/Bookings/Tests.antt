-- ===== src/Bookings/Tests.antt =====
-- Concrete requests to the booking routes.
use concurrent_flight_bookin.Prelude.{
  ◌+◌, ℕ, ◌≡◌, ◌≢◌, refl, ◌⊎◌, none, some, List, [], ◌∷◌, arith, map, select,
}
use concurrent_flight_bookin.Errors.{Exc, AppError}
use concurrent_flight_bookin.Config.{default_settings}
use concurrent_flight_bookin.Domain.Enums.{BookingState, Decision}
use concurrent_flight_bookin.Domain.Models.{Db, Booking, BookingPassenger}
use concurrent_flight_bookin.Idempotency.{begin}
use concurrent_flight_bookin.Payments.Fake.{FakeGateway, fake_gateway}
use concurrent_flight_bookin.Saga.Begin.{Draws}
use concurrent_flight_bookin.Saga.Session.{World, ok, raised}
use concurrent_flight_bookin.Bookings.{
  Server, CreateRequest, PassengerUpdate, create_booking, update_booking,
}
use concurrent_flight_bookin.Bookings.Replay.{Repeated, create_booking_again}
use concurrent_flight_bookin.Bookings.Amend.{update_booking-Kept, of_other, fixed}
use concurrent_flight_bookin.Bookings.Pages.{own, read_on, read_on-own}

abbrev booking : ℕ → ℕ → Booking
booking id user_id = record {
  id = id;
  ref = b'K' ∷ id ∷ [];
  user_id = user_id;
  flight_id = 7;
  state = BookingState.confirmed;
  total_amount = 12500;
  currency = [];
  idempotency_key = [];
}

abbrev passenger : ℕ → ℕ → BookingPassenger
passenger id booking_id = record {
  id = id;
  booking_id = booking_id;
  given_name = b'A' ∷ [];
  family_name = b'B' ∷ [];
  passport_last4 = none;
  seat_inventory_id = some id;
}

abbrev bookings : List Booking
bookings = booking 80 4 ∷ booking 81 5 ∷ booking 82 4 ∷ booking 83 4 ∷ []

abbrev db : Db
db = record {
  flights = [];
  seats = [];
  bookings = bookings;
  passengers = passenger 1 80 ∷ passenger 2 81 ∷ [];
  payments = [];
  tickets = [];
  audit = [];
}

abbrev world : World FakeGateway
world = record {
  db = db;
  saved = db;
  gateway = record {
    authorizations = [];
    timed_out_once = [];
    captured = [];
    voided = [];
    refunded = [];
    refund_failures = [];
  };
}

abbrev updates : List PassengerUpdate
updates =
    record { passenger_id = 1; given_name = some (b'C' ∷ []); family_name = none }
    ∷ record { passenger_id = 2; given_name = some (b'D' ∷ []); family_name = none }
    ∷ []

update_booking-Kept_example :
    let (r, w') = update_booking (booking 80 4) updates world in
    ((r ≡ raised (Exc.app AppError.invalid_state_transition))
      × (w' ≡ world)
      × (BookingState.confirmed ≢ BookingState.confirmed)
      × (BookingState.confirmed ≢ BookingState.ticketed))
    ⊎ ((r ≡ ok tt)
        × (w'.saved ≡ w'.db)
        × (select (of_other 80) w'.db.passengers ≡ select (of_other 80) db.passengers)
        × (map fixed w'.db.passengers ≡ map fixed db.passengers)
        × (w'.db ≡ record db { passengers = w'.db.passengers; audit = w'.db.audit })
        × (w'.gateway ≡ world.gateway))
update_booking-Kept_example = update_booking-Kept (booking 80 4) updates world

read_on-own_example : read_on 4 2 bookings 1000 1 ≡ some (own 4 bookings)
read_on-own_example = read_on-own 4 2 bookings (omega arith) (omega arith) (omega arith)

abbrev draws : Draws
draws = record {
  booking_id = 90;
  payment_id = 91;
  pnr = λ i. i ∷ [];
  passenger_id = λ i. 100 + i;
  ticket = λ p. record { ticket_id = 200 + p; e_ticket_no = p ∷ [] };
  provider_ref = b's' ∷ [];
  retry_ref = b't' ∷ [];
  checked_at = 300;
  ticketed_at = 310;
}

-- The hold of the request does not exist, so that the first is answered by a 404.
abbrev request : ℕ → CreateRequest
request now = record {
  now = now;
  user_id = 4;
  key = b'k' ∷ [];
  digest = b'd' ∷ [];
  payload = record { hold_ids = 40 ∷ []; passengers = []; card_token = [] };
  fingerprint = [];
  draws = draws;
  decision = Decision.allow;
  others = λ d. d;
}

abbrev server : Server FakeGateway
server = record { world = world; keys = [] }

create_booking_again_example :
    let (r, s') =
      create_booking default_settings fake_gateway
        (λ b. [])
        (λ e. [])
        (λ k. k)
        (request 1000)
        server in
    Repeated default_settings fake_gateway (λ b. []) (λ e. []) (request 2000) s' r
unfolding begin
create_booking_again_example =
    create_booking_again default_settings fake_gateway (λ b. []) (λ e. []) (λ k. k) (request 1000)
      (request 2000) server refl (omega arith) refl refl refl

-- ===== src/Saga/Sample.antt =====
-- A concrete world for the saga: one flight, two held seats, one booking that is paid but not confirmed.
use concurrent_flight_bookin.Prelude.{ℕ, ◌+◌, none, some, Text, List, [], ◌∷◌}
use concurrent_flight_bookin.Domain.Enums.{BookingState, PaymentState, SeatStatus}
use concurrent_flight_bookin.Domain.Models.{Db, Booking, Payment, SeatInventory}
use concurrent_flight_bookin.Payments.Fake.{FakeGateway}
use concurrent_flight_bookin.Saga.Session.{World}
use concurrent_flight_bookin.Saga.Begin.{Draws, BookingCreate}

abbrev pub seat : ℕ → ℕ → ℕ → SeatInventory
seat id letter hold = record {
  id = id;
  flight_id = 7;
  seat_no = b'1' ∷ letter ∷ [];
  row_no = 1;
  seat_letter = letter;
  price = 12500;
  status = SeatStatus.held;
  held_by_user_id = some 4;
  hold_id = some hold;
  hold_expires_at = some 500;
  booking_id = none;
  version = 1;
}

abbrev pub booking : Booking
booking = record {
  id = 80;
  ref = b'P' ∷ [];
  user_id = 4;
  flight_id = 7;
  state = BookingState.ticketed;
  total_amount = 12500;
  currency = [];
  idempotency_key = b'k' ∷ [];
}

abbrev pub payment : Payment
payment = record {
  id = 81;
  booking_id = 80;
  provider_ref = some (b'r' ∷ []);
  card_token = b'0' ∷ b'0' ∷ b'0' ∷ b'0' ∷ [];
  card_fingerprint = [];
  amount = 12500;
  currency = [];
  state = PaymentState.captured;
  failure_code = none;
  idempotency_key = b'k' ∷ [];
}

abbrev pub db : Db
db = record {
  flights =
      record {
        id = 7;
        flight_no = [];
        airline_iata = [];
        src_iata = [];
        dst_iata = [];
        depart_at = 0;
        arrive_at = 1;
        aircraft_type = [];
        base_fare = 0;
        currency = b'C' ∷ b'A' ∷ b'D' ∷ [];
      }
      ∷ [];
  seats = seat 2 b'B' 41 ∷ seat 1 b'A' 40 ∷ [];
  bookings = booking ∷ [];
  passengers = [];
  payments = payment ∷ [];
  tickets = [];
  audit = [];
}

abbrev pub gateway_with : List Text → FakeGateway
gateway_with refusals = record {
  authorizations = [];
  timed_out_once = [];
  captured = [];
  voided = [];
  refunded = [];
  refund_failures = refusals;
}

abbrev pub world : World FakeGateway
world = record { db = db; saved = db; gateway = gateway_with [] }

abbrev pub refusing : World FakeGateway
refusing = record { db = db; saved = db; gateway = gateway_with ((b'r' ∷ []) ∷ []) }

abbrev pub draws : Draws
draws = record {
  booking_id = 90;
  payment_id = 91;
  pnr = λ i. (b'A' + i) ∷ [];
  passenger_id = λ i. 100 + i;
  ticket = λ p. record { ticket_id = 200 + p; e_ticket_no = p ∷ [] };
  provider_ref = b's' ∷ [];
  retry_ref = b't' ∷ [];
  checked_at = 300;
  ticketed_at = 310;
}

abbrev pub request : ℕ → BookingCreate
request hold = record {
  hold_ids = 40 ∷ hold ∷ [];
  passengers =
      record { given_name = []; family_name = []; passport_number = none }
      ∷ record { given_name = []; family_name = []; passport_number = none }
      ∷ [];
  card_token = b'0' ∷ b'0' ∷ b'0' ∷ b'0' ∷ [];
}

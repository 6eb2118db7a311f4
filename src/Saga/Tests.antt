-- ===== src/Saga/Tests.antt =====
-- The theorems of the saga at concrete inputs.
use concurrent_flight_bookin.Prelude.{
  true, ◌+◌, ◌≡◌, ◌≢◌, refl, none, some, [], ◌∷◌, same, count_where, map,
}
use concurrent_flight_bookin.Errors.{Exc, AppError}
use concurrent_flight_bookin.Domain.Enums.{BookingState, AuditEventType, Decision}
use concurrent_flight_bookin.Domain.Models.{Db, Booking, BookingPassenger, Ticket, SeatInventory}
use concurrent_flight_bookin.Domain.States.{require_state, assert_can_transition}
use concurrent_flight_bookin.Holds.{belongs_to, get_flight_or_404}
use concurrent_flight_bookin.Payments.Triggers.{trigger_for, last_four}
use concurrent_flight_bookin.Payments.Fake.{FakeGateway, fake_gateway, fake_refund}
use concurrent_flight_bookin.Saga.Session.{World, save_booking, ok, raised}
use concurrent_flight_bookin.Saga.Begin.{
  Begun, begin_booking, lock_seats_for_holds, single_flight, sum_prices, order_by_row,
  insert_by_row, unique_pnr, passenger_rows,
}
use concurrent_flight_bookin.Saga.Ticketing.{
  issue_tickets, issue_each, issue_one, order_by_id, insert_by_id, journal_reclaimed,
}
use concurrent_flight_bookin.Saga.Unwind.{cancel, compensate, fail_payment}
use concurrent_flight_bookin.Saga.{run, charge, fulfil}
use concurrent_flight_bookin.Saga.Ending.{Settled}
use concurrent_flight_bookin.Saga.Settling.{HasRow, run-Settled}
use concurrent_flight_bookin.Saga.Clash.{fulfil_clash}
use concurrent_flight_bookin.Saga.Charge.{Answered, charge-Answered}
use concurrent_flight_bookin.Saga.Recheck.{begin_booking-issue_tickets}
use concurrent_flight_bookin.Saga.Reversal.{
  Unwound, compensate-Unwound, fail_payment_keeps_holds, IsRow, rows_of, hold_of,
}
use concurrent_flight_bookin.Saga.Cancelling.{asked_refund, cancel_ticketed, cancel_refused}
use concurrent_flight_bookin.Saga.Sample.{
  seat, booking, payment, db, gateway_with, world, refusing, draws, request,
}
use concurrent_flight_bookin.Redis.{reference_redis, empty_cell, Store}
use concurrent_flight_bookin.Saga.Guarded.{Controls, guarded_run, verdict, guarded_run-run}

charge-Answered_example :
    Answered payment world.gateway (charge fake_gateway draws booking payment world)
charge-Answered_example = charge-Answered draws booking payment world

abbrev paid : Booking
paid = record booking { state = BookingState.payment_authorized }

compensate-Unwound_example :
    Unwound fake_gateway 80 1 (compensate fake_gateway 300 paid payment [] world)
compensate-Unwound_example = compensate-Unwound fake_gateway 300 paid payment [] world refl

abbrev opened : Booking
opened = record booking { state = BookingState.pending }

fail_payment_keeps_holds_example :
    let (r, w') = fail_payment opened AuditEventType.payment_declined world in
    let failed : Booking = record opened { state = BookingState.payment_failed } in
    (r ≡ ok failed)
    × IsRow failed w'.saved.bookings
    × (rows_of 80 w'.saved.bookings ≡ rows_of 80 db.bookings)
    × (map hold_of w'.saved.seats ≡ map hold_of db.seats)
    × (count_where (belongs_to 80) w'.saved.seats ≡ 0)
    × (w'.saved.tickets ≡ db.tickets)
    × (w'.gateway ≡ world.gateway)
fail_payment_keeps_holds_example =
    fail_payment_keeps_holds opened AuditEventType.payment_declined world refl

cancel_ticketed_example :
    let (r, w') = cancel fake_gateway 300 booking world in
    (require_state BookingState.ticketed (BookingState.confirmed ∷ BookingState.ticketed ∷ [])
      ≡ none)
    × (r ≡ raised Exc.illegal_transition)
    × (w'.saved ≡ world.saved)
    × (w'.gateway ≡ (asked_refund fake_gateway payment world.gateway).1)
unfolding fake_refund same
cancel_ticketed_example = cancel_ticketed fake_gateway 300 booking payment world refl refl refl

cancel_refused_example :
    let (r, w') = cancel fake_gateway 300 booking refusing in
    (r ≡ raised (Exc.app AppError.booking_compensated))
    × (w'.saved.bookings
        ≡ (save_booking (record booking { state = BookingState.needs_manual_review }) db).bookings)
    × (w'.saved.seats ≡ db.seats)
    × (w'.saved.tickets ≡ db.tickets)
    × (w'.saved ≡ w'.db)
unfolding fake_refund same
cancel_refused_example = cancel_refused fake_gateway 300 booking payment refusing refl refl

run-Settled_example :
    let r = run fake_gateway draws 4 (request 41) (b'k' ∷ []) [] Decision.allow (λ d. d) world in
    Settled 90 world r × HasRow 90 r
run-Settled_example =
    run-Settled fake_gateway draws 4 (request 41) (b'k' ∷ []) [] Decision.allow (λ d. d) world
      (λ d h. h)

-- The number that is drawn for the passenger is on a ticket already.
abbrev ticket : Ticket
ticket = record {
  id = 1;
  booking_id = 70;
  passenger_id = 101;
  seat_inventory_id = 3;
  e_ticket_no = 100 ∷ [];
  voided_at = none;
}

abbrev passenger : BookingPassenger
passenger = record {
  id = 100;
  booking_id = 80;
  given_name = [];
  family_name = [];
  passport_last4 = none;
  seat_inventory_id = some 1;
}

abbrev ours : SeatInventory
ours = record (seat 1 b'A' 40) { booking_id = some 80 }

abbrev taken : Db
taken = record db { seats = ours ∷ []; tickets = ticket ∷ [] }

abbrev clashing : World FakeGateway
clashing = record { db = taken; saved = taken; gateway = gateway_with [] }

fulfil_clash_example :
    let (r, w') =
      fulfil fake_gateway draws 4
        (request 41)
        (λ d. d)
        (record { booking = paid; rows = passenger ∷ []; seats = ours ∷ [] })
        (record { provider_ref = b's' ∷ []; approved = true; failure_code = none; message = none })
        (paid, payment)
        clashing in
    (r ≡ raised Exc.integrity_error) × (w'.saved ≡ taken) × (w'.gateway ≡ clashing.gateway)
unfolding issue_tickets issue_each issue_one order_by_id insert_by_id journal_reclaimed same
    trigger_for
fulfil_clash_example =
    fulfil_clash fake_gateway draws 4 (request 41) (λ d. d)
      (record { booking = paid; rows = passenger ∷ []; seats = ours ∷ [] })
      (record { provider_ref = b's' ∷ []; approved = true; failure_code = none; message = none })
      paid payment clashing refl

-- What step 1 hands on of two held seats.
abbrev begun : Begun
begun = record {
  booking = record booking {
    id = 90;
    ref = b'A' ∷ [];
    state = BookingState.pending;
    total_amount = 25000;
    currency = b'C' ∷ b'A' ∷ b'D' ∷ [];
  };
  rows =
      record passenger { booking_id = 90 }
      ∷ record passenger { id = 101; booking_id = 90; seat_inventory_id = some 2 }
      ∷ [];
  seats =
      record (seat 1 b'A' 40) { booking_id = some 90; version = 2 }
      ∷ record (seat 2 b'B' 41) { booking_id = some 90; version = 2 }
      ∷ [];
}

-- Meanwhile the first seat was held by another user and pinned to another booking.
abbrev stolen : World FakeGateway
stolen = record world {
  db = record db {
    seats = record (seat 1 b'A' 45) { held_by_user_id = some 5; booking_id = some 70 } ∷ [];
  };
}

begin_booking-issue_tickets_example :
    (issue_tickets 310 begun.booking begun.rows begun.seats 4 payment.card_token draws.ticket
      stolen).0
    ≢ raised (Exc.app AppError.seat_unavailable)
unfolding begin_booking get_flight_or_404 lock_seats_for_holds order_by_id insert_by_id
    single_flight sum_prices order_by_row insert_by_row unique_pnr passenger_rows last_four same
begin_booking-issue_tickets_example =
    begin_booking-issue_tickets draws 4 (request 41) (b'k' ∷ []) world
      (begin_booking draws 4 (request 41) (b'k' ∷ []) world).1 stolen begun begun.booking 310
      payment.card_token draws.ticket refl refl

-- Its ticket is live, and the seat is booked for the other booking.
sold_twice :
    let w' =
      (issue_tickets 310 paid
        (passenger ∷ [])
        (ours ∷ [])
        4
        payment.card_token
        draws.ticket
        stolen).1 in
    (map (λ t. t.booking_id) w'.saved.tickets ≡ 80 ∷ [])
    × (map (λ s. s.booking_id) w'.saved.seats ≡ some 70 ∷ [])
unfolding issue_tickets issue_each issue_one order_by_id insert_by_id journal_reclaimed same
    trigger_for assert_can_transition
sold_twice = (refl, refl)

abbrev controls : Controls
controls = record {
  ip = none;
  card_fingerprint = b'f' ∷ [];
  assess_clock = λ i. 1000 + i;
  outcome_clock = λ i. 2000 + i;
  drawn = λ i. (b'0' + i) ∷ [];
}

abbrev no_history : Store
no_history = λ k. empty_cell

guarded_run-run_example :
    (guarded_run fake_gateway reference_redis controls draws 4
      (request 41)
      (λ d. d)
      (b'k' ∷ [])
      world
      no_history).0
    ≡ run fake_gateway draws 4
        (request 41)
        (b'k' ∷ [])
        (b'f' ∷ [])
        (verdict fake_gateway reference_redis controls draws 4
          (request 41)
          (λ d. d)
          (begin_booking draws 4 (request 41) (b'k' ∷ []) world).0
          no_history)
        (λ d. d)
        world
guarded_run-run_example =
    guarded_run-run fake_gateway reference_redis controls draws 4 (request 41) (λ d. d) (b'k' ∷ [])
      world no_history

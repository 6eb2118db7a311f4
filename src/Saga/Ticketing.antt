-- ===== src/Saga/Ticketing.antt =====
-- `_issue_tickets` of app/services/booking_saga.py. It selects the seats again under their locks; but the session keeps its
-- objects over a commit (app/db.py has expire_on_commit=False), and a SELECT without populate_existing hands them back as
-- they are. So what the call checks is what step 1 left of the seats, and what it writes is an UPDATE of the rows.
use concurrent_flight_bookin.Prelude.{
  ℕ, ◌+◌, Bool, true, false, not, ◌&&◌, ◌||◌, Option, none, some, List, [], ◌∷◌, Text, ◌==◌, same,
  leb, if◌then◌else◌, is_eq, is_null, select, first, count_where, update_where,
}
use concurrent_flight_bookin.Errors.{Exc, AppError}
use concurrent_flight_bookin.Domain.Enums.{SeatStatus, seat_is, BookingState, AuditEventType}
use concurrent_flight_bookin.Domain.Models.{
  Db, Booking, BookingPassenger, SeatInventory, Ticket, ck_booked_seat_has_booking,
}
use concurrent_flight_bookin.Domain.States.{assert_can_transition}
use concurrent_flight_bookin.Payments.Triggers.{Trigger, trigger_for}
use concurrent_flight_bookin.Saga.Session.{
  Action, ok, raised, pure, raise, ◌>>=◌, ◌>>◌, commit, read, modify, raise_if_some, save_booking,
  journal,
}

-- `x in xs`
abbrev pub elem : ℕ → List ℕ → Bool
elem x [] = false
elem x (y ∷ ys) = x == y || elem x ys

-- `ORDER BY seat_inventory.id`
unfoldable pub insert_by_id : SeatInventory → List SeatInventory → List SeatInventory
insert_by_id s [] = s ∷ []
insert_by_id s (t ∷ ts) =
    let rest = insert_by_id s ts in if leb s.id t.id then s ∷ t ∷ ts else t ∷ rest

unfoldable pub order_by_id : List SeatInventory → List SeatInventory
unfolding insert_by_id
order_by_id [] = []
order_by_id (s ∷ ss) = insert_by_id s (order_by_id ss)

-- `_seconds_left(seat) <= 0`
abbrev pub lapsed : ℕ → SeatInventory → Bool
lapsed now seat = elim seat.hold_expires_at [ none ↦ true | some e ↦ leb e now ]

-- The test of the first loop; its second half can only add seats that fail the first.
abbrev pub is_lost : Booking → ℕ → SeatInventory → Bool
is_lost booking user_id seat =
    not (is_eq seat.booking_id booking.id && is_eq seat.held_by_user_id user_id)
    || (seat_is seat.status SeatStatus.booked && not (is_eq seat.booking_id booking.id))

-- The first loop journals each seat that is still ours although its hold lapsed.
unfoldable pub journal_reclaimed : ℕ → Booking → ℕ → List SeatInventory → Db → Db
journal_reclaimed now booking user_id [] db = db
journal_reclaimed now booking user_id (s ∷ ss) db = journal_reclaimed now booking user_id ss (
    if not (is_lost booking user_id s) && lapsed now s
    then journal booking.id AuditEventType.hold_lost none none db
    else db)

abbrev pub is_ticketing_failure : Trigger → Bool
is_ticketing_failure Trigger.ticketing_failure = true
is_ticketing_failure Trigger.approve = false
is_ticketing_failure Trigger.decline_insufficient_funds = false
is_ticketing_failure Trigger.decline_do_not_honor = false
is_ticketing_failure Trigger.gateway_timeout_then_ok = false
is_ticketing_failure Trigger.refund_failure = false

-- The UPDATE of a sold seat, from the session's object to the row: it writes the columns that have changed on the object.
-- `booking_id` has not, since the object passed the check, and so the row keeps the one that it has.
abbrev pub sold : SeatInventory → SeatInventory → SeatInventory
sold object row = record row {
  status = SeatStatus.booked;
  hold_id = none;
  hold_expires_at = none;
  version = object.version + 1;
}

-- The row would violate ck_booked_seat_has_booking: nobody's booking is pinned to it any more.
abbrev pub is_refused : SeatInventory → SeatInventory → Bool
is_refused object row = row.id == object.id && not (ck_booked_seat_has_booking (sold object row))

-- One passenger's ticket: its id and number are drawn. The unique indexes on live tickets and on the number are checked
-- by the INSERT.
abbrev pub clashes : Ticket → Ticket → Bool
clashes t u =
    same u.e_ticket_no t.e_ticket_no
    || (is_null u.voided_at
        && (u.seat_inventory_id == t.seat_inventory_id || u.passenger_id == t.passenger_id))

-- What `uuid4` and `generate_eticket_number` draw for a passenger.
pub record TicketDraw : Type 0 where
  pub ticket_id : ℕ
  pub e_ticket_no : Text

abbrev pub ticket_for : Booking → BookingPassenger → ℕ → TicketDraw → Ticket
ticket_for booking p seat_id d = record {
  id = d.ticket_id;
  booking_id = booking.id;
  passenger_id = p.id;
  seat_inventory_id = seat_id;
  e_ticket_no = d.e_ticket_no;
  voided_at = none;
}

-- `by_id[passenger.seat_inventory_id]`, if it is one of the locked seats.
abbrev pub assigned : BookingPassenger → List SeatInventory → Option SeatInventory
assigned p locked = elim p.seat_inventory_id [
  | none ↦ none
  | some seat_id ↦ first (λ s. s.id == seat_id) locked
]

-- What `session.scalars` returns of the locking SELECT: for each row that is found, by its id, the object of it that the
-- session has.
abbrev pub reselect : List SeatInventory → List SeatInventory → List SeatInventory
reselect objects rows =
    order_by_id (select (λ o. not (count_where (λ r. r.id == o.id) rows == 0)) objects)

module _ {G : Type 0} where
  unfoldable pub issue_one :
      Booking → List SeatInventory → BookingPassenger → TicketDraw → Action G (Unit {0})
  issue_one booking locked p d = elim (assigned p locked) [
    | none ↦ raise Exc.ticketing_failed
    | some seat ↦ λ w.
        if count_where (clashes (ticket_for booking p seat.id d)) w.db.tickets == 0
          && count_where (is_refused seat) w.db.seats == 0
        then (
          ok tt,
          record w {
            db = record w.db {
              tickets = ticket_for booking p seat.id d ∷ w.db.tickets;
              seats = update_where (λ s. s.id == seat.id) (sold seat) w.db.seats;
            };
          },
        )
        else (raised Exc.integrity_error, w)
  ]

  unfoldable pub issue_each :
      Booking → List SeatInventory → List BookingPassenger → (ℕ → TicketDraw) → Action G (Unit {0})
  issue_each booking locked [] draw = pure tt
  issue_each booking locked (p ∷ ps) draw =
      issue_one booking locked p (draw p.id) >> issue_each booking locked ps draw

  unfoldable pub issue_tickets :
      (now : ℕ) (booking : Booking) (passengers : List BookingPassenger)
      (seats : List SeatInventory) (user_id : ℕ) (card_token : Text) (draw : ℕ → TicketDraw)
      → Action G Booking
  issue_tickets now booking passengers seats user_id card_token draw = do
    locked ← read (λ db. reselect seats db.seats)
    modify (journal_reclaimed now booking user_id locked)
    (if count_where (is_lost booking user_id) locked == 0
        then pure tt
        else (modify (journal booking.id AuditEventType.hold_lost none none)
            >> raise (Exc.app AppError.seat_unavailable)))
    (if is_ticketing_failure (trigger_for card_token)
        then (modify (journal booking.id AuditEventType.ticketing_failed none none)
            >> raise Exc.ticketing_failed)
        else pure tt)
    issue_each booking locked passengers draw
    raise_if_some (assert_can_transition booking.state BookingState.ticketed)
    modify (
        journal booking.id AuditEventType.tickets_issued (some booking.state)
          (some BookingState.ticketed))
    let ticketed = record booking { state = BookingState.ticketed }
    modify (save_booking ticketed)
    commit
    pure ticketed

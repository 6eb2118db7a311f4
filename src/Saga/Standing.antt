-- ===== src/Saga/Standing.antt =====
-- The row of the booking: no step after step 1 takes it away.
use concurrent_flight_bookin.Prelude.{
  ℕ, ◌<◌, ◌≡◌, refl, inl, inr, none, some, List, [], ◌∷◌, Text, arith, ◌==◌, count_where,
  Bool-cases,
}
use concurrent_flight_bookin.Errors.{Exc, AppError}
use concurrent_flight_bookin.Domain.Enums.{BookingState, AuditEventType}
use concurrent_flight_bookin.Domain.Models.{Db, Booking, BookingPassenger, Payment, SeatInventory}
use concurrent_flight_bookin.Domain.States.{assert_can_transition}
use concurrent_flight_bookin.Holds.{release_seats_for_booking}
use concurrent_flight_bookin.Payments.{
  PaymentGateway, AuthorizationResult, Reply, done, timed_out, refund_refused,
}
use concurrent_flight_bookin.Saga.Session.{
  World, Action, Outcome, ok, raised, pure, raise, ◌>>=◌, ◌>>◌, commit, modify, raise_if_some,
  save_booking, journal,
}
use concurrent_flight_bookin.Saga.Begin.{Draws}
use concurrent_flight_bookin.Saga.Ticketing.{
  issue_tickets, issue_each, issue_one, TicketDraw, journal_reclaimed, is_lost,
  is_ticketing_failure, reselect,
}
use concurrent_flight_bookin.Saga.Unwind.{
  fail_payment, compensate, compensation_done, compensation_failed, reverse, after_reversal,
  is_captured,
}
use concurrent_flight_bookin.Saga.Reversal.{rows_of, saved-rows_of}
use concurrent_flight_bookin.Saga.Verified.{guard-cases}
use concurrent_flight_bookin.Saga.Ending.{ended}
use concurrent_flight_bookin.Payments.Triggers.{trigger_for}
use concurrent_flight_bookin.Saga.{charge, settle, confirm, recover}

reclaimed-bookings :
    (now : ℕ) (booking : Booking) (user_id : ℕ) (ss : List SeatInventory) (db : Db)
    → (journal_reclaimed now booking user_id ss db).bookings ≡ db.bookings
unfolding journal_reclaimed
reclaimed-bookings now booking user_id [] db = refl
reclaimed-bookings now booking user_id (s ∷ ss) db = ground (
  arith,
  reclaimed-bookings now booking user_id ss db,
  reclaimed-bookings now booking user_id ss
      (journal booking.id AuditEventType.hold_lost none none db),
)

module _ {G : Type 0} (i : ℕ) where
  -- The booking has a row, in the session and as committed.
  abbrev pub Stands : World G → Type 0
  Stands w = (0 < rows_of i w.db.bookings) × (0 < rows_of i w.saved.bookings)

  pub fail_payment-Stands :
      (booking : Booking) (event : AuditEventType) (w : World G)
      → Stands w
      → Stands (fail_payment booking event w).1
  unfolding fail_payment
  fail_payment-Stands booking event w h = ground (
    arith,
    saved-rows_of i (record booking { state = BookingState.payment_failed }) w.db.bookings,
  )

  pub charge-Stands :
      (gateway : PaymentGateway G) (draws : Draws) (booking : Booking) (payment : Payment)
      (w : World G)
      → Stands w
      → Stands (charge gateway draws booking payment w).1
  unfolding charge
  charge-Stands gateway draws booking payment w h = ground arith

  pub settle-Stands :
      (gateway : PaymentGateway G) (booking : Booking) (payment : Payment) (r : AuthorizationResult)
      (w : World G)
      → Stands w
      → Stands (settle gateway booking payment r w).1
  unfolding settle fail_payment
  settle-Stands gateway booking payment r w h = ground (
    arith,
    saved-rows_of i (record booking { state = BookingState.payment_failed }) w.db.bookings,
    saved-rows_of i (record booking { state = BookingState.payment_authorized }) w.db.bookings,
  )

  pub confirm-Stands :
      (gateway : PaymentGateway G) (booking : Booking) (payment : Payment) (provider_ref : Text)
      (w : World G)
      → Stands w
      → Stands (confirm gateway booking payment provider_ref w).1
  unfolding confirm
  confirm-Stands gateway booking payment provider_ref w h =
      ground
        (arith, saved-rows_of i (record booking { state = BookingState.confirmed }) w.db.bookings)

  issue_one-Stands :
      (booking : Booking) (locked : List SeatInventory) (p : BookingPassenger) (d : TicketDraw)
      (w : World G)
      → Stands w
      → Stands (issue_one booking locked p d w).1
  unfolding issue_one
  issue_one-Stands booking locked p d w h = ground arith

  issue_each-Stands :
      (booking : Booking) (locked : List SeatInventory) (ps : List BookingPassenger)
      (draw : ℕ → TicketDraw) (w : World G)
      → Stands w
      → Stands (issue_each booking locked ps draw w).1
  unfolding issue_each
  issue_each-Stands booking locked [] draw w h = h
  issue_each-Stands booking locked (p ∷ ps) draw w h =
      ended (λ x. Stands x.1) (issue_one booking locked p (draw p.id) w)
        (λ _. issue_each booking locked ps draw)
        (λ a w' e.
          issue_each-Stands booking locked ps draw w'
            (rw e at (issue_one-Stands booking locked p (draw p.id) w h)))
        (λ x w' e. rw e at (issue_one-Stands booking locked p (draw p.id) w h))

  -- The end of `_issue_tickets`, once each passenger has a ticket.
  abbrev finish : Booking → Action G Booking
  finish booking = do
    raise_if_some (assert_can_transition booking.state BookingState.ticketed)
    modify (
        journal booking.id AuditEventType.tickets_issued (some booking.state)
          (some BookingState.ticketed))
    let ticketed = record booking { state = BookingState.ticketed }
    modify (save_booking ticketed)
    commit
    pure ticketed

  finish-Stands : (booking : Booking) (w : World G) → Stands w → Stands (finish booking w).1
  finish-Stands booking w h =
      ground
        (arith, saved-rows_of i (record booking { state = BookingState.ticketed }) w.db.bookings)

  pub issue_tickets-Stands :
      (now : ℕ) (booking : Booking) (passengers : List BookingPassenger)
      (seats : List SeatInventory) (user_id : ℕ) (card_token : Text) (draw : ℕ → TicketDraw)
      (w : World G)
      → Stands w
      → Stands (issue_tickets now booking passengers seats user_id card_token draw w).1
  unfolding issue_tickets
  issue_tickets-Stands now booking passengers seats user_id card_token draw w h =
      let locked = reselect seats w.db.seats in
      let marked : World G = record w { db = journal_reclaimed now booking user_id locked w.db } in
      let still : Stands marked = rw (reclaimed-bookings now booking user_id locked w.db) h in
      elim (Bool-cases (count_where (is_lost booking user_id) locked == 0)) [
        | inr lost ↦ rw (lost, issue_tickets) still
        | inl ours ↦ elim (Bool-cases (is_ticketing_failure (trigger_for card_token))) [
          | inl fails ↦ rw (ours, issue_tickets) (rw fails still)
          | inr works ↦
              rw (ours, issue_tickets)
                (rw works (
                  let each = issue_each-Stands booking locked passengers draw marked still in
                  ended (λ x. Stands x.1) (issue_each booking locked passengers draw marked)
                    (λ _. finish booking) (λ _ w' e. finish-Stands booking w' (rw e at each))
                    (λ x w' e. rw e at each)))
        ]
      ]

  module _ (gateway : PaymentGateway G) where
    after_reversal-Stands :
        (now : ℕ) (booking : Booking) (payment : Payment) (r : Reply (Unit {0})) (w : World G)
        → Stands w
        → Stands (after_reversal gateway now booking payment r w).1
    unfolding compensation_done compensation_failed release_seats_for_booking
    after_reversal-Stands now booking payment (done _) w h =
        ground
          (arith, saved-rows_of i (record booking { state = BookingState.voided }) w.db.bookings)
    after_reversal-Stands now booking payment timed_out w h = ground (
      arith,
      saved-rows_of i (record booking { state = BookingState.needs_manual_review }) w.db.bookings,
    )
    after_reversal-Stands now booking payment refund_refused w h = ground (
      arith,
      saved-rows_of i (record booking { state = BookingState.needs_manual_review }) w.db.bookings,
    )

    reverse-Stands :
        (now : ℕ) (booking : Booking) (payment : Payment) (w : World G)
        → Stands w
        → Stands
            ((reverse gateway payment >>= λ reply. after_reversal gateway now booking payment reply)
              w).1
    unfolding reverse
    reverse-Stands now booking payment w h = elim (Bool-cases (is_captured payment.state)) [
      | inl taken ↦ rw (taken, reverse) (after_reversal-Stands now booking payment _ _ h)
      | inr open' ↦ rw (open', reverse) (after_reversal-Stands now booking payment _ _ h)
    ]

    compensate-Stands :
        (now : ℕ) (booking : Booking) (payment : Payment) (card_token : Text) (w : World G)
        → Stands w
        → Stands (compensate gateway now booking payment card_token w).1
    unfolding compensate
    compensate-Stands now booking payment card_token w h =
        let undoing : Booking = record booking { state = BookingState.compensating } in
        elim (guard-cases booking.state BookingState.compensating) [
          | inl passes ↦
              rw (passes, compensate)
                (reverse-Stands now undoing payment _
                  (ground (arith, saved-rows_of i undoing w.db.bookings)))
          | inr fails ↦ rw (fails, compensate) h
        ]

    compensated-Stands :
        (now : ℕ) (booking : Booking) (payment : Payment) (card_token : Text) (w : World G)
        → Stands w
        → Stands
            ((compensate gateway now booking payment card_token
                >> raise {A = Booking} (Exc.app AppError.booking_compensated))
              w).1
    compensated-Stands now booking payment card_token w h =
        let undone = compensate-Stands now booking payment card_token w h in
        ended (λ x. Stands x.1) (compensate gateway now booking payment card_token w)
          (λ _. raise (Exc.app AppError.booking_compensated)) (λ b w' e. rw e at undone)
          (λ x w' e. rw e at undone)

    pub recover-Stands :
        (now : ℕ) (booking : Booking) (payment : Payment) (card_token : Text) (r : Outcome Booking)
        (w : World G)
        → Stands w
        → Stands (recover gateway now booking payment card_token r w).1
    recover-Stands now booking payment card_token (ok b) w h = h
    recover-Stands now booking payment card_token (raised Exc.ticketing_failed) w h =
        compensated-Stands now booking payment card_token w h
    recover-Stands now booking payment card_token (raised (Exc.app AppError.seat_unavailable)) w h =
        compensated-Stands now booking payment card_token w h
    recover-Stands now booking payment card_token (raised e) w h = h

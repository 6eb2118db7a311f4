-- ===== src/Saga/Steps.antt =====
-- How each step of the saga can end, and the booking's row after it.
use concurrent_flight_bookin.Prelude.{
  ℕ, ◌≡◌, refl, inl, inr, Bool, true, not, ◌&&◌, some, List, [], ◌∷◌, Text, arith, ◌==◌, Bool-cases,
  count_where, update_where,
}
use concurrent_flight_bookin.Errors.{Exc, AppError}
use concurrent_flight_bookin.Domain.Enums.{BookingState, AuditEventType, PaymentState}
use concurrent_flight_bookin.Domain.Models.{Db, Booking, BookingPassenger, Payment, SeatInventory}
use concurrent_flight_bookin.Domain.States.{one_of, assert_can_transition}
use concurrent_flight_bookin.Holds.{get_flight_or_404, release_seats_for_booking, belongs_to}
use concurrent_flight_bookin.Payments.{
  PaymentGateway, AuthorizationResult, Reply, done, timed_out, refund_refused,
}
use concurrent_flight_bookin.Saga.Session.{World, Outcome, ok, raised, save_payment, ◌>>=◌}
use concurrent_flight_bookin.Saga.Begin.{Draws, BookingCreate, Begun, begin_booking}
use concurrent_flight_bookin.Saga.Ticketing.{
  issue_tickets, issue_each, issue_one, TicketDraw, is_lost, is_ticketing_failure, reselect,
  journal_reclaimed,
}
use concurrent_flight_bookin.Saga.Unwind.{
  fail_payment, compensate, compensation_done, compensation_failed, reverse, after_reversal,
  is_captured,
}
use concurrent_flight_bookin.Payments.Triggers.{trigger_for}
use concurrent_flight_bookin.Saga.Reversal.{unpinned_all}
use concurrent_flight_bookin.Saga.{charge, settle, confirm}

-- A row of this booking in none of these states.
abbrev pub is_astray : ℕ → List BookingState → Booking → Bool
is_astray booking_id states b = b.id == booking_id && not (one_of b.state states)

-- Every row of this booking is in one of these states.
abbrev pub InState : ℕ → List BookingState → Db → Type 0
InState booking_id states db = count_where (is_astray booking_id states) db.bookings ≡ 0

pub saved-InState :
    (b : Booking) (states : List BookingState) (bookings : List Booking)
    → one_of b.state states ≡ true
    → count_where (is_astray b.id states) (update_where (λ x. x.id == b.id) (λ _. b) bookings) ≡ 0
saved-InState b states [] h = refl
saved-InState b states (x ∷ bookings) h = ground (arith, saved-InState b states bookings)

abbrev undone : List BookingState
undone = BookingState.voided ∷ BookingState.needs_manual_review ∷ []

module _ {G : Type 0} where
  abbrev pub BeginEnds : Draws → Outcome Begun × World G → Type 0
  BeginEnds draws (ok begun, w) =
      (begun.booking.id ≡ draws.booking_id) × (begun.booking.state ≡ BookingState.pending)
  BeginEnds draws (raised (Exc.app AppError.not_found), w) = Unit
  BeginEnds draws (raised (Exc.app AppError.hold_expired), w) = Unit
  BeginEnds draws (raised (Exc.app AppError.seat_unavailable), w) = Unit
  BeginEnds draws (raised Exc.no_unique_pnr, w) = Unit
  BeginEnds draws (raised Exc.zip_length, w) = Unit
  BeginEnds draws (raised e, w) = ⊥

  pub begin_booking-Ends :
      (draws : Draws) (user_id : ℕ) (payload : BookingCreate) (key : Text) (w : World G)
      → BeginEnds draws (begin_booking draws user_id payload key w)
  unfolding begin_booking get_flight_or_404
  begin_booking-Ends draws user_id payload key w = ground arith

  -- Issuing tickets raises a failure of its own or a violated constraint.
  abbrev IssueEnds : Outcome (Unit {0}) × World G → Type 0
  IssueEnds (ok _, w) = Unit
  IssueEnds (raised Exc.ticketing_failed, w) = Unit
  IssueEnds (raised Exc.integrity_error, w) = Unit
  IssueEnds (raised e, w) = ⊥

  issue_one-Ends :
      (booking : Booking) (locked : List SeatInventory) (p : BookingPassenger) (d : TicketDraw)
      (w : World G)
      → IssueEnds (issue_one booking locked p d w)
  unfolding issue_one
  issue_one-Ends booking locked p d w = ground arith

  issue_each-Ends :
      (booking : Booking) (locked : List SeatInventory) (ps : List BookingPassenger)
      (draw : ℕ → TicketDraw) (w : World G)
      → IssueEnds (issue_each booking locked ps draw w)
  unfolding issue_each
  issue_each-Ends booking locked [] draw w = tt
  issue_each-Ends booking locked (p ∷ ps) draw w = ground (
    arith,
    issue_one-Ends booking locked p (draw p.id) w,
    issue_each-Ends booking locked ps draw (issue_one booking locked p (draw p.id) w).1,
  )

  abbrev pub TicketEnds : Booking → Outcome Booking × World G → Type 0
  TicketEnds booking (ok b, w) = (b.id ≡ booking.id) × (b.state ≡ BookingState.ticketed)
  TicketEnds booking (raised Exc.ticketing_failed, w) = Unit
  TicketEnds booking (raised Exc.integrity_error, w) = Unit
  TicketEnds booking (raised (Exc.app AppError.seat_unavailable), w) = Unit
  TicketEnds booking (raised e, w) = ⊥

  pub issue_tickets-Ends :
      (now : ℕ) (booking : Booking) (passengers : List BookingPassenger)
      (seats : List SeatInventory) (user_id : ℕ) (card_token : Text) (draw : ℕ → TicketDraw)
      (w : World G)
      → booking.state ≡ BookingState.payment_authorized
      → TicketEnds booking (issue_tickets now booking passengers seats user_id card_token draw w)
  unfolding issue_tickets assert_can_transition
  issue_tickets-Ends now booking passengers seats user_id card_token draw w st =
      let locked = reselect seats w.db.seats in
      let marked : World G = record w { db = journal_reclaimed now booking user_id locked w.db } in
      elim (Bool-cases (count_where (is_lost booking user_id) locked == 0)) [
        | inr lost ↦ rw (lost, issue_tickets) tt
        | inl ours ↦ elim (Bool-cases (is_ticketing_failure (trigger_for card_token))) [
          | inl fails ↦ rw (ours, issue_tickets) (rw fails tt)
          | inr works ↦
              rw (ours, issue_tickets)
                (rw works (ground (arith, issue_each-Ends booking locked passengers draw marked)))
        ]
      ]

  -- A failed payment commits the booking's row as PAYMENT_FAILED and takes the booking off its seats.
  abbrev pub PaymentFailed : ℕ → World G → Type 0
  PaymentFailed booking_id w =
      InState booking_id (BookingState.payment_failed ∷ []) w.saved
      × (count_where (belongs_to booking_id) w.saved.seats ≡ 0)

  pub fail_payment-PaymentFailed :
      (booking : Booking) (event : AuditEventType) (w : World G)
      → booking.state ≡ BookingState.pending
      → let (r, w') = fail_payment booking event w in
        (r ≡ ok (record booking { state = BookingState.payment_failed }))
        × PaymentFailed booking.id w'
        × (w'.gateway ≡ w.gateway)
  unfolding fail_payment assert_can_transition
  fail_payment-PaymentFailed booking event w st = ground (
    arith,
    saved-InState (record booking { state = BookingState.payment_failed })
        (BookingState.payment_failed ∷ []) w.db.bookings,
    unpinned_all booking.id w.db.seats,
  )

  abbrev pub SettleEnds : Booking → Payment → Outcome (Booking × Payment) × World G → Type 0
  SettleEnds booking payment (ok (b, p), w) =
      (b.id ≡ booking.id) × (b.state ≡ BookingState.payment_authorized) × (p.id ≡ payment.id)
  SettleEnds booking payment (raised (Exc.app AppError.payment_declined), w) =
      PaymentFailed booking.id w
  SettleEnds booking payment (raised e, w) = ⊥

  pub settle-Ends :
      (gateway : PaymentGateway G) (booking : Booking) (payment : Payment) (r : AuthorizationResult)
      (w : World G)
      → booking.state ≡ BookingState.pending
      → SettleEnds booking payment (settle gateway booking payment r w)
  unfolding settle assert_can_transition
  settle-Ends gateway booking payment r w st = elim (Bool-cases r.approved) [
    | inl yes' ↦ rw (yes', settle) (ground arith)
    | inr no' ↦
        rw (no', settle)
          (ground (
            arith,
            fail_payment-PaymentFailed booking AuditEventType.payment_declined
                (record w {
                  db =
                      save_payment
                        (record payment {
                          state = PaymentState.declined;
                          provider_ref = some r.provider_ref;
                          failure_code = r.failure_code;
                        })
                        w.db;
                })
                st,
          ))
  ]

  abbrev pub ConfirmEnds : Booking → Outcome Booking × World G → Type 0
  ConfirmEnds booking (ok b, w) =
      (b.id ≡ booking.id)
      × (b.state ≡ BookingState.confirmed)
      × (w.saved ≡ w.db)
      × InState booking.id (BookingState.confirmed ∷ []) w.saved
  ConfirmEnds booking (raised Exc.payment_timeout, w) = Unit
  ConfirmEnds booking (raised Exc.refund_failed, w) = Unit
  ConfirmEnds booking (raised e, w) = ⊥

  pub confirm-Ends :
      (gateway : PaymentGateway G) (booking : Booking) (payment : Payment) (provider_ref : Text)
      (w : World G)
      → booking.state ≡ BookingState.ticketed
      → ConfirmEnds booking (confirm gateway booking payment provider_ref w)
  unfolding confirm assert_can_transition
  confirm-Ends gateway booking payment provider_ref w st = ground (
    arith,
    saved-InState (record booking { state = BookingState.confirmed }) (BookingState.confirmed ∷ [])
        w.db.bookings,
  )

  abbrev pub ChargeEnds : Payment → Outcome (Payment × AuthorizationResult) × World G → Type 0
  ChargeEnds payment (ok (p, r), w) = p.id ≡ payment.id
  ChargeEnds payment (raised Exc.payment_timeout, w) = Unit
  ChargeEnds payment (raised Exc.refund_failed, w) = Unit
  ChargeEnds payment (raised e, w) = ⊥

  pub charge-Ends :
      (gateway : PaymentGateway G) (draws : Draws) (booking : Booking) (payment : Payment)
      (w : World G)
      → ChargeEnds payment (charge gateway draws booking payment w)
  unfolding charge
  charge-Ends gateway draws booking payment w = ground arith

  abbrev pub UndoEnds : ℕ → Outcome Booking × World G → Type 0
  UndoEnds booking_id (ok b, w) =
      InState booking_id (BookingState.voided ∷ BookingState.needs_manual_review ∷ []) w.saved
  UndoEnds booking_id (raised e, w) = ⊥

  module _ (gateway : PaymentGateway G) where
    done-UndoEnds :
        (now : ℕ) (booking : Booking) (payment : Payment) (w : World G)
        → booking.state ≡ BookingState.compensating
        → UndoEnds booking.id (compensation_done gateway now booking payment w)
    unfolding compensation_done release_seats_for_booking assert_can_transition
    done-UndoEnds now booking payment w st =
        ground (
          arith,
          saved-InState (record booking { state = BookingState.voided }) undone w.db.bookings,
        )

    failed-UndoEnds :
        (now : ℕ) (booking : Booking) (w : World G)
        → UndoEnds booking.id (compensation_failed gateway now booking w)
    unfolding compensation_failed release_seats_for_booking
    failed-UndoEnds now booking w = ground (
      arith,
      saved-InState (record booking { state = BookingState.needs_manual_review }) undone
          w.db.bookings,
    )

    after_reversal-UndoEnds :
        (now : ℕ) (booking : Booking) (payment : Payment) (r : Reply (Unit {0})) (w : World G)
        → booking.state ≡ BookingState.compensating
        → UndoEnds booking.id (after_reversal gateway now booking payment r w)
    after_reversal-UndoEnds now booking payment (done _) w st =
        done-UndoEnds now booking payment w st
    after_reversal-UndoEnds now booking payment timed_out w st = failed-UndoEnds now booking w
    after_reversal-UndoEnds now booking payment refund_refused w st = failed-UndoEnds now booking w

    reverse-UndoEnds :
        (now : ℕ) (booking : Booking) (payment : Payment) (w : World G)
        → booking.state ≡ BookingState.compensating
        → UndoEnds booking.id (
            (reverse gateway payment >>= λ reply. after_reversal gateway now booking payment reply)
              w)
    unfolding reverse
    reverse-UndoEnds now booking payment w st = elim (Bool-cases (is_captured payment.state)) [
      | inl taken ↦ rw (taken, reverse) (after_reversal-UndoEnds now booking payment _ _ st)
      | inr open' ↦ rw (open', reverse) (after_reversal-UndoEnds now booking payment _ _ st)
    ]

    pub compensate-UndoEnds :
        (now : ℕ) (booking : Booking) (payment : Payment) (card_token : Text) (w : World G)
        → booking.state ≡ BookingState.payment_authorized
        → UndoEnds booking.id (compensate gateway now booking payment card_token w)
    unfolding compensate assert_can_transition
    compensate-UndoEnds now booking payment card_token w st =
        simp st (
          reverse-UndoEnds now (record booking { state = BookingState.compensating }) payment _
            refl)

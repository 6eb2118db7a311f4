-- ===== src/Saga/Journal/Compensation.antt =====
-- What undoes a charge, as the journal tells it.
use concurrent_flight_bookin.Prelude.{
  ℕ, ◌≡◌, refl, inl, inr, none, some, [], ◌∷◌, Text, arith, Bool-cases,
}
use concurrent_flight_bookin.Errors.{Exc, AppError}
use concurrent_flight_bookin.Domain.Enums.{BookingState, AuditEventType}
use concurrent_flight_bookin.Domain.Models.{Booking, Payment}
use concurrent_flight_bookin.Domain.States.{assert_can_transition}
use concurrent_flight_bookin.Holds.{release_seats_for_booking}
use concurrent_flight_bookin.Payments.{PaymentGateway, Reply, done, timed_out, refund_refused}
use concurrent_flight_bookin.Payments.Triggers.{trigger_for}
use concurrent_flight_bookin.Saga.Session.{
  World, Outcome, ok, raised, ◌>>=◌, ◌>>◌, raise, save_booking, journal,
}
use concurrent_flight_bookin.Saga.Unwind.{
  compensate, compensation_done, compensation_failed, after_reversal, reverse, is_captured,
  is_refund_failure, reversed_event,
}
use concurrent_flight_bookin.Saga.{recover}
use concurrent_flight_bookin.Saga.Steps.{saved-InState}
use concurrent_flight_bookin.Saga.Verified.{guard-cases}
use concurrent_flight_bookin.Saga.Ending.{ended}
use concurrent_flight_bookin.Saga.Journal.{Truthful}
use concurrent_flight_bookin.Saga.Journal.Entries.{note-WalksTo, note-Told, move-Told}
use concurrent_flight_bookin.Saga.Journal.Tickets.{Journaled, StepJournaled, TicketsJournaled}

module _ {G : Type 0} where
  module _ (gateway : PaymentGateway G) where
    done-Truthful :
        (now : ℕ) (booking : Booking) (payment : Payment) (w : World G)
        → booking.state ≡ BookingState.compensating
        → Journaled booking.id BookingState.compensating w
        → Truthful booking.id (compensation_done gateway now booking payment w).1.saved
    unfolding compensation_done release_seats_for_booking
    done-Truthful now booking payment w st h =
        elim (guard-cases booking.state BookingState.voided) [
          | inr fails ↦ rw (fails, compensation_done) h.1
          | inl passes ↦
              (let noted =
                  note-WalksTo booking.id BookingState.compensating (reversed_event gateway payment)
                    w.db h.0.0 in
                rw (passes, compensation_done)
                  (inr (
                    note-WalksTo booking.id BookingState.compensating AuditEventType.seats_released
                        (journal booking.id (reversed_event gateway payment) none none w.db) noted,
                    saved-InState (record booking { state = BookingState.voided })
                        (BookingState.voided ∷ []) w.db.bookings refl,
                  )))
        ]

    failed-Truthful :
        (now : ℕ) (booking : Booking) (w : World G)
        → booking.state ≡ BookingState.compensating
        → Journaled booking.id booking.state w
        → Truthful booking.id (compensation_failed gateway now booking w).1.saved
    unfolding compensation_failed release_seats_for_booking assert_can_transition
    failed-Truthful now booking w st h =
        let passes : assert_can_transition booking.state BookingState.needs_manual_review ≡ none =
          ground arith in
        let moved =
          move-Told booking BookingState.needs_manual_review AuditEventType.compensation_failed w.db
            passes h.0 in
        inl (
          BookingState.needs_manual_review,
          note-Told booking.id BookingState.needs_manual_review AuditEventType.seats_released
              (save_booking (record booking { state = BookingState.needs_manual_review })
                (journal booking.id AuditEventType.compensation_failed (some booking.state)
                  (some BookingState.needs_manual_review) w.db))
              moved,
        )

    after_reversal-Truthful :
        (now : ℕ) (booking : Booking) (payment : Payment) (r : Reply (Unit {0})) (w : World G)
        → booking.state ≡ BookingState.compensating
        → Journaled booking.id booking.state w
        → Truthful booking.id (after_reversal gateway now booking payment r w).1.saved
    after_reversal-Truthful now booking payment (done _) w st h =
        done-Truthful now booking payment w st (rw st at h)
    after_reversal-Truthful now booking payment timed_out w st h =
        failed-Truthful now booking w st h
    after_reversal-Truthful now booking payment refund_refused w st h =
        failed-Truthful now booking w st h

    reverse-Truthful :
        (now : ℕ) (booking : Booking) (payment : Payment) (w : World G)
        → booking.state ≡ BookingState.compensating
        → Journaled booking.id booking.state w
        → Truthful booking.id
            ((reverse gateway payment >>= λ reply. after_reversal gateway now booking payment reply)
              w).1.saved
    unfolding reverse
    reverse-Truthful now booking payment w st h = elim (Bool-cases (is_captured payment.state)) [
      | inl taken ↦ rw (taken, reverse) (after_reversal-Truthful now booking payment _ _ st h)
      | inr open_ ↦ rw (open_, reverse) (after_reversal-Truthful now booking payment _ _ st h)
    ]

    compensate-Truthful :
        (now : ℕ) (booking : Booking) (payment : Payment) (card_token : Text) (w : World G)
        → Journaled booking.id booking.state w
        → Truthful booking.id (compensate gateway now booking payment card_token w).1.saved
    unfolding compensate
    compensate-Truthful now booking payment card_token w h =
        elim (guard-cases booking.state BookingState.compensating) [
          | inr fails ↦ rw (fails, compensate) h.1
          | inl passes ↦
              (let moved =
                  move-Told booking BookingState.compensating AuditEventType.compensation_started
                    w.db passes h.0 in
                let undoing : Booking = record booking { state = BookingState.compensating } in
                elim (Bool-cases (is_refund_failure (trigger_for card_token))) [
                  | inl arms ↦
                      rw (passes, compensate)
                        (rw arms (
                          reverse-Truthful now undoing payment _ refl
                            (moved, inl (BookingState.compensating, moved))))
                  | inr no_trigger ↦
                      rw (passes, compensate)
                        (rw no_trigger (
                          reverse-Truthful now undoing payment _ refl
                            (moved, inl (BookingState.compensating, moved))))
                ])
        ]

    -- What the `except` of step 4 leaves.
    compensated-StepJournaled :
        (now : ℕ) (booking : Booking) (payment : Payment) (card_token : Text) (w : World G)
        → Journaled booking.id booking.state w
        → StepJournaled booking.id (
            (compensate gateway now booking payment card_token
                >> raise {A = Booking} (Exc.app AppError.booking_compensated))
              w)
    compensated-StepJournaled now booking payment card_token w h =
        let after = compensate-Truthful now booking payment card_token w h in
        ended (StepJournaled booking.id) (compensate gateway now booking payment card_token w)
          (λ _. raise {A = Booking} (Exc.app AppError.booking_compensated))
          (λ a w' e. rw e at after) (λ x w' e. rw e at after)

    pub recover-StepJournaled :
        (now : ℕ) (booking : Booking) (payment : Payment) (card_token : Text)
        (r : Outcome Booking × World G)
        → TicketsJournaled booking r
        → StepJournaled booking.id (recover gateway now booking payment card_token r.0 r.1)
    recover-StepJournaled now booking payment card_token (ok b, w) h = h
    recover-StepJournaled now booking payment card_token (raised Exc.ticketing_failed, w) h =
        compensated-StepJournaled now booking payment card_token w h
    recover-StepJournaled now booking payment card_token
          (raised (Exc.app AppError.seat_unavailable), w) h =
        compensated-StepJournaled now booking payment card_token w h
    recover-StepJournaled now booking payment card_token (raised e, w) h = h.1

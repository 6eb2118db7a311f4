-- ===== src/Saga/Journal/Payment.antt =====
-- The charge, its outcome and the confirmation, as the journal tells them.
use concurrent_flight_bookin.Prelude.{ℕ, ◌≡◌, refl, inl, inr, some, Text, Bool-cases}
use concurrent_flight_bookin.Errors.{Exc, AppError}
use concurrent_flight_bookin.Domain.Enums.{BookingState, AuditEventType, PaymentState}
use concurrent_flight_bookin.Domain.Models.{Booking, Payment}
use concurrent_flight_bookin.Payments.{
  PaymentGateway, AuthorizationResult, Reply, done, timed_out, refund_refused,
}
use concurrent_flight_bookin.Saga.Session.{
  World, Outcome, ok, raised, ◌>>◌, raise, modify, save_payment,
}
use concurrent_flight_bookin.Saga.Begin.{Draws}
use concurrent_flight_bookin.Saga.Unwind.{fail_payment, suffixed, Suffix}
use concurrent_flight_bookin.Saga.Verified.{guard-cases}
use concurrent_flight_bookin.Saga.Ending.{ended}
use concurrent_flight_bookin.Saga.{charge, settle, confirm, after_retry, after_authorize, answer_of}
use concurrent_flight_bookin.Saga.Journal.{Truthful}
use concurrent_flight_bookin.Saga.Journal.Entries.{note-Told, move-Told}
use concurrent_flight_bookin.Saga.Journal.Tickets.{
  Journaled, StepJournaled, move, move-StepJournaled, fail_payment-Truthful,
}

module _ {G : Type 0} where
  module _ (gateway : PaymentGateway G) where
    -- A charge moves no booking.
    retried-Journaled :
        (booking : Booking) (payment : Payment) (r : Reply AuthorizationResult) (w : World G)
        → Journaled booking.id booking.state w
        → Journaled booking.id booking.state (after_retry gateway payment r w).1
    retried-Journaled booking payment (done r) w h = h
    retried-Journaled booking payment timed_out w h = h
    retried-Journaled booking payment refund_refused w h = h

    authorized-Journaled :
        (draws : Draws) (booking : Booking) (payment : Payment) (r : Reply AuthorizationResult)
        (w : World G)
        → Journaled booking.id booking.state w
        → Journaled booking.id booking.state (after_authorize gateway draws booking payment r w).1
    authorized-Journaled draws booking payment (done r) w h = h
    authorized-Journaled draws booking payment refund_refused w h = h
    authorized-Journaled draws booking payment timed_out w h =
        let noted = note-Told booking.id booking.state AuditEventType.payment_unknown w.db h.0 in
        retried-Journaled booking _ _ _ (noted, inl (booking.state, noted))

    pub charge-Journaled :
        (draws : Draws) (booking : Booking) (payment : Payment) (w : World G)
        → Journaled booking.id booking.state w
        → Journaled booking.id booking.state (charge gateway draws booking payment w).1
    unfolding charge
    charge-Journaled draws booking payment w h = authorized-Journaled draws booking payment _ _ h

    abbrev pub SettledJournaled : ℕ → Outcome (Booking × Payment) × World G → Type 0
    SettledJournaled b (ok settled, w) = (settled.0.id ≡ b) × Journaled b settled.0.state w
    SettledJournaled b (raised e, w) = Truthful b w.saved

    pub settle-SettledJournaled :
        (booking : Booking) (payment : Payment) (r : AuthorizationResult) (w : World G)
        → Journaled booking.id booking.state w
        → SettledJournaled booking.id (settle gateway booking payment r w)
    unfolding settle
    settle-SettledJournaled booking payment r w h = elim (Bool-cases r.approved) [
      | inl approved ↦ elim (guard-cases booking.state BookingState.payment_authorized) [
        | inl passes ↦
            (let told =
                move-Told booking BookingState.payment_authorized AuditEventType.payment_authorized
                  w.db passes h.0 in
              rw (approved, settle)
                (rw passes (refl, (told, inl (BookingState.payment_authorized, told)))))
        | inr fails ↦ rw (approved, settle) (rw fails h.1)
      ]
      | inr declined ↦
          (let refused : World G = record w {
            db =
                save_payment
                  (record payment {
                    state = PaymentState.declined;
                    provider_ref = some r.provider_ref;
                    failure_code = r.failure_code;
                  })
                  w.db;
          } in
            let failed = fail_payment-Truthful booking AuditEventType.payment_declined refused h in
            rw (declined, settle)
              (ended (SettledJournaled booking.id)
                (fail_payment booking AuditEventType.payment_declined refused)
                (λ _. raise (Exc.app AppError.payment_declined)) (λ a w' e. rw e at failed)
                (λ x w' e. rw e at failed)))
    ]

    captured-StepJournaled :
        (booking : Booking) (payment : Payment) (r : Reply AuthorizationResult) (w : World G)
        → Journaled booking.id booking.state w
        → StepJournaled booking.id (
            (answer_of gateway r
                >> (modify (save_payment (record payment { state = PaymentState.captured }))
                    >> move booking BookingState.confirmed AuditEventType.booking_confirmed))
              w)
    captured-StepJournaled booking payment (done _) w h =
        move-StepJournaled booking BookingState.confirmed AuditEventType.booking_confirmed _ h
    captured-StepJournaled booking payment timed_out w h = h.1
    captured-StepJournaled booking payment refund_refused w h = h.1

    pub confirm-StepJournaled :
        (booking : Booking) (payment : Payment) (ref : Text) (w : World G)
        → Journaled booking.id booking.state w
        → StepJournaled booking.id (confirm gateway booking payment ref w)
    unfolding confirm
    confirm-StepJournaled booking payment ref w h =
        let (r, g) = gateway.capture ref (suffixed payment.idempotency_key Suffix.cap) w.gateway in
        captured-StepJournaled booking payment r (record w { gateway = g }) h

-- ===== src/Saga/Oversell/Payment.antt =====
-- The charge, its outcome, the confirmation and the compensation keep tickets and seats in step.
use concurrent_flight_bookin.Prelude.{
  ℕ, ◌≡◌, refl, inl, inr, some, List, arith, All, Bool-cases, Text,
}
use concurrent_flight_bookin.Errors.{Exc, AppError}
use concurrent_flight_bookin.Domain.Enums.{BookingState, AuditEventType, PaymentState}
use concurrent_flight_bookin.Domain.Models.{Booking, Payment, Ticket}
use concurrent_flight_bookin.Holds.{release_seats_for_booking}
use concurrent_flight_bookin.Payments.{
  PaymentGateway, AuthorizationResult, Reply, done, timed_out, refund_refused,
}
use concurrent_flight_bookin.Payments.Triggers.{trigger_for}
use concurrent_flight_bookin.Saga.Session.{
  World, Outcome, ok, raised, ◌>>=◌, ◌>>◌, raise, save_payment,
}
use concurrent_flight_bookin.Saga.Begin.{Draws}
use concurrent_flight_bookin.Saga.Unwind.{
  fail_payment, compensate, compensation_done, compensation_failed, after_reversal, reverse,
  unpinned, is_captured, is_refund_failure,
}
use concurrent_flight_bookin.Saga.Verified.{guard-cases}
use concurrent_flight_bookin.Saga.Ending.{ended}
use concurrent_flight_bookin.Saga.{charge, settle, confirm, recover}
use concurrent_flight_bookin.Saga.Oversell.{BothSold}
use concurrent_flight_bookin.Saga.Oversell.Tables.{NotOf, belongs-IsSold, release_seats-IsSold}

module _ {G : Type 0} where
  -- In step, with the tickets as they were at the beginning.
  abbrev pub Unissued : List Ticket → World G → Type 0
  Unissued tickets w = BothSold w × (w.db.tickets ≡ tickets)

  pub fail_payment-BothSold :
      (booking : Booking) (event : AuditEventType) (tickets : List Ticket) (w : World G)
      → All (NotOf booking.id) tickets
      → Unissued tickets w
      → BothSold (fail_payment booking event w).1
  unfolding fail_payment
  fail_payment-BothSold booking event tickets w fresh h =
      elim (guard-cases booking.state BookingState.payment_failed) [
        | inl passes ↦
            (let after =
                belongs-IsSold booking.id unpinned w.db.seats w.db.tickets (λ s. refl)
                  (rw h.1 fresh) h.0.0 in
              rw (passes, fail_payment) (after, after))
        | inr fails ↦ rw (fails, fail_payment) h.0
      ]

  module _ (gateway : PaymentGateway G) where
    pub charge-Unissued :
        (draws : Draws) (booking : Booking) (payment : Payment) (tickets : List Ticket)
        (w : World G)
        → Unissued tickets w
        → Unissued tickets (charge gateway draws booking payment w).1
    unfolding charge
    charge-Unissued draws booking payment tickets w h = ground arith

    abbrev pub SettledSold : List Ticket → Outcome (Booking × Payment) × World G → Type 0
    SettledSold tickets (ok b, w) = Unissued tickets w
    SettledSold tickets (raised e, w) = BothSold w

    pub settle-SettledSold :
        (booking : Booking) (payment : Payment) (r : AuthorizationResult) (tickets : List Ticket)
        (w : World G)
        → All (NotOf booking.id) tickets
        → Unissued tickets w
        → SettledSold tickets (settle gateway booking payment r w)
    unfolding settle
    settle-SettledSold booking payment r tickets w fresh h = elim (Bool-cases r.approved) [
      | inl approved ↦ elim (guard-cases booking.state BookingState.payment_authorized) [
        | inl passes ↦ rw (approved, settle) (rw passes ((h.0.0, h.0.0), h.1))
        | inr fails ↦ rw (approved, settle) (rw fails h.0)
      ]
      | inr declined ↦
          (let refused : World G = record w {
            db =
                save_payment
                  (record payment {
                    state = PaymentState.declined;
                    provider_ref = some r.provider_ref;
                    failure_code = r.failure_code;
                  })
                  w.db;
          } in
            let failed =
              fail_payment-BothSold booking AuditEventType.payment_declined tickets refused fresh
                h in
            rw (declined, settle)
              (ended (SettledSold tickets)
                (fail_payment booking AuditEventType.payment_declined refused)
                (λ _. raise (Exc.app AppError.payment_declined)) (λ a w' e. rw e at failed)
                (λ x w' e. rw e at failed)))
    ]

    pub confirm-BothSold :
        (booking : Booking) (payment : Payment) (ref : Text) (w : World G)
        → BothSold w
        → BothSold (confirm gateway booking payment ref w).1
    unfolding confirm
    confirm-BothSold booking payment ref w h = ground arith

    done-BothSold :
        (now : ℕ) (booking : Booking) (payment : Payment) (w : World G)
        → BothSold w
        → BothSold (compensation_done gateway now booking payment w).1
    unfolding compensation_done release_seats_for_booking
    done-BothSold now booking payment w h =
        let after = release_seats-IsSold now booking.id w.db h.0 in
        elim (guard-cases booking.state BookingState.voided) [
          | inl passes ↦ rw (passes, compensation_done) (after, after)
          | inr fails ↦ rw (fails, compensation_done) (after, h.1)
        ]

    reversed-BothSold :
        (now : ℕ) (booking : Booking) (payment : Payment) (r : Reply (Unit {0})) (w : World G)
        → BothSold w
        → BothSold (after_reversal gateway now booking payment r w).1
    unfolding compensation_failed release_seats_for_booking
    reversed-BothSold now booking payment (done _) w h = done-BothSold now booking payment w h
    reversed-BothSold now booking payment timed_out w h =
        let after = release_seats-IsSold now booking.id w.db h.0 in (after, after)
    reversed-BothSold now booking payment refund_refused w h =
        let after = release_seats-IsSold now booking.id w.db h.0 in (after, after)

    reverse-BothSold :
        (now : ℕ) (booking : Booking) (payment : Payment) (w : World G)
        → BothSold w
        → BothSold
            ((reverse gateway payment >>= λ reply. after_reversal gateway now booking payment reply)
              w).1
    unfolding reverse
    reverse-BothSold now booking payment w h = elim (Bool-cases (is_captured payment.state)) [
      | inl taken ↦ rw (taken, reverse) (reversed-BothSold now booking payment _ _ h)
      | inr open_ ↦ rw (open_, reverse) (reversed-BothSold now booking payment _ _ h)
    ]

    compensate-BothSold :
        (now : ℕ) (booking : Booking) (payment : Payment) (card_token : Text) (w : World G)
        → BothSold w
        → BothSold (compensate gateway now booking payment card_token w).1
    unfolding compensate
    compensate-BothSold now booking payment card_token w h =
        elim (guard-cases booking.state BookingState.compensating) [
          | inl passes ↦ elim (Bool-cases (is_refund_failure (trigger_for card_token))) [
            | inl arms ↦
                rw (passes, compensate)
                  (rw arms (
                    reverse-BothSold now (record booking { state = BookingState.compensating })
                      payment _ (h.0, h.0)))
            | inr no_trigger ↦
                rw (passes, compensate)
                  (rw no_trigger (
                    reverse-BothSold now (record booking { state = BookingState.compensating })
                      payment _ (h.0, h.0)))
          ]
          | inr fails ↦ rw (fails, compensate) h
        ]

    compensated-BothSold :
        (now : ℕ) (booking : Booking) (payment : Payment) (card_token : Text) (w : World G)
        → BothSold w
        → BothSold
            ((compensate gateway now booking payment card_token
                >> raise {A = Booking} (Exc.app AppError.booking_compensated))
              w).1
    compensated-BothSold now booking payment card_token w h =
        let after = compensate-BothSold now booking payment card_token w h in
        ended (λ x. BothSold x.1) (compensate gateway now booking payment card_token w)
          (λ _. raise {A = Booking} (Exc.app AppError.booking_compensated))
          (λ a w' e. rw e at after) (λ x w' e. rw e at after)

    -- What the `except` of step 4 leaves.
    pub recover-BothSold :
        (now : ℕ) (booking : Booking) (payment : Payment) (card_token : Text) (r : Outcome Booking)
        (w : World G)
        → BothSold w
        → BothSold (recover gateway now booking payment card_token r w).1
    recover-BothSold now booking payment card_token (ok b) w h = h
    recover-BothSold now booking payment card_token (raised Exc.ticketing_failed) w h =
        compensated-BothSold now booking payment card_token w h
    recover-BothSold now booking payment card_token (raised (Exc.app AppError.seat_unavailable)) w
          h =
        compensated-BothSold now booking payment card_token w h
    recover-BothSold now booking payment card_token (raised e) w h = h

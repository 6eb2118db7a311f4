-- ===== src/Saga/Cancelling.antt =====
-- `cancel` and `_compensate`: what they leave behind.
use concurrent_flight_bookin.Prelude.{ℕ, ◌≡◌, none, some, [], ◌∷◌, arith, first}
use concurrent_flight_bookin.Errors.{Exc, AppError}
use concurrent_flight_bookin.Domain.Enums.{BookingState}
use concurrent_flight_bookin.Domain.Models.{Booking, Payment}
use concurrent_flight_bookin.Domain.States.{assert_can_transition, require_state}
use concurrent_flight_bookin.Payments.{PaymentGateway, Reply, done, refund_refused}
use concurrent_flight_bookin.Saga.Session.{World, save_booking, raised}
use concurrent_flight_bookin.Saga.Unwind.{
  cancel, refund_booking, flag_for_review, refundable, ref_of, suffixed, Suffix,
}

module _ {G : Type 0} (gateway : PaymentGateway G) where
  -- What the gateway answers to the refund of a cancellation.
  abbrev pub asked_refund : Payment → G → Reply (Unit {0}) × G
  asked_refund p =
      gateway.refund (ref_of p) p.amount (suffixed p.idempotency_key Suffix.cancel_refund)

  -- The API lets a TICKETED booking be cancelled, and then `cancel` refunds the money at the gateway and raises
  -- IllegalTransition: nothing of it is committed, so the booking keeps its seats, tickets and payment state.
  pub cancel_ticketed :
      (now : ℕ) (booking : Booking) (p : Payment) (w : World G)
      → booking.state ≡ BookingState.ticketed
      → first (refundable booking.id) w.db.payments ≡ some p
      → (asked_refund p w.gateway).0 ≡ done tt
      → let (r, w') = cancel gateway now booking w in
        (require_state booking.state (BookingState.confirmed ∷ BookingState.ticketed ∷ []) ≡ none)
        × (r ≡ raised Exc.illegal_transition)
        × (w'.saved ≡ w.saved)
        × (w'.gateway ≡ (asked_refund p w.gateway).1)
  unfolding cancel refund_booking assert_can_transition require_state
  cancel_ticketed now booking p w st found paid = ground arith

  -- A confirmed booking whose refund is refused is committed as NEEDS_MANUAL_REVIEW, and the call raises
  -- BookingCompensated; the seats and tickets are untouched.
  pub cancel_refused :
      (now : ℕ) (booking : Booking) (p : Payment) (w : World G)
      → first (refundable booking.id) w.db.payments ≡ some p
      → (asked_refund p w.gateway).0 ≡ refund_refused
      → let (r, w') = cancel gateway now booking w in
        (r ≡ raised (Exc.app AppError.booking_compensated))
        × (w'.saved.bookings
            ≡ (save_booking
                (record booking { state = BookingState.needs_manual_review })
                w.db).bookings)
        × (w'.saved.seats ≡ w.db.seats)
        × (w'.saved.tickets ≡ w.db.tickets)
        × (w'.saved ≡ w'.db)
  unfolding cancel refund_booking flag_for_review
  cancel_refused now booking p w found refused = ground arith

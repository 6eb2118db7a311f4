-- ===== src/Saga/Unwind.antt =====
-- `_fail_payment`, `_compensate` and `cancel` of app/services/booking_saga.py: how a booking is undone.
use concurrent_flight_bookin.Prelude.{
  ℕ, ◌+◌, Bool, true, false, ◌&&◌, ◌||◌, Option, none, some, [], ◌∷◌, ◌++◌, Text, ◌==◌,
  if◌then◌else◌, first, update_where,
}
use concurrent_flight_bookin.Errors.{Exc, AppError}
use concurrent_flight_bookin.Domain.Enums.{BookingState, PaymentState, AuditEventType}
use concurrent_flight_bookin.Domain.Models.{Db, Booking, Payment, SeatInventory}
use concurrent_flight_bookin.Domain.States.{assert_can_transition}
use concurrent_flight_bookin.Holds.{belongs_to, release_seats_for_booking}
use concurrent_flight_bookin.Payments.{PaymentGateway, Reply, done, timed_out, refund_refused}
use concurrent_flight_bookin.Payments.Triggers.{Trigger, trigger_for}
use concurrent_flight_bookin.Saga.Session.{
  Action, ok, pure, raise, ◌>>=◌, ◌>>◌, commit, read, modify, call, raise_if_some, save_booking,
  save_payment, journal,
}

-- The seats keep their hold and stop pointing at the booking.
abbrev pub unpinned : SeatInventory → SeatInventory
unpinned seat = record seat { booking_id = none; version = seat.version + 1 }

abbrev pub unpin_seats : ℕ → Db → Db
unpin_seats booking_id db = record db {
  seats = update_where (belongs_to booking_id) unpinned db.seats;
}

abbrev pub is_refund_failure : Trigger → Bool
is_refund_failure Trigger.refund_failure = true
is_refund_failure Trigger.approve = false
is_refund_failure Trigger.decline_insufficient_funds = false
is_refund_failure Trigger.decline_do_not_honor = false
is_refund_failure Trigger.gateway_timeout_then_ok = false
is_refund_failure Trigger.ticketing_failure = false

abbrev pub is_captured : PaymentState → Bool
is_captured PaymentState.captured = true
is_captured PaymentState.pending = false
is_captured PaymentState.authorized = false
is_captured PaymentState.declined = false
is_captured PaymentState.voided = false
is_captured PaymentState.refunded = false
is_captured PaymentState.unknown = false

abbrev pub is_authorized : PaymentState → Bool
is_authorized PaymentState.authorized = true
is_authorized PaymentState.pending = false
is_authorized PaymentState.captured = false
is_authorized PaymentState.declined = false
is_authorized PaymentState.voided = false
is_authorized PaymentState.refunded = false
is_authorized PaymentState.unknown = false

-- The payments that `cancel` looks for.
abbrev pub refundable : ℕ → Payment → Bool
refundable booking_id p =
    p.booking_id == booking_id && (is_captured p.state || is_authorized p.state)

-- `payment.provider_ref or ""`
abbrev pub ref_of : Payment → Text
ref_of p = elim p.provider_ref [ none ↦ [] | some r ↦ r ]

-- `f"{key}:refund"` and its like: the key with its suffix.
pub data Suffix : Type 0 where
  auth cap refund void cancel_refund : Suffix

abbrev pub suffix_text : Suffix → Text
suffix_text Suffix.auth = b':' ∷ b'a' ∷ b'u' ∷ b't' ∷ b'h' ∷ []
suffix_text Suffix.cap = b':' ∷ b'c' ∷ b'a' ∷ b'p' ∷ []
suffix_text Suffix.refund = b':' ∷ b'r' ∷ b'e' ∷ b'f' ∷ b'u' ∷ b'n' ∷ b'd' ∷ []
suffix_text Suffix.void = b':' ∷ b'v' ∷ b'o' ∷ b'i' ∷ b'd' ∷ []
suffix_text Suffix.cancel_refund =
    b':' ∷ b'c' ∷ b'a' ∷ b'n' ∷ b'c' ∷ b'e' ∷ b'l' ∷ b'-' ∷ b'r' ∷ b'e' ∷ b'f' ∷ b'u' ∷ b'n' ∷ b'd'
    ∷ []

abbrev pub suffixed : Text → Suffix → Text
suffixed key s = key ++ suffix_text s

-- The count that `release_seats_for_booking` returns goes into a journal detail and the answer.
abbrev pub released_count : ℕ → ℕ → Db → ℕ
released_count now booking_id db = (release_seats_for_booking now booking_id db).0

abbrev pub release_seats : ℕ → ℕ → Db → Db
release_seats now booking_id db = (release_seats_for_booking now booking_id db).1

module _ {G : Type 0} where
  unfoldable pub fail_payment : Booking → AuditEventType → Action G Booking
  fail_payment booking event = do
    raise_if_some (assert_can_transition booking.state BookingState.payment_failed)
    modify (journal booking.id event (some booking.state) (some BookingState.payment_failed))
    let failed = record booking { state = BookingState.payment_failed }
    modify (save_booking failed)
    modify (unpin_seats booking.id)
    commit
    pure failed

module _ {G : Type 0} (gateway : PaymentGateway G) where
  -- The reversal: a refund of what was captured, a void of what was only authorized.
  unfoldable pub reverse : Payment → Action G (Reply (Unit {0}))
  reverse payment =
      if is_captured payment.state
      then call (
          gateway.refund (ref_of payment) payment.amount
            (suffixed payment.idempotency_key Suffix.refund))
      else call (gateway.void (ref_of payment) (suffixed payment.idempotency_key Suffix.void))

  abbrev pub reversed_state : Payment → PaymentState
  reversed_state p = if is_captured p.state then PaymentState.refunded else PaymentState.voided

  abbrev pub reversed_event : Payment → AuditEventType
  reversed_event p =
      if is_captured p.state then AuditEventType.payment_refunded else AuditEventType.payment_voided

  -- The `except (RefundFailed, PaymentTimeout)` branch.
  unfoldable pub compensation_failed : ℕ → Booking → Action G Booking
  compensation_failed now booking = do
    modify (
        journal booking.id AuditEventType.compensation_failed (some booking.state)
          (some BookingState.needs_manual_review))
    let review = record booking { state = BookingState.needs_manual_review }
    modify (save_booking review)
    modify (release_seats now booking.id)
    modify (journal booking.id AuditEventType.seats_released none none)
    commit
    pure review

  unfoldable pub compensation_done : ℕ → Booking → Payment → Action G Booking
  compensation_done now booking payment = do
    modify (save_payment (record payment { state = reversed_state payment }))
    modify (journal booking.id (reversed_event payment) none none)
    modify (release_seats now booking.id)
    modify (journal booking.id AuditEventType.seats_released none none)
    raise_if_some (assert_can_transition booking.state BookingState.voided)
    let void_booking = record booking { state = BookingState.voided }
    modify (save_booking void_booking)
    commit
    pure void_booking

  abbrev pub after_reversal : ℕ → Booking → Payment → Reply (Unit {0}) → Action G Booking
  after_reversal now booking payment (done _) = compensation_done now booking payment
  after_reversal now booking payment timed_out = compensation_failed now booking
  after_reversal now booking payment refund_refused = compensation_failed now booking

  unfoldable pub compensate : ℕ → Booking → Payment → Text → Action G Booking
  compensate now booking payment card_token = do
    raise_if_some (assert_can_transition booking.state BookingState.compensating)
    modify (
        journal booking.id AuditEventType.compensation_started (some booking.state)
          (some BookingState.compensating))
    let undoing = record booking { state = BookingState.compensating }
    modify (save_booking undoing)
    commit
    (λ w. (
      ok tt,
      if is_refund_failure (trigger_for card_token)
          then record w { gateway = gateway.arm_refund_failure (ref_of payment) w.gateway }
          else w,
    ))
    reply ← reverse payment
    after_reversal now undoing payment reply

  -- The refund of a cancellation answers true when money went back; a refusal leaves the booking for an operator.
  unfoldable pub flag_for_review : Booking → Action G Bool
  flag_for_review booking = do
    modify (
        journal booking.id AuditEventType.compensation_failed (some booking.state)
          (some BookingState.needs_manual_review))
    modify (save_booking (record booking { state = BookingState.needs_manual_review }))
    commit
    raise (Exc.app AppError.booking_compensated)

  abbrev pub after_refund : Booking → Payment → Reply (Unit {0}) → Action G Bool
  after_refund booking payment (done _) =
      modify (save_payment (record payment { state = PaymentState.refunded })) >> pure true
  after_refund booking payment timed_out = flag_for_review booking
  after_refund booking payment refund_refused = flag_for_review booking

  unfoldable pub refund_booking : Booking → Option Payment → Action G Bool
  refund_booking booking none = pure false
  refund_booking booking (some payment) = do
    reply ← call (
        gateway.refund (ref_of payment) payment.amount
          (suffixed payment.idempotency_key Suffix.cancel_refund))
    after_refund booking payment reply

  unfoldable pub cancel : ℕ → Booking → Action G (Booking × Bool × ℕ)
  cancel now booking = do
    payment ← read (λ db. first (refundable booking.id) db.payments)
    refunded ← refund_booking booking payment
    released ← read (released_count now booking.id)
    modify (release_seats now booking.id)
    raise_if_some (assert_can_transition booking.state BookingState.cancelled)
    modify (
        journal booking.id AuditEventType.booking_cancelled (some booking.state)
          (some BookingState.cancelled))
    let gone = record booking { state = BookingState.cancelled }
    modify (save_booking gone)
    commit
    pure (gone, refunded, released)

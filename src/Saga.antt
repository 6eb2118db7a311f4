-- ===== src/Saga.antt =====
-- `run` of app/services/booking_saga.py: hold, charge, issue tickets, confirm. What fraud control decides and what the
-- random generators draw are arguments, and so is `others`: what the other sessions commit while the gateway is asked.
pub mod Session
pub mod Begin
pub mod Ticketing
pub mod Unwind
pub mod Cancelling
pub mod Charge
pub mod Beginning
pub mod Verified
pub mod Recheck
pub mod Reversal
pub mod Steps
pub mod Ending
pub mod Standing
pub mod Settling
pub mod Guarded
pub mod Journal
pub mod Locking
pub mod Ordering
pub mod Oversell
pub mod Clash
mod Sample
mod Tests
use concurrent_flight_bookin.Prelude.{
  ℕ, Bool, true, false, Option, none, some, List, [], ◌∷◌, Text, if◌then◌else◌,
}
use concurrent_flight_bookin.Errors.{Exc, AppError}
use concurrent_flight_bookin.Domain.Enums.{BookingState, PaymentState, AuditEventType, Decision}
use concurrent_flight_bookin.Domain.Models.{Db, Booking, Payment}
use concurrent_flight_bookin.Domain.States.{assert_can_transition}
use concurrent_flight_bookin.Payments.{
  PaymentGateway, AuthorizationResult, Reply, done, timed_out, refund_refused,
}
use Session.{
  World, Action, Outcome, ok, raised, pure, raise, ◌>>=◌, ◌>>◌, commit, read, modify, call,
  raise_if_some, save_booking, save_payment, journal,
}
use Begin.{Draws, BookingCreate, Begun, begin_booking}
use Ticketing.{issue_tickets}
use Unwind.{fail_payment, compensate, suffixed, Suffix}

-- The row of the charge, before it is asked for.
abbrev pub new_payment : Draws → Booking → Text → Text → Payment
new_payment draws booking card_token fingerprint = record {
  id = draws.payment_id;
  booking_id = booking.id;
  provider_ref = none;
  card_token = card_token;
  card_fingerprint = fingerprint;
  amount = booking.total_amount;
  currency = booking.currency;
  state = PaymentState.pending;
  failure_code = none;
  idempotency_key = suffixed booking.idempotency_key Suffix.auth;
}

abbrev pub add_payment : Payment → Db → Db
add_payment p db = record db { payments = p ∷ db.payments }

abbrev pub is_block : Decision → Bool
is_block Decision.block = true
is_block Decision.allow = false
is_block Decision.challenge = false

-- What other sessions write between the charge and the tickets.
abbrev pub meanwhile : {G : Type 0} → (Db → Db) → Action G (Unit {0})
meanwhile others w = (ok tt, record w { db = others w.db; saved = others w.db })

module _ {G : Type 0} (gateway : PaymentGateway G) where
  abbrev pub ask : Payment → Text → Action G (Reply AuthorizationResult)
  ask payment drawn = call (
      gateway.authorize payment.card_token payment.amount payment.currency drawn
        payment.idempotency_key)

  -- The answer to the retry: a second timeout is not caught.
  abbrev pub after_retry :
      Payment → Reply AuthorizationResult → Action G (Payment × AuthorizationResult)
  after_retry payment (done r) = pure (payment, r)
  after_retry payment timed_out = raise Exc.payment_timeout
  after_retry payment refund_refused = raise Exc.refund_failed

  -- After a timeout the same key is asked once more.
  abbrev pub after_authorize :
      Draws
      → Booking
      → Payment
      → Reply AuthorizationResult
      → Action G (Payment × AuthorizationResult)
  after_authorize draws booking payment (done r) = pure (payment, r)
  after_authorize draws booking payment refund_refused = raise Exc.refund_failed
  after_authorize draws booking payment timed_out = do
    let unknown = record payment { state = PaymentState.unknown }
    modify (save_payment unknown)
    modify (journal booking.id AuditEventType.payment_unknown none none)
    commit
    again ← ask unknown draws.retry_ref
    after_retry unknown again

  unfoldable pub charge : Draws → Booking → Payment → Action G (Payment × AuthorizationResult)
  charge draws booking payment = do
    reply ← ask payment draws.provider_ref
    after_authorize draws booking payment reply

  -- A decline, or the record of the authorization.
  unfoldable pub settle : Booking → Payment → AuthorizationResult → Action G (Booking × Payment)
  settle booking payment r =
      if r.approved
      then (do
        let authorized = record payment {
          state = PaymentState.authorized;
          provider_ref = some r.provider_ref;
        }
        modify (save_payment authorized)
        raise_if_some (assert_can_transition booking.state BookingState.payment_authorized)
        modify (
            journal booking.id AuditEventType.payment_authorized (some booking.state)
              (some BookingState.payment_authorized))
        let paid = record booking { state = BookingState.payment_authorized }
        modify (save_booking paid)
        commit
        pure (paid, authorized))
      else (do
        modify (
            save_payment (record payment {
              state = PaymentState.declined;
              provider_ref = some r.provider_ref;
              failure_code = r.failure_code;
            }))
        fail_payment booking AuditEventType.payment_declined
        raise (Exc.app AppError.payment_declined))

  -- The answer of a call that no handler stands around.
  abbrev pub answer_of : {A : Type 0} → Reply A → Action G A
  answer_of (done r) = pure r
  answer_of timed_out = raise Exc.payment_timeout
  answer_of refund_refused = raise Exc.refund_failed

  unfoldable pub confirm : Booking → Payment → Text → Action G Booking
  confirm booking payment provider_ref = do
    captured ← call (gateway.capture provider_ref (suffixed payment.idempotency_key Suffix.cap))
    answer_of captured
    modify (save_payment (record payment { state = PaymentState.captured }))
    raise_if_some (assert_can_transition booking.state BookingState.confirmed)
    modify (
        journal booking.id AuditEventType.booking_confirmed (some booking.state)
          (some BookingState.confirmed))
    let confirmed = record booking { state = BookingState.confirmed }
    modify (save_booking confirmed)
    commit
    pure confirmed

  -- `except (TicketingFailed, SeatUnavailable)`: compensate and answer 409; anything else goes on.
  abbrev pub recover : ℕ → Booking → Payment → Text → Outcome Booking → Action G Booking
  recover now booking payment card_token (ok ticketed) = pure ticketed
  recover now booking payment card_token (raised Exc.ticketing_failed) =
      compensate gateway now booking payment card_token
      >> raise (Exc.app AppError.booking_compensated)
  recover now booking payment card_token (raised (Exc.app AppError.seat_unavailable)) =
      compensate gateway now booking payment card_token
      >> raise (Exc.app AppError.booking_compensated)
  recover now booking payment card_token (raised e) = raise e

  -- `try: m` with the outcome as a value.
  abbrev pub attempt : {A : Type 0} → Action G A → Action G (Outcome A)
  attempt m w = let (r, w') = m w in (ok r, w')

  -- Steps 4 and 5: the tickets, or the compensation, and the confirmation.
  abbrev pub fulfil :
      Draws
      → ℕ
      → BookingCreate
      → (Db → Db)
      → Begun
      → AuthorizationResult
      → Booking × Payment
      → Action G Booking
  fulfil draws user_id payload others begun answer settled = do
    meanwhile others
    tried ← attempt (
        issue_tickets draws.ticketed_at settled.0 begun.rows begun.seats user_id payload.card_token
          draws.ticket)
    ticketed ← recover draws.ticketed_at settled.0 settled.1 payload.card_token tried
    confirm ticketed settled.1 answer.provider_ref

  -- What follows the gateway's answer.
  abbrev pub collect :
      Draws
      → ℕ
      → BookingCreate
      → (Db → Db)
      → Begun
      → Payment × AuthorizationResult
      → Action G Booking
  collect draws user_id payload others begun answer = do
    settled ← settle begun.booking answer.0 answer.1
    fulfil draws user_id payload others begun answer.1 settled

  -- Steps 3 to 5.
  abbrev pub pay : Draws → ℕ → BookingCreate → Text → (Db → Db) → Begun → Action G Booking
  pay draws user_id payload fingerprint others begun = do
    let payment = new_payment draws begun.booking payload.card_token fingerprint
    modify (add_payment payment)
    commit
    answer ← charge draws begun.booking payment
    collect draws user_id payload others begun answer

  -- Steps 2 to 5, from the booking that step 1 made.
  unfoldable pub continue :
      Draws → ℕ → BookingCreate → Text → Decision → (Db → Db) → Begun → Action G Booking
  continue draws user_id payload fingerprint decision others begun = do
    (if is_block decision
        then (fail_payment begun.booking AuditEventType.payment_declined
            >> raise (Exc.app AppError.payment_blocked))
        else pure tt)
    pay draws user_id payload fingerprint others begun

  unfoldable pub run :
      Draws → ℕ → BookingCreate → Text → Text → Decision → (Db → Db) → Action G Booking
  run draws user_id payload idempotency_key fingerprint decision others = do
    begun ← begin_booking draws user_id payload idempotency_key
    continue draws user_id payload fingerprint decision others begun

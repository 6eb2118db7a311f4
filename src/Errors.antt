-- ===== src/Errors.antt =====
-- The errors of app/errors.py, and the other exceptions that the booking services can raise.
use concurrent_flight_bookin.Prelude.{ℕ}

-- The subclasses of AppError; a message and its extra fields are left out.
pub data AppError : Type 0 where
  invalid_credentials account_locked invalid_token token_reuse_detected : AppError
  email_already_registered forbidden not_found : AppError
  seat_unavailable hold_expired hold_not_owned too_many_holds : AppError
  payment_declined booking_compensated request_in_flight idempotency_key_reused : AppError
  invalid_state_transition rate_limited payment_blocked : AppError

-- `status_code` of each class.
unfoldable pub status_code : AppError → ℕ
status_code AppError.invalid_credentials = 401
status_code AppError.account_locked = 423
status_code AppError.invalid_token = 401
status_code AppError.token_reuse_detected = 401
status_code AppError.email_already_registered = 409
status_code AppError.forbidden = 403
status_code AppError.not_found = 404
status_code AppError.seat_unavailable = 409
status_code AppError.hold_expired = 409
status_code AppError.hold_not_owned = 404
status_code AppError.too_many_holds = 409
status_code AppError.payment_declined = 402
status_code AppError.booking_compensated = 409
status_code AppError.request_in_flight = 409
status_code AppError.idempotency_key_reused = 422
status_code AppError.invalid_state_transition = 409
status_code AppError.rate_limited = 429
status_code AppError.payment_blocked = 403

-- What a call raises: an AppError, or an exception that the API answers with a 500.
pub data Exc : Type 0 where
  app : AppError → Exc
  illegal_transition payment_timeout refund_failed ticketing_failed : Exc
  integrity_error no_unique_pnr zip_length : Exc

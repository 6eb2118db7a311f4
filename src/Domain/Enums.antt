-- ===== src/Domain/Enums.antt =====
-- app/domain/enums.py.
use concurrent_flight_bookin.Prelude.{ℕ, Bool, List, [], ◌∷◌, ◌==◌}

pub data SeatStatus : Type 0 where
  available held booked : SeatStatus

pub data BookingState : Type 0 where
  pending payment_authorized ticketed confirmed payment_failed : BookingState
  compensating voided cancelled needs_manual_review : BookingState

pub data PaymentState : Type 0 where
  pending authorized captured declined voided refunded unknown : PaymentState

pub data AuditEventType : Type 0 where
  booking_created seats_locked payment_authorized payment_declined payment_unknown : AuditEventType
  tickets_issued ticketing_failed booking_confirmed compensation_started : AuditEventType
  payment_voided payment_refunded compensation_failed seats_released : AuditEventType
  hold_lost booking_cancelled passenger_updated : AuditEventType

pub data IdempotencyState : Type 0 where
  in_progress completed : IdempotencyState

pub data Decision : Type 0 where
  allow challenge block : Decision

pub data Severity : Type 0 where
  info low medium high critical : Severity

pub data SecurityEventType : Type 0 where
  login_succeeded login_failed account_locked registered : SecurityEventType
  refresh_rotated refresh_reuse_detected refresh_rejected : SecurityEventType
  authz_denied rate_limited carding_suspected carding_blocked payment_declined : SecurityEventType
  idempotency_key_reused validation_rejected manual_review_required : SecurityEventType

-- Equality of states, by their place in the enumeration.
abbrev pub seat_index : SeatStatus → ℕ
seat_index SeatStatus.available = 0
seat_index SeatStatus.held = 1
seat_index SeatStatus.booked = 2

abbrev pub seat_is : SeatStatus → SeatStatus → Bool
seat_is a b = seat_index a == seat_index b

abbrev pub booking_index : BookingState → ℕ
booking_index BookingState.pending = 0
booking_index BookingState.payment_authorized = 1
booking_index BookingState.ticketed = 2
booking_index BookingState.confirmed = 3
booking_index BookingState.payment_failed = 4
booking_index BookingState.compensating = 5
booking_index BookingState.voided = 6
booking_index BookingState.cancelled = 7
booking_index BookingState.needs_manual_review = 8

abbrev pub booking_is : BookingState → BookingState → Bool
booking_is a b = booking_index a == booking_index b

-- TERMINAL_BOOKING_STATES
unfoldable pub terminal_booking_states : List BookingState
terminal_booking_states =
    BookingState.confirmed ∷ BookingState.payment_failed ∷ BookingState.voided
    ∷ BookingState.cancelled ∷ BookingState.needs_manual_review ∷ []

-- ALLOWED_TRANSITIONS
unfoldable pub allowed_transitions : BookingState → List BookingState
allowed_transitions BookingState.pending =
    BookingState.payment_authorized ∷ BookingState.payment_failed ∷ BookingState.compensating ∷ []
allowed_transitions BookingState.payment_authorized =
    BookingState.ticketed ∷ BookingState.compensating ∷ []
allowed_transitions BookingState.ticketed = BookingState.confirmed ∷ BookingState.compensating ∷ []
allowed_transitions BookingState.confirmed = BookingState.cancelled ∷ []
allowed_transitions BookingState.compensating =
    BookingState.voided ∷ BookingState.needs_manual_review ∷ []
allowed_transitions BookingState.payment_failed = []
allowed_transitions BookingState.voided = []
allowed_transitions BookingState.cancelled = []
allowed_transitions BookingState.needs_manual_review =
    BookingState.voided ∷ BookingState.cancelled ∷ []

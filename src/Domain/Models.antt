-- ===== src/Domain/Models.antt =====
-- app/domain/models.py: the rows of the tables that the services read and write. A UUID is a number, a text the list of
-- its code points, a timestamp a number of microseconds, and a NUMERIC(12,2) a number of cents.
use concurrent_flight_bookin.Prelude.{ℕ, Bool, Option, List, Text, not, ◌||◌, ◌&&◌, is_null}
use concurrent_flight_bookin.Domain.Enums.{
  SeatStatus, seat_is, BookingState, PaymentState, AuditEventType, IdempotencyState,
  SecurityEventType, Severity,
}

-- The columns of `users` that the services use.
pub record User : Type 0 where
  pub id : ℕ
  pub email : Text
  pub password_hash : Text
  pub is_admin : Bool
  pub is_active : Bool
  pub failed_login_count : ℕ
  pub locked_until : Option ℕ

pub record RefreshToken : Type 0 where
  pub id : ℕ
  pub family_id : ℕ
  pub user_id : ℕ
  pub token_hash : Text
  pub parent_id : Option ℕ
  pub used_at : Option ℕ
  pub revoked_at : Option ℕ
  pub expires_at : ℕ

pub record Flight : Type 0 where
  pub id : ℕ
  pub flight_no : Text
  pub airline_iata : Text
  pub src_iata : Text
  pub dst_iata : Text
  pub depart_at : ℕ
  pub arrive_at : ℕ
  pub aircraft_type : Text
  pub base_fare : ℕ
  pub currency : Text

pub record Airline : Type 0 where
  pub iata : Text
  pub name : Text

pub record SeatInventory : Type 0 where
  pub id : ℕ
  pub flight_id : ℕ
  pub seat_no : Text
  pub row_no : ℕ
  pub seat_letter : ℕ
  pub price : ℕ
  pub status : SeatStatus
  pub held_by_user_id : Option ℕ
  pub hold_id : Option ℕ
  pub hold_expires_at : Option ℕ
  pub booking_id : Option ℕ
  pub version : ℕ

pub record Booking : Type 0 where
  pub id : ℕ
  pub ref : Text
  pub user_id : ℕ
  pub flight_id : ℕ
  pub state : BookingState
  pub total_amount : ℕ
  pub currency : Text
  pub idempotency_key : Text

pub record BookingPassenger : Type 0 where
  pub id : ℕ
  pub booking_id : ℕ
  pub given_name : Text
  pub family_name : Text
  pub passport_last4 : Option Text
  pub seat_inventory_id : Option ℕ

pub record Payment : Type 0 where
  pub id : ℕ
  pub booking_id : ℕ
  pub provider_ref : Option Text
  pub card_token : Text
  pub card_fingerprint : Text
  pub amount : ℕ
  pub currency : Text
  pub state : PaymentState
  pub failure_code : Option Text
  pub idempotency_key : Text

pub record Ticket : Type 0 where
  pub id : ℕ
  pub booking_id : ℕ
  pub passenger_id : ℕ
  pub seat_inventory_id : ℕ
  pub e_ticket_no : Text
  pub voided_at : Option ℕ

pub record BookingAudit : Type 0 where
  pub booking_id : ℕ
  pub seq : ℕ
  pub event_type : AuditEventType
  pub from_state : Option BookingState
  pub to_state : Option BookingState

pub record IdempotencyKey : Type 0 where
  pub key : Text
  pub user_id : ℕ
  pub endpoint : Text
  pub request_hash : Text
  pub state : IdempotencyState
  pub response_status : Option ℕ
  pub response_body : Option Text
  pub expires_at : ℕ

-- What an event says, less the request's fields and the JSON detail.
pub record SecurityEvent : Type 0 where
  pub event_type : SecurityEventType
  pub severity : Severity
  pub actor_user_id : Option ℕ

-- The tables of one database.
pub record Db : Type 0 where
  pub flights : List Flight
  pub seats : List SeatInventory
  pub bookings : List Booking
  pub passengers : List BookingPassenger
  pub payments : List Payment
  pub tickets : List Ticket
  pub audit : List BookingAudit

-- The CHECK constraints of `seat_inventory`.
abbrev pub ck_held_seat_has_holder : SeatInventory → Bool
ck_held_seat_has_holder s =
    not (seat_is s.status SeatStatus.held)
    || (not (is_null s.held_by_user_id)
        && not (is_null s.hold_expires_at)
        && not (is_null s.hold_id))

abbrev pub ck_booked_seat_has_booking : SeatInventory → Bool
ck_booked_seat_has_booking s =
    not (seat_is s.status SeatStatus.booked) || not (is_null s.booking_id)

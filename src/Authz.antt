-- ===== src/Authz.antt =====
-- app/security/authz.py: the queries that find a booking or a hold of the caller's, and the denial that they log.
pub mod Hiding
pub mod Finding
mod Tests
use concurrent_flight_bookin.Prelude.{
  ℕ, Bool, true, ◌&&◌, Option, none, some, List, [], ◌∷◌, Text, ◌==◌, same, is_eq, first, length,
  if◌then◌else◌,
}
use concurrent_flight_bookin.Errors.{AppError}
use concurrent_flight_bookin.Domain.Enums.{SecurityEventType, Severity}
use concurrent_flight_bookin.Domain.Models.{Booking, SeatInventory, SecurityEvent}
use concurrent_flight_bookin.Domain.Pnr.{has_char, pnr_alphabet}
use concurrent_flight_bookin.Holds.{upper}

-- The row, or NotFound with the event that is logged.
pub data Owned (A : Type 0) : Type 0 where
  found : A → Owned A
  denied : AppError → SecurityEvent → Owned A

abbrev pub denial : ℕ → SecurityEvent
denial user_id = record {
  event_type = SecurityEventType.authz_denied;
  severity = Severity.medium;
  actor_user_id = some user_id;
}

abbrev pub or_deny : {A : Type 0} → ℕ → Option A → Owned A
or_deny user_id none = denied AppError.not_found (denial user_id)
or_deny user_id (some x) = found x

-- The pattern of `BookingRef`: six characters of the alphabet of record locators, which has capitals only.
abbrev pub all_in : Text → Text → Bool
all_in alphabet [] = true
all_in alphabet (c ∷ cs) = has_char c alphabet && all_in alphabet cs

abbrev pub is_booking_ref : Text → Bool
is_booking_ref ref = length ref == 6 && all_in pnr_alphabet ref

abbrev pub is_owned_booking : ℕ → Text → Booking → Bool
is_owned_booking user_id ref b = same b.ref (upper ref) && b.user_id == user_id

-- A path that does not match the pattern is answered 422 and asks the table nothing: no row, no denial.
unfoldable pub owned_booking : ℕ → Text → List Booking → Option (Owned Booking)
owned_booking user_id ref bookings =
    if is_booking_ref ref
    then some (or_deny user_id (first (is_owned_booking user_id ref) bookings))
    else none

abbrev pub is_owned_hold : ℕ → ℕ → SeatInventory → Bool
is_owned_hold user_id hold_id s = is_eq s.hold_id hold_id && is_eq s.held_by_user_id user_id

unfoldable pub owned_hold : ℕ → ℕ → List SeatInventory → Owned SeatInventory
owned_hold user_id hold_id seats = or_deny user_id (first (is_owned_hold user_id hold_id) seats)

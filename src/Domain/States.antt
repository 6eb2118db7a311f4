-- ===== src/Domain/States.antt =====
-- app/domain/states.py: the guards of the booking state machine.
use concurrent_flight_bookin.Prelude.{
  Bool, false, List, [], ◌∷◌, ◌||◌, Option, none, some, if◌then◌else◌,
}
use concurrent_flight_bookin.Errors.{Exc, AppError}
use concurrent_flight_bookin.Domain.Enums.{BookingState, booking_is, allowed_transitions}

-- `state in states`
abbrev pub one_of : BookingState → List BookingState → Bool
one_of s [] = false
one_of s (t ∷ ts) = booking_is s t || one_of s ts

-- What is raised, if anything.
unfoldable pub assert_can_transition : BookingState → BookingState → Option Exc
unfolding allowed_transitions
assert_can_transition current target =
    if one_of target (allowed_transitions current) then none else some Exc.illegal_transition

unfoldable pub require_state : BookingState → List BookingState → Option Exc
require_state current expected =
    if one_of current expected then none else some (Exc.app AppError.invalid_state_transition)

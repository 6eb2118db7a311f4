-- ===== src/Authz/Tests.antt =====
-- A booking that is someone else's.
use concurrent_flight_bookin.Prelude.{
  ℕ, ◌≡◌, refl, arith, same, some, [], ◌∷◌, ◌==◌, is_eq, select, List, Text,
}
use concurrent_flight_bookin.Domain.Enums.{BookingState}
use concurrent_flight_bookin.Domain.Models.{Booking, SeatInventory}
use concurrent_flight_bookin.Authz.{found, owned_booking, owned_hold}
use concurrent_flight_bookin.Authz.Finding.{generate_pnr-owned_booking}
use concurrent_flight_bookin.Domain.Pnr.{IsChoice, generate_pnr}
use concurrent_flight_bookin.Authz.Hiding.{owned-own}

abbrev ref : Text
ref = b'K' ∷ b'7' ∷ b'R' ∷ b'2' ∷ b'M' ∷ b'Q' ∷ []

abbrev theirs : Booking
theirs = record {
  id = 80;
  ref = ref;
  user_id = 5;
  flight_id = 7;
  state = BookingState.confirmed;
  total_amount = 12500;
  currency = [];
  idempotency_key = [];
}

abbrev bookings : List Booking
bookings = theirs ∷ record theirs { id = 81; ref = b'K' ∷ b'8' ∷ []; user_id = 4 } ∷ []

abbrev seats : List SeatInventory
seats = []

owned-own_example :
    (owned_booking 4 ref bookings ≡ owned_booking 4 ref (select (λ b. b.user_id == 4) bookings))
    × (owned_hold 4 9 seats ≡ owned_hold 4 9 (select (λ s. is_eq s.held_by_user_id 4) seats))
owned-own_example = owned-own 4 9 ref bookings seats

-- A generator that draws the first character each time: the locator is "222222".
abbrev draw_first : Text → ℕ → ℕ
draw_first [] i = 0
draw_first (c ∷ cs) i = c

draw_first-IsChoice : IsChoice draw_first
draw_first-IsChoice c cs i = ground arith

abbrev drawn : Text
drawn = b'2' ∷ b'2' ∷ b'2' ∷ b'2' ∷ b'2' ∷ b'2' ∷ []

abbrev located : Booking
located = record theirs { id = 82; ref = drawn }

generate_pnr-owned_booking_example :
    owned_booking 5 drawn (theirs ∷ located ∷ []) ≡ some (found located)
unfolding generate_pnr same
generate_pnr-owned_booking_example =
    generate_pnr-owned_booking draw_first draw_first-IsChoice located (theirs ∷ located ∷ []) refl
      refl

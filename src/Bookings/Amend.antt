-- ===== src/Bookings/Amend.antt =====
-- PATCH /bookings/{ref}: what an amendment can change.
use concurrent_flight_bookin.Prelude.{
  ℕ, ◌≡◌, ◌≢◌, refl, ◌∙◌, ◌⊎◌, inl, inr, Bool, not, Option, List, [], ◌∷◌, map, Text, arith, ◌==◌,
  Bool-cases, select, update_where, select-update_where,
}
use concurrent_flight_bookin.Errors.{Exc, AppError}
use concurrent_flight_bookin.Domain.Enums.{BookingState}
use concurrent_flight_bookin.Domain.Models.{Booking, BookingPassenger}
use concurrent_flight_bookin.Domain.States.{require_state, one_of}
use concurrent_flight_bookin.Saga.Session.{World, ok, raised}
use concurrent_flight_bookin.Bookings.{
  PassengerUpdate, amended, is_passenger, amend_all, amendable, update_booking,
}

abbrev pub of_other : ℕ → BookingPassenger → Bool
of_other booking_id p = not (p.booking_id == booking_id)

amend_all-others :
    (booking_id : ℕ) (us : List PassengerUpdate) (rows : List BookingPassenger)
    → select (of_other booking_id) (amend_all booking_id us rows).0
      ≡ select (of_other booking_id) rows
unfolding amend_all
amend_all-others booking_id [] rows = refl
amend_all-others booking_id (u ∷ us) rows =
    amend_all-others booking_id us _
    ∙ select-update_where (of_other booking_id) (is_passenger booking_id u.passenger_id) (amended u)
        rows (λ p h. ground arith)

-- What an amendment never changes of a passenger.
abbrev pub fixed : BookingPassenger → ℕ × ℕ × Option Text × Option ℕ
fixed p = (p.id, p.booking_id, p.passport_last4, p.seat_inventory_id)

map-update_where :
    (p : BookingPassenger → Bool) (u : PassengerUpdate) (rows : List BookingPassenger)
    → map fixed (update_where p (amended u) rows) ≡ map fixed rows
map-update_where p u [] = refl
map-update_where p u (x ∷ rows) = ground (arith, map-update_where p u rows)

amend_all-fixed :
    (booking_id : ℕ) (us : List PassengerUpdate) (rows : List BookingPassenger)
    → map fixed (amend_all booking_id us rows).0 ≡ map fixed rows
unfolding amend_all
amend_all-fixed booking_id [] rows = refl
amend_all-fixed booking_id (u ∷ us) rows =
    amend_all-fixed booking_id us _
    ∙ map-update_where (is_passenger booking_id u.passenger_id) u rows

-- An amendment either is refused, for a booking that is neither CONFIRMED nor TICKETED, and changes nothing; or it commits, and then
-- whatever ids the request names, the passengers of other bookings are as they were, every passenger keeps the id, the
-- booking, the passport digits and the seat, and no other table but the journal is touched.
pub update_booking-Kept :
    {G : Type 0} (booking : Booking) (us : List PassengerUpdate) (w : World G)
    → let (r, w') = update_booking booking us w in
      ((r ≡ raised (Exc.app AppError.invalid_state_transition))
        × (w' ≡ w)
        × (booking.state ≢ BookingState.confirmed)
        × (booking.state ≢ BookingState.ticketed))
      ⊎ ((r ≡ ok tt)
          × (w'.saved ≡ w'.db)
          × (select (of_other booking.id) w'.db.passengers
              ≡ select (of_other booking.id) w.db.passengers)
          × (map fixed w'.db.passengers ≡ map fixed w.db.passengers)
          × (w'.db ≡ record w.db { passengers = w'.db.passengers; audit = w'.db.audit })
          × (w'.gateway ≡ w.gateway))
unfolding update_booking require_state
update_booking-Kept booking us w = elim (Bool-cases (one_of booking.state amendable)) [
  | inl open' ↦ inr (
    ground arith,
    ground arith,
    ground (arith, amend_all-others booking.id us w.db.passengers),
    ground (arith, amend_all-fixed booking.id us w.db.passengers),
    ground arith,
    ground arith,
  )
  | inr shut ↦ inl (ground arith, ground arith, ground arith, ground arith)
]

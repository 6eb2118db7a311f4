-- ===== src/Holds/Sweep.antt =====
-- What the sweep of app/jobs/sweep.py may and may not change.
use concurrent_flight_bookin.Prelude.{
  ℕ, ◌≤◌, ◌≡◌, not, ◌&&◌, List, [], ◌∷◌, arith, count_where, select, select-update_where,
  count-update_where, is_null, refl, Bool,
}
use concurrent_flight_bookin.Domain.Models.{SeatInventory}
use concurrent_flight_bookin.Holds.{
  sweep_expired_holds, sweepable, takeable, freed, active_hold, count_active_holds,
}

-- At the time of the sweep and at every later time the sweep leaves the number of seats that can be taken as it is, for
-- every part of the table that is picked by columns which the sweep does not write, here by flight.
pub sweep-takeable :
    (now later : ℕ) (part : SeatInventory → Bool) (seats : List SeatInventory)
    → ((s : SeatInventory) → part (freed s) ≡ part s)
    → now ≤ later
    → count_where (λ s. part s && takeable later s) (sweep_expired_holds now seats).1
      ≡ count_where (λ s. part s && takeable later s) seats
unfolding sweep_expired_holds
sweep-takeable now later part seats kept h =
    count-update_where (λ s. part s && takeable later s) (sweepable now) freed seats
      (λ s e. ground (arith, kept s))

-- The sweep leaves every user's number of active holds as it is, now and later.
sweep-active_holds :
    (now later user_id : ℕ) (seats : List SeatInventory)
    → now ≤ later
    → count_active_holds later user_id (sweep_expired_holds now seats).1
      ≡ count_active_holds later user_id seats
unfolding sweep_expired_holds count_active_holds
sweep-active_holds now later user_id seats h =
    count-update_where (active_hold later user_id) (sweepable now) freed seats (λ s e. ground arith)

-- The sweep leaves the rows that are attached to a booking as they are, in every column.
sweep-attached :
    (now : ℕ) (seats : List SeatInventory)
    → select (λ s. not (is_null s.booking_id)) (sweep_expired_holds now seats).1
      ≡ select (λ s. not (is_null s.booking_id)) seats
unfolding sweep_expired_holds
sweep-attached now seats =
    select-update_where (λ s. not (is_null s.booking_id)) (sweepable now) freed seats
      (λ s e. ground arith)

-- A second sweep at the same time finds nothing to release.
pub sweep_again :
    (now : ℕ) (seats : List SeatInventory)
    → (sweep_expired_holds now (sweep_expired_holds now seats).1).0 ≡ 0
unfolding sweep_expired_holds
sweep_again now [] = refl
sweep_again now (s ∷ seats) = ground (arith, sweep_again now seats)

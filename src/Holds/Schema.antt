-- ===== src/Holds/Schema.antt =====
-- The CHECK constraints of `seat_inventory` under the statements of the hold service, one call and whole histories.
use concurrent_flight_bookin.Prelude.{
  ℕ, ◌≡◌, refl, List, [], ◌∷◌, Option, arith, All, Text, true, select, All-update_where, ◌&&◌, some,
  select-update_where, ◌∙◌,
}
use concurrent_flight_bookin.Config.{Settings}
use concurrent_flight_bookin.Domain.Enums.{SeatStatus, seat_is}
use concurrent_flight_bookin.Domain.Models.{
  SeatInventory, Db, ck_held_seat_has_holder, ck_booked_seat_has_booking,
}
use concurrent_flight_bookin.Holds.{
  take_seat, acquire_hold, release_hold, sweep_expired_holds, release_seats_for_booking, takeable,
  is_seat, held_for, freed, releasable, sweepable, belongs_to, returned,
}

-- Both constraints hold of a row.
abbrev pub IsConsistent : SeatInventory → Type 0
IsConsistent s = (ck_held_seat_has_holder s ≡ true) × (ck_booked_seat_has_booking s ≡ true)

pub take_seat-IsConsistent :
    (now expires hold_id user_id flight_id : ℕ) (seat_no : Text) (seats : List SeatInventory)
    → All IsConsistent seats
    → All IsConsistent (take_seat now expires hold_id user_id flight_id seat_no seats).1
unfolding take_seat
take_seat-IsConsistent now expires hold_id user_id flight_id seat_no seats h = ground (
  arith,
  All-update_where IsConsistent (λ s. is_seat flight_id seat_no s && takeable now s)
      (held_for user_id hold_id expires) seats (λ s t c. (refl, refl)) h,
)

pub acquire_hold-IsConsistent :
    (settings : Settings) (now hold_id user_id flight_id : ℕ) (seat_no : Text) (ttl : Option ℕ)
    (seats : List SeatInventory)
    → All IsConsistent seats
    → All IsConsistent (acquire_hold settings now hold_id user_id flight_id seat_no ttl seats).1
unfolding acquire_hold
acquire_hold-IsConsistent settings now hold_id user_id flight_id seat_no ttl seats h =
    grind (arith, take_seat-IsConsistent)

pub release_hold-IsConsistent :
    (hold_id : ℕ) (user_id : Option ℕ) (seats : List SeatInventory)
    → All IsConsistent seats
    → All IsConsistent (release_hold hold_id user_id seats).1
unfolding release_hold
release_hold-IsConsistent hold_id user_id seats h =
    All-update_where IsConsistent (releasable hold_id user_id) freed seats (λ s t c. (refl, refl)) h

pub sweep-IsConsistent :
    (now : ℕ) (seats : List SeatInventory)
    → All IsConsistent seats
    → All IsConsistent (sweep_expired_holds now seats).1
unfolding sweep_expired_holds
sweep-IsConsistent now seats h =
    All-update_where IsConsistent (sweepable now) freed seats (λ s t c. (refl, refl)) h

pub release_seats-IsConsistent :
    (now booking_id : ℕ) (db : Db)
    → All IsConsistent db.seats
    → All IsConsistent (release_seats_for_booking now booking_id db).1.seats
unfolding release_seats_for_booking
release_seats-IsConsistent now booking_id db h =
    All-update_where IsConsistent (belongs_to booking_id) returned db.seats (λ s t c. (refl, refl))
      h

-- The calls that the hold API and the scheduler make, in any order and at any times.
pub data Call : Type 0 where
  acquires : (now hold_id user_id flight_id : ℕ) → Text → Option ℕ → Call
  releases : (hold_id user_id : ℕ) → Call
  sweeps : (now : ℕ) → Call

unfoldable pub step : Settings → Call → List SeatInventory → List SeatInventory
step settings (acquires now hold_id user_id flight_id seat_no ttl) seats =
    (acquire_hold settings now hold_id user_id flight_id seat_no ttl seats).1
step settings (releases hold_id user_id) seats = (release_hold hold_id (some user_id) seats).1
step settings (sweeps now) seats = (sweep_expired_holds now seats).1

unfoldable pub run_calls : Settings → List Call → List SeatInventory → List SeatInventory
run_calls settings [] seats = seats
run_calls settings (c ∷ cs) seats = run_calls settings cs (step settings c seats)

-- After any history of holds, releases and sweeps every row still meets the CHECK constraints of the table, if every
-- row met them before.
pub run_calls-IsConsistent :
    (settings : Settings) (cs : List Call) (seats : List SeatInventory)
    → All IsConsistent seats
    → All IsConsistent (run_calls settings cs seats)
unfolding run_calls step
run_calls-IsConsistent settings [] seats h = h
run_calls-IsConsistent settings (acquires now hold_id user_id flight_id seat_no ttl ∷ cs) seats h =
    run_calls-IsConsistent settings cs _
      (acquire_hold-IsConsistent settings now hold_id user_id flight_id seat_no ttl seats h)
run_calls-IsConsistent settings (releases hold_id user_id ∷ cs) seats h =
    run_calls-IsConsistent settings cs _ (release_hold-IsConsistent hold_id (some user_id) seats h)
run_calls-IsConsistent settings (sweeps now ∷ cs) seats h =
    run_calls-IsConsistent settings cs _ (sweep-IsConsistent now seats h)

-- The booked rows, as they stand in the table.
abbrev booked_rows : List SeatInventory → List SeatInventory
booked_rows = select (λ s. seat_is s.status SeatStatus.booked)

take_seat-booked_rows :
    (now expires hold_id user_id flight_id : ℕ) (seat_no : Text) (seats : List SeatInventory)
    → booked_rows (take_seat now expires hold_id user_id flight_id seat_no seats).1
      ≡ booked_rows seats
unfolding take_seat
take_seat-booked_rows now expires hold_id user_id flight_id seat_no seats = ground (
  arith,
  select-update_where (λ s. seat_is s.status SeatStatus.booked)
      (λ s. is_seat flight_id seat_no s && takeable now s) (held_for user_id hold_id expires) seats
      (λ s t. ground arith),
)

step-booked_rows :
    (settings : Settings) (c : Call) (seats : List SeatInventory)
    → booked_rows (step settings c seats) ≡ booked_rows seats
unfolding step acquire_hold release_hold sweep_expired_holds
step-booked_rows settings (acquires now hold_id user_id flight_id seat_no ttl) seats =
    grind (arith, take_seat-booked_rows)
step-booked_rows settings (releases hold_id user_id) seats =
    select-update_where (λ s. seat_is s.status SeatStatus.booked)
      (releasable hold_id (some user_id)) freed seats (λ s t. ground arith)
step-booked_rows settings (sweeps now) seats =
    select-update_where (λ s. seat_is s.status SeatStatus.booked) (sweepable now) freed seats
      (λ s t. ground arith)

-- No history of holds, releases and sweeps sells, frees or changes a seat that is booked: the booked rows stay as they
-- are, in every column.
run_calls-booked_rows :
    (settings : Settings) (cs : List Call) (seats : List SeatInventory)
    → booked_rows (run_calls settings cs seats) ≡ booked_rows seats
unfolding run_calls
run_calls-booked_rows settings [] seats = refl
run_calls-booked_rows settings (c ∷ cs) seats =
    run_calls-booked_rows settings cs (step settings c seats) ∙ step-booked_rows settings c seats

-- ===== src/Holds/Release.antt =====
-- What comes back when a hold or a booking is released.
use concurrent_flight_bookin.Prelude.{
  ℕ, ◌+◌, ◌≡◌, refl, false, not, ◌&&◌, List, [], ◌∷◌, some, Option, arith, count_where,
  update_where, select, select-update_where, is_eq, ◌==◌,
}
use concurrent_flight_bookin.Domain.Models.{SeatInventory, Ticket, Db}
use concurrent_flight_bookin.Holds.{
  release_hold, releasable, release_seats_for_booking, belongs_to, live_ticket_of, returned, freed,
  takeable, void_ticket,
}

-- A user can release only a hold that is theirs: the rows that another user holds stay as they are.
release_hold-others :
    (hold_id user_id other : ℕ) (seats : List SeatInventory)
    → (user_id == other) ≡ false
    → select (λ s. is_eq s.held_by_user_id other) (release_hold hold_id (some user_id) seats).1
      ≡ select (λ s. is_eq s.held_by_user_id other) seats
unfolding release_hold
release_hold-others hold_id user_id other seats h =
    select-update_where (λ s. is_eq s.held_by_user_id other) (releasable hold_id (some user_id))
      freed seats (λ s e. ground arith)

-- The answer is true exactly when a row was released, and a second release of the same hold answers false.
pub release_hold_twice :
    (hold_id : ℕ) (user_id : Option ℕ) (seats : List SeatInventory)
    → (release_hold hold_id user_id (release_hold hold_id user_id seats).1).0 ≡ false
unfolding release_hold
release_hold_twice hold_id user_id [] = refl
release_hold_twice hold_id user_id (s ∷ seats) =
    ground (arith, release_hold_twice hold_id user_id seats)

-- No seat of the booking is left.
pub cleared :
    (b : ℕ) (seats : List SeatInventory)
    → count_where (belongs_to b) (update_where (belongs_to b) returned seats) ≡ 0
cleared b [] = refl
cleared b (s ∷ seats) = ground (arith, cleared b seats)

freed_now :
    (now b : ℕ) (seats : List SeatInventory)
    → count_where (takeable now) (update_where (belongs_to b) returned seats)
      ≡ count_where (belongs_to b) seats
        + count_where (λ s. takeable now s && not (belongs_to b s)) seats
freed_now now b [] = omega arith
freed_now now b (s ∷ seats) = ground (arith, freed_now now b seats)

-- No live ticket of the booking is left.
pub voided :
    (now b : ℕ) (ts : List Ticket)
    → count_where (live_ticket_of b) (update_where (live_ticket_of b) (void_ticket now) ts) ≡ 0
voided now b [] = refl
voided now b (t ∷ ts) = ground (arith, voided now b ts)

-- Releasing a booking's seats leaves it no seat and no live ticket, returns the number of its seats, and every one of
-- them can be taken at once, beside those of the others that could be taken.
release_seats_frees :
    (now booking_id : ℕ) (db : Db)
    → let (released, after) = release_seats_for_booking now booking_id db in
      (count_where (belongs_to booking_id) after.seats ≡ 0)
      × (count_where (live_ticket_of booking_id) after.tickets ≡ 0)
      × (count_where (takeable now) after.seats
          ≡ released + count_where (λ s. takeable now s && not (belongs_to booking_id s)) db.seats)
unfolding release_seats_for_booking
release_seats_frees now booking_id db = (
  cleared booking_id db.seats,
  voided now booking_id db.tickets,
  freed_now now booking_id db.seats,
)

-- A release touches no row of another booking, and no ticket of one.
release_seats-others :
    (now booking_id other : ℕ) (db : Db)
    → (booking_id == other) ≡ false
    → let after = (release_seats_for_booking now booking_id db).1 in
      (select (belongs_to other) after.seats ≡ select (belongs_to other) db.seats)
      × (select (λ t. t.booking_id == other) after.tickets
          ≡ select (λ t. t.booking_id == other) db.tickets)
unfolding release_seats_for_booking
release_seats-others now booking_id other db h = (
  select-update_where (belongs_to other) (belongs_to booking_id) returned db.seats
      (λ s e. ground arith),
  select-update_where (λ t. t.booking_id == other) (live_ticket_of booking_id) (void_ticket now)
      db.tickets (λ t e. ground arith),
)

-- ===== src/Saga/Oversell/Tables.antt =====
-- The writes of the services to `seat_inventory` and `tickets` keep tickets and seats in step.
use concurrent_flight_bookin.Prelude.{
  ℕ, ◌+◌, ◌≡◌, refl, inl, inr, Bool, true, false, ◌&&◌, Option, List, [], ◌∷◌, arith, ◌==◌, All,
  All-update_where, count-update_where, update_where, Bool-cases, Text,
}
use concurrent_flight_bookin.Config.{Settings, seconds}
use concurrent_flight_bookin.Domain.Enums.{SeatStatus, seat_is}
use concurrent_flight_bookin.Domain.Models.{Db, SeatInventory, Ticket}
use concurrent_flight_bookin.Holds.{
  take_seat, acquire_hold, release_hold, sweep_expired_holds, release_seats_for_booking, takeable,
  is_seat, held_for, freed, releasable, sweepable, belongs_to, returned, live_ticket_of,
  void_ticket, upper, ttl_or,
}
use concurrent_flight_bookin.Saga.Oversell.{fits, Fits, AllSold, IsSold, DistinctIds}

-- An UPDATE of seats, with what is known of the seats and of the tickets.
pub AllSold-update_where :
    (S : SeatInventory → Type 0) (R : Ticket → Type 0) (p : SeatInventory → Bool)
    (f : SeatInventory → SeatInventory) (seats : List SeatInventory) (tickets : List Ticket)
    → ((t : Ticket) (s : SeatInventory)
        → R t
        → S s
        → p s ≡ true
        → fits t s ≡ true
        → fits t (f s) ≡ true)
    → All S seats
    → All R tickets
    → AllSold seats tickets
    → AllSold (update_where p f seats) tickets
AllSold-update_where S R p f seats [] keep ss rs h = tt
AllSold-update_where S R p f seats (t ∷ tickets) keep ss rs h =
    (Fits-update_where seats ss h.0, AllSold-update_where S R p f seats tickets keep ss rs.1 h.1)
  where
    Fits-update_where :
        (xs : List SeatInventory) → All S xs → Fits xs t → Fits (update_where p f xs) t
    Fits-update_where [] k e = tt
    Fits-update_where (x ∷ xs) k e = elim (Bool-cases (p x)) [
      | inl yes' ↦ rw yes' (keep t x rs.0 k.0 yes' e.0, Fits-update_where xs k.1 e.1)
      | inr no' ↦ rw no' (e.0, Fits-update_where xs k.1 e.1)
    ]

pub Any : {A : Type 0} → A → Type 0
Any x = Unit

pub All-Any : {A : Type 0} (xs : List A) → All Any xs
unfolding Any
All-Any [] = tt
All-Any (x ∷ xs) = (tt, All-Any xs)

-- Where the rows it writes are not booked.
pub AllSold-unsold :
    (p : SeatInventory → Bool) (f : SeatInventory → SeatInventory) (seats : List SeatInventory)
    (tickets : List Ticket)
    → ((s : SeatInventory) → (f s).id ≡ s.id)
    → All (λ s. p s ≡ true → seat_is s.status SeatStatus.booked ≡ false) seats
    → AllSold seats tickets
    → AllSold (update_where p f seats) tickets
AllSold-unsold p f seats tickets same_id unsold h =
    AllSold-update_where (λ s. p s ≡ true → seat_is s.status SeatStatus.booked ≡ false) Any p f
      seats tickets (λ t s r k e fit. ground (arith, k e, same_id s)) unsold (All-Any tickets) h

pub All-always {ℓ} : {A : Type 0} (P : A → Type ℓ) (xs : List A) → ((x : A) → P x) → All P xs
All-always P [] always = tt
All-always P (x ∷ xs) always = (always x, All-always P xs always)

pub acquire_hold-AllSold :
    (settings : Settings) (now hold_id user_id flight_id : ℕ) (seat_no : Text) (ttl : Option ℕ)
    (seats : List SeatInventory) (tickets : List Ticket)
    → AllSold seats tickets
    → AllSold (acquire_hold settings now hold_id user_id flight_id seat_no ttl seats).1 tickets
unfolding acquire_hold take_seat
acquire_hold-AllSold settings now hold_id user_id flight_id seat_no ttl seats tickets h = ground (
  arith,
  AllSold-unsold (λ s. is_seat flight_id (upper seat_no) s && takeable now s)
      (held_for user_id hold_id (now + seconds (ttl_or ttl settings.hold_ttl_seconds))) seats
      tickets (λ s. refl) (All-always _ seats (λ s e. ground arith)) h,
)

pub release_hold-AllSold :
    (hold_id : ℕ) (user_id : Option ℕ) (seats : List SeatInventory) (tickets : List Ticket)
    → AllSold seats tickets
    → AllSold (release_hold hold_id user_id seats).1 tickets
unfolding release_hold
release_hold-AllSold hold_id user_id seats tickets h =
    AllSold-unsold (releasable hold_id user_id) freed seats tickets (λ s. refl)
      (All-always _ seats (λ s e. ground arith)) h

pub sweep-AllSold :
    (now : ℕ) (seats : List SeatInventory) (tickets : List Ticket)
    → AllSold seats tickets
    → AllSold (sweep_expired_holds now seats).1 tickets
unfolding sweep_expired_holds
sweep-AllSold now seats tickets h =
    AllSold-unsold (sweepable now) freed seats tickets (λ s. refl)
      (All-always _ seats (λ s e. ground arith)) h

-- The tickets of a booking are voided before its seats go back.
void-AllSold :
    (now booking_id : ℕ) (seats : List SeatInventory) (tickets : List Ticket)
    → AllSold seats tickets
    → AllSold seats (update_where (live_ticket_of booking_id) (void_ticket now) tickets)
void-AllSold now booking_id seats tickets h =
    All-update_where (Fits seats) (live_ticket_of booking_id) (void_ticket now) tickets
      (λ t e k. All-always _ seats (λ s. refl)) h

abbrev pub NotOf : ℕ → Ticket → Type 0
NotOf booking_id t = live_ticket_of booking_id t ≡ false

voided-NotOf :
    (now booking_id : ℕ) (tickets : List Ticket)
    → All (NotOf booking_id) (update_where (live_ticket_of booking_id) (void_ticket now) tickets)
voided-NotOf now booking_id [] = tt
voided-NotOf now booking_id (t ∷ tickets) = ground (arith, voided-NotOf now booking_id tickets)

-- An UPDATE of the seats of a booking that has no live ticket.
belongs-AllSold :
    (booking_id : ℕ) (f : SeatInventory → SeatInventory) (seats : List SeatInventory)
    (tickets : List Ticket)
    → ((s : SeatInventory) → (f s).id ≡ s.id)
    → All (NotOf booking_id) tickets
    → AllSold seats tickets
    → AllSold (update_where (belongs_to booking_id) f seats) tickets
belongs-AllSold booking_id f seats tickets same_id fresh h =
    AllSold-update_where Any (NotOf booking_id) (belongs_to booking_id) f seats tickets
      (λ t s r k e fit. ground (arith, same_id s)) (All-Any seats) fresh h

pub DistinctIds-update_where :
    (p : SeatInventory → Bool) (f : SeatInventory → SeatInventory) (seats : List SeatInventory)
    → ((s : SeatInventory) → (f s).id ≡ s.id)
    → DistinctIds seats
    → DistinctIds (update_where p f seats)
DistinctIds-update_where p f seats same_id distinct x =
    omega (
      arith,
      distinct x,
      count-update_where (λ s. s.id == x) p f seats (λ s e. rw (same_id s) refl),
    )

pub belongs-IsSold :
    (booking_id : ℕ) (f : SeatInventory → SeatInventory) (seats : List SeatInventory)
    (tickets : List Ticket)
    → ((s : SeatInventory) → (f s).id ≡ s.id)
    → All (NotOf booking_id) tickets
    → DistinctIds seats × AllSold seats tickets
    → DistinctIds (update_where (belongs_to booking_id) f seats)
      × AllSold (update_where (belongs_to booking_id) f seats) tickets
belongs-IsSold booking_id f seats tickets same_id fresh h = (
  DistinctIds-update_where (belongs_to booking_id) f seats same_id h.0,
  belongs-AllSold booking_id f seats tickets same_id fresh h.1,
)

pub release_seats-IsSold :
    (now booking_id : ℕ) (db : Db)
    → IsSold db
    → IsSold (release_seats_for_booking now booking_id db).1
unfolding release_seats_for_booking
release_seats-IsSold now booking_id db h =
    belongs-IsSold booking_id returned db.seats
      (update_where (live_ticket_of booking_id) (void_ticket now) db.tickets) (λ s. refl)
      (voided-NotOf now booking_id db.tickets)
      (h.0, void-AllSold now booking_id db.seats db.tickets h.1)

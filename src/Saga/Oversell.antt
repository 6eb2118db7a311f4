-- ===== src/Saga/Oversell.antt =====
-- Tickets and seats: what a live ticket says of the row of its seat.
pub mod Tables
pub mod Issue
pub mod Pinning
pub mod Payment
pub mod Run
pub mod Others
mod Tests
use concurrent_flight_bookin.Prelude.{
  ℕ, Bool, not, ◌&&◌, ◌||◌, ◌≡◌, ◌≤◌, true, List, ◌==◌, is_eq, is_null, All, count_where,
}
use concurrent_flight_bookin.Domain.Enums.{SeatStatus, seat_is}
use concurrent_flight_bookin.Domain.Models.{Db, SeatInventory, Ticket}
use concurrent_flight_bookin.Saga.Session.{World}

-- If the ticket is live and for this seat, the seat is booked, and for the booking of the ticket.
abbrev pub fits : Ticket → SeatInventory → Bool
fits t s =
    not (is_null t.voided_at && t.seat_inventory_id == s.id)
    || (seat_is s.status SeatStatus.booked && is_eq s.booking_id t.booking_id)

abbrev pub Fits : List SeatInventory → Ticket → Type 0
Fits seats t = All (λ s. fits t s ≡ true) seats

abbrev pub AllSold : List SeatInventory → List Ticket → Type 0
AllSold seats tickets = All (Fits seats) tickets

-- The primary key of the seats.
abbrev pub DistinctIds : List SeatInventory → Type 0
DistinctIds seats = (x : ℕ) → count_where (λ s. s.id == x) seats ≤ 1

-- Every live ticket of the tables is for a seat that is sold to the booking of the ticket; ids are distinct.
abbrev pub IsSold : Db → Type 0
IsSold db = DistinctIds db.seats × AllSold db.seats db.tickets

-- In the session and as committed.
abbrev pub BothSold : {G : Type 0} → World G → Type 0
BothSold w = IsSold w.db × IsSold w.saved

-- ===== src/Saga/Locking.antt =====
-- The row locks of app/services/booking_saga.py: the three statements with ORDER BY seat_inventory.id FOR UPDATE, and
-- transactions that take these locks one by one, each waiting while another holds the next one, until they commit.
pub mod Order
pub mod Progress
mod Tests
use concurrent_flight_bookin.Prelude.{
  ℕ, zero, suc, ◌+◌, ◌≡◌, Bool, false, ◌||◌, List, [], ◌∷◌, if◌then◌else◌, select, All, length, map,
}
use concurrent_flight_bookin.Domain.Models.{SeatInventory}
use concurrent_flight_bookin.Holds.{belongs_to}
use concurrent_flight_bookin.Saga.Begin.{lock_seats_for_holds}
use concurrent_flight_bookin.Saga.Ticketing.{elem, order_by_id}
use concurrent_flight_bookin.Saga.Ordering.{ids}

-- `_lock_seats_for_holds`, the statement that opens `_issue_tickets`, and the one of `cancel`.
pub data LockQuery : Type 0 where
  for_holds : List ℕ → ℕ → LockQuery
  for_tickets : List ℕ → LockQuery
  for_cancel : ℕ → LockQuery

abbrev pub rows_to_lock : LockQuery → List SeatInventory → List SeatInventory
rows_to_lock (for_holds hold_ids user_id) seats = lock_seats_for_holds hold_ids user_id seats
rows_to_lock (for_tickets seat_ids) seats = order_by_id (select (λ s. elem s.id seat_ids) seats)
rows_to_lock (for_cancel booking_id) seats = order_by_id (select (belongs_to booking_id) seats)

-- A transaction: the rows that it has locked, and those that it still waits for, in the order of its statement.
pub record Locker : Type 0 where
  pub held : List ℕ
  pub wanted : List ℕ

-- A statement on the table as it reads it.
abbrev pub starting : LockQuery × List SeatInventory → Locker
starting (q, seats) = record { held = []; wanted = ids (rows_to_lock q seats) }

abbrev pub is_locked : ℕ → List Locker → Bool
is_locked x [] = false
is_locked x (t ∷ ts) = elem x t.held || is_locked x ts

-- A transaction that has all its locks commits and lets go; another takes the next lock, or waits for it.
abbrev pub advance : List Locker → Locker → Locker
advance all t = elim t.wanted [
  | [] ↦ record { held = []; wanted = [] }
  | x ∷ rest ↦ if is_locked x all then t else record { held = x ∷ t.held; wanted = rest }
]

-- The turn of the transaction at this place.
abbrev pub turn_of : ℕ → List Locker → List Locker → List Locker
turn_of i all [] = []
turn_of zero all (t ∷ ts) = advance all t ∷ ts
turn_of (suc i) all (t ∷ ts) = let rest = turn_of i all ts in t ∷ rest

abbrev pub turn : ℕ → List Locker → List Locker
turn i ts = turn_of i ts ts

unfoldable pub turns : List ℕ → List Locker → List Locker
turns [] ts = ts
turns (i ∷ is) ts = turns is (turn i ts)

abbrev pub IsDone : Locker → Type 0
IsDone t = (t.held ≡ []) × (t.wanted ≡ [])

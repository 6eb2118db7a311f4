-- ===== src/Saga/Locking/Order.antt =====
-- What a transaction holds comes before what it waits for.
use concurrent_flight_bookin.Prelude.{
  ℕ, zero, suc, ◌<◌, ◌≤◌, List, [], ◌∷◌, arith, All, All-map, Bool-cases, inl, inr, Bool, select,
  count-select, count_mono, count_where, ◌==◌, ◌&&◌,
}
use concurrent_flight_bookin.Domain.Models.{SeatInventory}
use concurrent_flight_bookin.Holds.{belongs_to}
use concurrent_flight_bookin.Saga.Begin.{lock_seats_for_holds, held_under}
use concurrent_flight_bookin.Saga.Ticketing.{elem}
use concurrent_flight_bookin.Saga.Ordering.{Ascending, order_by_id-Ascending}
use concurrent_flight_bookin.Saga.Oversell.{DistinctIds}
use concurrent_flight_bookin.Saga.Locking.{
  LockQuery, for_holds, for_tickets, for_cancel, Locker, starting, is_locked, advance, turn_of,
  turn, turns,
}

abbrev pub IsOrdered : Locker → Type 0
IsOrdered t = Ascending t.wanted × All (λ h. All (λ x. h < x) t.wanted) t.held

select_distinct :
    (q : SeatInventory → Bool) (seats : List SeatInventory)
    → DistinctIds seats
    → (x : ℕ) → count_where (λ s. s.id == x) (select q seats) ≤ 1
select_distinct q seats distinct x = omega (
  arith,
  distinct x,
  count-select (λ s. s.id == x) q seats,
  count_mono (λ s. s.id == x && q s) (λ s. s.id == x) seats (λ s h. ground arith),
)

pub starting-IsOrdered :
    (q : LockQuery) (seats : List SeatInventory)
    → DistinctIds seats
    → IsOrdered (starting (q, seats))
unfolding lock_seats_for_holds
starting-IsOrdered (for_holds hold_ids user_id) seats distinct = (
  order_by_id-Ascending (select (held_under hold_ids user_id) seats)
      (select_distinct (held_under hold_ids user_id) seats distinct),
  tt,
)
starting-IsOrdered (for_tickets seat_ids) seats distinct = (
  order_by_id-Ascending (select (λ s. elem s.id seat_ids) seats)
      (select_distinct (λ s. elem s.id seat_ids) seats distinct),
  tt,
)
starting-IsOrdered (for_cancel booking_id) seats distinct = (
  order_by_id-Ascending (select (belongs_to booking_id) seats)
      (select_distinct (belongs_to booking_id) seats distinct),
  tt,
)

advance-IsOrdered :
    (all : List Locker) (held wanted : List ℕ)
    → IsOrdered (record { held = held; wanted = wanted })
    → IsOrdered (advance all (record { held = held; wanted = wanted }))
advance-IsOrdered all held [] h = (tt, tt)
advance-IsOrdered all held (x ∷ rest) h = elim (Bool-cases (is_locked x all)) [
  | inl waits ↦ rw waits h
  | inr free ↦ rw free (
    h.0.1,
    (
      h.0.0,
      All-map (λ k. All (λ y. k < y) (x ∷ rest)) (λ k. All (λ y. k < y) rest) held (λ k m. m.1) h.1,
    ),
  )
]

turn_of-IsOrdered :
    (i : ℕ) (all ts : List Locker) → All IsOrdered ts → All IsOrdered (turn_of i all ts)
turn_of-IsOrdered i all [] h = tt
turn_of-IsOrdered zero all (t ∷ ts) h = (advance-IsOrdered all t.held t.wanted h.0, h.1)
turn_of-IsOrdered (suc i) all (t ∷ ts) h = (h.0, turn_of-IsOrdered i all ts h.1)

pub turns-IsOrdered :
    (is : List ℕ) (ts : List Locker) → All IsOrdered ts → All IsOrdered (turns is ts)
unfolding turns
turns-IsOrdered [] ts h = h
turns-IsOrdered (i ∷ is) ts h = turns-IsOrdered is (turn i ts) (turn_of-IsOrdered i ts ts h)

-- ===== src/Saga/Locking/Tests.antt =====
-- A checkout and a ticketing that want the same two seats.
use concurrent_flight_bookin.Prelude.{ℕ, ◌≡◌, refl, List, [], ◌∷◌, ◌++◌, arith, All, map}
use concurrent_flight_bookin.Domain.Models.{SeatInventory}
use concurrent_flight_bookin.Saga.Sample.{db}
use concurrent_flight_bookin.Saga.Locking.{
  LockQuery, for_holds, for_tickets, starting, turns, turn, Locker, IsDone,
}
use concurrent_flight_bookin.Saga.Locking.Progress.{turns-IsDone}

abbrev queries : List (LockQuery × List SeatInventory)
queries = (for_holds (41 ∷ 40 ∷ []) 4, db.seats) ∷ (for_tickets (2 ∷ 1 ∷ []), db.seats) ∷ []

turns-IsDone_example :
    (rest : List ℕ) × All IsDone (turns ((0 ∷ 1 ∷ []) ++ rest) (map starting queries))
turns-IsDone_example =
    turns-IsDone queries (0 ∷ 1 ∷ []) ((λ x. ground arith), ((λ x. ground arith), tt))

-- Without the order two transactions may wait for each other for good.
abbrev crossed : List Locker
crossed = record { held = 1 ∷ []; wanted = 2 ∷ [] } ∷ record { held = 2 ∷ []; wanted = 1 ∷ [] } ∷ []

crossed_stay : (turn 0 crossed ≡ crossed) × (turn 1 crossed ≡ crossed)
crossed_stay = (refl, refl)

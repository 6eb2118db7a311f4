-- ===== src/Flights/SeatMap.antt =====
-- The seat map and the hold service agree.
use concurrent_flight_bookin.Prelude.{
  ℕ, ◌<◌, ◌≡◌, refl, sym, ◌∙◌, inl, inr, Bool, true, ◌&&◌, Option, none, some, List, Text, arith,
  ◌==◌, same, if◌then◌else◌, select, first, first-found, first-count, count_where, count-map,
  Option-cases, count-select, count_mono, count_same, length-count,
}
use concurrent_flight_bookin.Errors.{Exc, AppError}
use concurrent_flight_bookin.Config.{Settings}
use concurrent_flight_bookin.Domain.Models.{SeatInventory, Flight, Airline}
use concurrent_flight_bookin.Holds.{
  Result, ok, err, takeable, upper, is_seat, acquire_hold, count_active_holds,
}
use concurrent_flight_bookin.Holds.Outcomes.{Explained, acquire_hold-Explained}
use concurrent_flight_bookin.Saga.Begin.{order_by_row}
use concurrent_flight_bookin.Saga.Ordering.{count-order_by_row}
use concurrent_flight_bookin.Flights.{
  seat_map, get_flight, SeatMapResponse, SeatResponse, seat_rows, seat_response, FlightSummary,
}

pub count-seat_rows :
    (p : SeatResponse → Bool) (now flight_id : ℕ) (seats : List SeatInventory)
    → count_where p (seat_rows now flight_id seats)
      ≡ count_where (λ s. p (seat_response now s) && (s.flight_id == flight_id)) seats
count-seat_rows p now flight_id seats =
    count-map p (seat_response now) (order_by_row (select (λ s. s.flight_id == flight_id) seats))
    ∙ count-order_by_row (λ s. p (seat_response now s))
        (select (λ s. s.flight_id == flight_id) seats)
    ∙ count-select (λ s. p (seat_response now s)) (λ s. s.flight_id == flight_id) seats

-- How a call was refused, if it was.
abbrev pub refusal : {A : Type 0} → Result A → Option Exc
refusal (ok a) = none
refusal (err e) = some e

-- The answer to a hold of a seat, as a reader of the seat map expects it.
abbrev pub expected : Text → Result SeatMapResponse → Option Exc
expected seat_no (err e) = some e
expected seat_no (ok m) =
    if count_where (λ s. s.available && same s.seat_no seat_no) m.seats == 0
    then (if count_where (λ s. same s.seat_no seat_no) m.seats == 0
        then some (Exc.app AppError.not_found)
        else some (Exc.app AppError.seat_unavailable))
    else none

module _ (settings : Settings) (now hold_id user_id flight_id : ℕ) (seat_no : Text) (ttl : Option ℕ)
    (flights : List Flight) (seats : List SeatInventory) where
  abbrev free : ℕ
  free = count_where (λ s. is_seat flight_id (upper seat_no) s && takeable now s) seats

  abbrev listed : ℕ
  listed = count_where (is_seat flight_id (upper seat_no)) seats

  -- The answer by the counts of the table.
  refusal-Explained :
      (r : Result SeatInventory × List SeatInventory)
      → Explained settings now hold_id user_id flight_id seat_no ttl seats r
      → count_active_holds now user_id seats < settings.max_active_holds_per_user
      → refusal r.0 ≡ (
          if free == 0
          then (if listed == 0
              then some (Exc.app AppError.not_found)
              else some (Exc.app AppError.seat_unavailable))
          else none)
  refusal-Explained (ok s, after) h room =
      ground
        (arith, first-found (λ s. is_seat flight_id (upper seat_no) s && takeable now s) seats h.0)
  refusal-Explained (err (Exc.app AppError.too_many_holds), after) h room = absurd (omega arith)
  refusal-Explained (err (Exc.app AppError.not_found), after) h room = ground (
    arith,
    count_mono (λ s. is_seat flight_id (upper seat_no) s && takeable now s)
        (is_seat flight_id (upper seat_no)) seats (λ s. ground arith),
  )
  refusal-Explained (err (Exc.app AppError.seat_unavailable), after) h room =
      ground (arith, first-count (λ s. is_seat flight_id (upper seat_no) s && takeable now s) seats)
  refusal-Explained (err e, after) h room = absurd h

  -- A seat that the map shows free is granted to a user below the cap who asks at that moment, one that it shows taken is
  -- refused as taken, and one that it does not show is not found.
  pub seat_map-acquire_hold :
      (flight : Flight)
      → first (λ f. f.id == flight_id) flights ≡ some flight
      → count_active_holds now user_id seats < settings.max_active_holds_per_user
      → refusal (acquire_hold settings now hold_id user_id flight_id seat_no ttl seats).0
        ≡ expected (upper seat_no) (seat_map now flight_id flights seats)
  unfolding seat_map
  seat_map-acquire_hold flight known room =
      let shown_free : count_where (λ s. s.available && same s.seat_no (upper seat_no))
            (seat_rows now flight_id seats)
          ≡ free =
        count-seat_rows (λ s. s.available && same s.seat_no (upper seat_no)) now flight_id seats
        ∙ count_same _ _ seats (λ s. ground arith) in
      let shown : count_where (λ s. same s.seat_no (upper seat_no)) (seat_rows now flight_id seats)
          ≡ listed =
        count-seat_rows (λ s. same s.seat_no (upper seat_no)) now flight_id seats
        ∙ count_same _ _ seats (λ s. ground arith) in
      rw (known, seat_map, shown_free, shown)
        (refusal-Explained (acquire_hold settings now hold_id user_id flight_id seat_no ttl seats)
          (acquire_hold-Explained settings now hold_id user_id flight_id seat_no ttl seats) room)

-- What a summary and a seat map have in common.
abbrev pub Alike : ℕ → List SeatInventory → Result FlightSummary → Result SeatMapResponse → Type 0
Alike flight_id seats (ok f) (ok m) =
    (f.seats_available ≡ m.available_seats)
    × (f.flight.currency ≡ m.currency)
    × (m.total_seats ≡ count_where (λ s. s.flight_id == flight_id) seats)
Alike flight_id seats (err e) (err e') = e ≡ e'
Alike flight_id seats _ _ = ⊥

-- The summary of a flight and its seat map, asked at the same moment, agree: both find the flight or neither does, they
-- count as many free seats in the same currency, and the map has a line for each seat of the flight.
get_flight-seat_map :
    (now flight_id : ℕ) (flights : List Flight) (airlines : List Airline)
    (seats : List SeatInventory)
    → Alike flight_id seats
        (get_flight now flight_id flights airlines seats)
        (seat_map now flight_id flights seats)
unfolding seat_map get_flight
get_flight-seat_map now flight_id flights airlines seats =
    elim (Option-cases (first (λ f. f.id == flight_id) flights)) [
      | inl missing ↦ rw (missing, get_flight, seat_map) refl
      | inr (flight, known) ↦
          rw (known, get_flight, seat_map)
            (
              sym (
                  count-seat_rows (λ s. s.available) now flight_id seats
                  ∙ count_same _ _ seats (λ s. ground arith)),
              refl,
              length-count (seat_rows now flight_id seats)
                  ∙ count-seat_rows (λ _. true) now flight_id seats
                  ∙ count_same _ _ seats (λ s. ground arith),
            )
    ]

-- ===== src/Flights/Search.antt =====
-- What a search shows, over all its pages.
use concurrent_flight_bookin.Prelude.{
  ℕ, ◌≤◌, ◌≡◌, Bool, true, false, ◌&&◌, List, [], ◌∷◌, Text, select, All,
}
use concurrent_flight_bookin.Domain.Models.{SeatInventory, Flight, Airline}
use concurrent_flight_bookin.Holds.{Result, ok, err}
use concurrent_flight_bookin.Paging.{Page}
use concurrent_flight_bookin.Flights.{
  search_flights, scheduled, has_airline, order_by_departure, FlightSummary,
}

-- Each of a list comes at or after those before it.
abbrev pub IsOrdered : {A : Type 0} → (A → ℕ) → List A → Type 0
IsOrdered at [] = Unit
IsOrdered at (x ∷ xs) = All (λ y. at x ≤ at y) xs × IsOrdered at xs

-- The page of an answer; a refusal shows nothing.
abbrev pub shown_page : ℕ → Result (Page FlightSummary) → Page FlightSummary
shown_page page (ok p) = p
shown_page page (err e) = record {
  items = [];
  page = page;
  page_size = 0;
  total = 0;
  has_more = false;
}

module _ (today now : ℕ) (origin destination : Text) (departure_date page_size : ℕ)
    (flights : List Flight) (airlines : List Airline) (seats : List SeatInventory) where
  abbrev asked : Flight → Bool
  asked = scheduled origin destination departure_date

  abbrev found : List Flight
  found = order_by_departure (select (λ f. asked f && has_airline airlines f) flights)

  abbrev pub search_page : ℕ → Page FlightSummary
  search_page page = shown_page page (
      search_flights today now origin destination departure_date page page_size flights airlines
        seats)

  -- Every flight has its airline, as the foreign key of `flights` demands.
  abbrev pub HasAirlines : Type 0
  HasAirlines = All (λ f. has_airline airlines f ≡ true) flights

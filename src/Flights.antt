-- ===== src/Flights.antt =====
-- app/api/flights.py: what a client is shown of the flights and their seats. `now` is the `func.now()` of a statement.
-- The cabin and the exit row of a seat are left out.
pub mod SeatMap
pub mod Search
mod Tests
use concurrent_flight_bookin.Prelude.{
  ℕ, ◌+◌, ◌-◌, ◌*◌, Bool, true, ◌&&◌, Option, none, some, List, [], ◌∷◌, map, Text, ltb, leb, ◌==◌,
  same, if◌then◌else◌, length, take, drop, select, first, count_where,
}
use concurrent_flight_bookin.Errors.{Exc, AppError}
use concurrent_flight_bookin.Domain.Models.{SeatInventory, Flight, Airline}
use concurrent_flight_bookin.Holds.{Result, ok, err, takeable, upper}
use concurrent_flight_bookin.Saga.Begin.{order_by_row}
use concurrent_flight_bookin.Paging.{Page}

pub record FlightSummary : Type 0 where
  pub flight : Flight
  pub airline_name : Option Text
  pub seats_available : ℕ

pub record SeatResponse : Type 0 where
  pub seat_no : Text
  pub row_no : ℕ
  pub seat_letter : ℕ
  pub price : ℕ
  pub available : Bool

pub record SeatMapResponse : Type 0 where
  pub flight_id : ℕ
  pub currency : Text
  pub total_seats : ℕ
  pub available_seats : ℕ
  pub seats : List SeatResponse

-- `flight.airline.name`, by the foreign key.
abbrev pub airline_name : Flight → List Airline → Option Text
airline_name flight airlines = elim (first (λ a. same a.iata flight.airline_iata) airlines) [
  | none ↦ none
  | some a ↦ some a.name
]

abbrev pub count_available : ℕ → ℕ → List SeatInventory → ℕ
count_available now flight_id seats =
    count_where (λ s. s.flight_id == flight_id && takeable now s) seats

unfoldable pub get_flight :
    ℕ → ℕ → List Flight → List Airline → List SeatInventory → Result FlightSummary
get_flight now flight_id flights airlines seats = elim (first (λ f. f.id == flight_id) flights) [
  | none ↦ err (Exc.app AppError.not_found)
  | some flight ↦ ok (record {
    flight = flight;
    airline_name = airline_name flight airlines;
    seats_available = count_available now flight_id seats;
  })
]

abbrev pub seat_response : ℕ → SeatInventory → SeatResponse
seat_response now seat = record {
  seat_no = seat.seat_no;
  row_no = seat.row_no;
  seat_letter = seat.seat_letter;
  price = seat.price;
  available = takeable now seat;
}

-- The rows of the flight, in the order of the cabin.
abbrev pub seat_rows : ℕ → ℕ → List SeatInventory → List SeatResponse
seat_rows now flight_id seats =
    map (seat_response now) (order_by_row (select (λ s. s.flight_id == flight_id) seats))

unfoldable pub seat_map : ℕ → ℕ → List Flight → List SeatInventory → Result SeatMapResponse
seat_map now flight_id flights seats = elim (first (λ f. f.id == flight_id) flights) [
  | none ↦ err (Exc.app AppError.not_found)
  | some flight ↦ ok (record {
    flight_id = flight_id;
    currency = flight.currency;
    total_seats = length (seat_rows now flight_id seats);
    available_seats = count_where (λ s. s.available) (seat_rows now flight_id seats);
    seats = seat_rows now flight_id seats;
  })
]

abbrev pub max_search_days_ahead : ℕ
max_search_days_ahead = 365

abbrev pub day : ℕ
day = 86400000000

-- `base_filters`; a date is a number of days.
abbrev pub scheduled : Text → Text → ℕ → Flight → Bool
scheduled origin destination departure_date f =
    same f.src_iata (upper origin)
    && same f.dst_iata (upper destination)
    && leb (departure_date * day) f.depart_at
    && ltb f.depart_at (departure_date * day + day)

-- `ORDER BY depart_at`; what departs at the same time stays in the order of the table.
unfoldable pub insert_by_departure : Flight → List Flight → List Flight
insert_by_departure f [] = f ∷ []
insert_by_departure f (g ∷ gs) =
    let rest = insert_by_departure f gs in
    if leb f.depart_at g.depart_at then f ∷ g ∷ gs else g ∷ rest

unfoldable pub order_by_departure : List Flight → List Flight
unfolding insert_by_departure
order_by_departure [] = []
order_by_departure (f ∷ fs) = insert_by_departure f (order_by_departure fs)

-- The join with `airlines` drops a flight without one.
abbrev pub has_airline : List Airline → Flight → Bool
has_airline airlines f = ltb 0 (count_where (λ a. same a.iata f.airline_iata) airlines)

abbrev pub summary : ℕ → List Airline → List SeatInventory → Flight → FlightSummary
summary now airlines seats f = record {
  flight = f;
  airline_name = airline_name f airlines;
  seats_available = count_available now f.id seats;
}

-- For a page from 1 to 1000 and a size from 1 to 100, which the route's `Query` bounds check before.
unfoldable pub search_flights :
    (today now : ℕ) (origin destination : Text) (departure_date page page_size : ℕ)
    (flights : List Flight) (airlines : List Airline) (seats : List SeatInventory)
    → Result (Page FlightSummary)
search_flights today now origin destination departure_date page page_size flights airlines seats =
    let total = count_where (scheduled origin destination departure_date) flights in
    let rows = order_by_departure (
      select (λ f. scheduled origin destination departure_date f && has_airline airlines f)
        flights) in
    if ltb (today + max_search_days_ahead) departure_date
    then err (Exc.app AppError.not_found)
    else ok (record {
      items =
          map (summary now airlines seats) (take page_size (drop ((page - 1) * page_size) rows));
      page = page;
      page_size = page_size;
      total = total;
      has_more = ltb (page * page_size) total;
    })

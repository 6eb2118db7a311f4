-- ===== src/Flights/Tests.antt =====
-- A flight with a free, a lapsed and a live seat.
use concurrent_flight_bookin.Prelude.{
  ℕ, ◌+◌, ◌≡◌, refl, Option, none, some, Text, List, [], ◌∷◌, arith,
}
use concurrent_flight_bookin.Config.{default_settings}
use concurrent_flight_bookin.Domain.Enums.{SeatStatus}
use concurrent_flight_bookin.Domain.Models.{SeatInventory, Flight, Airline}
use concurrent_flight_bookin.Holds.{acquire_hold, count_active_holds, upper}
use concurrent_flight_bookin.Flights.{seat_map}
use concurrent_flight_bookin.Flights.SeatMap.{refusal, expected, seat_map-acquire_hold}

abbrev row : ℕ → ℕ → SeatStatus → Option ℕ → Option ℕ → Option ℕ → SeatInventory
row id letter status user hold expires = record {
  id = id;
  flight_id = 7;
  seat_no = b'1' ∷ letter ∷ [];
  row_no = 1;
  seat_letter = letter;
  price = 12500;
  status = status;
  held_by_user_id = user;
  hold_id = hold;
  hold_expires_at = expires;
  booking_id = none;
  version = 0;
}

abbrev seats : List SeatInventory
seats =
    row 3 b'C' SeatStatus.held (some 5) (some 41) (some 2000)
    ∷ row 2 b'B' SeatStatus.held (some 4) (some 40) (some 500)
    ∷ row 1 b'A' SeatStatus.available none none none
    ∷ []

abbrev yow : Text
yow = b'Y' ∷ b'O' ∷ b'W' ∷ []

abbrev yul : Text
yul = b'Y' ∷ b'U' ∷ b'L' ∷ []

abbrev departing : ℕ → ℕ → Flight
departing id at = record {
  id = id;
  flight_no = [];
  airline_iata = b'A' ∷ b'C' ∷ [];
  src_iata = yow;
  dst_iata = yul;
  depart_at = at;
  arrive_at = at + 1;
  aircraft_type = [];
  base_fare = 9900;
  currency = b'C' ∷ b'A' ∷ b'D' ∷ [];
}

abbrev flights : List Flight
flights = departing 7 900 ∷ departing 8 300 ∷ departing 9 600 ∷ []

abbrev airlines : List Airline
airlines = record { iata = b'A' ∷ b'C' ∷ []; name = [] } ∷ []

-- "1b", whose hold lapsed.
abbrev typed : Text
typed = b'1' ∷ b'b' ∷ []

seat_map-acquire_hold_example :
    refusal (acquire_hold default_settings 1000 60 6 7 typed none seats).0
    ≡ expected (upper typed) (seat_map 1000 7 flights seats)
unfolding count_active_holds
seat_map-acquire_hold_example =
    seat_map-acquire_hold default_settings 1000 60 6 7 typed none flights seats (departing 7 900)
      refl (omega arith)

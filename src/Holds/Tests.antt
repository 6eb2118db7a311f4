-- ===== src/Holds/Tests.antt =====
-- Concrete inputs for the theorems of the hold service: a flight with a free seat, a lapsed hold and a booked seat.
use concurrent_flight_bookin.Prelude.{
  same, ◌≤◌, ◌≡◌, refl, ◌&&◌, Text, List, [], ◌∷◌, some, none, arith, All, count_where, ◌==◌,
}
use concurrent_flight_bookin.Config.{default_settings}
use concurrent_flight_bookin.Domain.Enums.{SeatStatus}
use concurrent_flight_bookin.Domain.Models.{SeatInventory, Db}
use concurrent_flight_bookin.Holds.{acquire_hold, sweep_expired_holds, takeable, upper}
use concurrent_flight_bookin.Holds.Outcomes.{Explained, acquire_hold-Explained}
use concurrent_flight_bookin.Holds.Race.{Attempt, winners, winners_at_most_one}
use concurrent_flight_bookin.Holds.Schema.{
  IsConsistent, Call, acquires, releases, sweeps, run_calls, run_calls-IsConsistent,
}
use concurrent_flight_bookin.Holds.Sweep.{sweep-takeable}

-- "1A", "1B" and "1C".
abbrev seat_1a : SeatInventory
seat_1a = record {
  id = 1;
  flight_id = 7;
  seat_no = b'1' ∷ b'A' ∷ [];
  row_no = 1;
  seat_letter = b'A';
  price = 12500;
  status = SeatStatus.available;
  held_by_user_id = none;
  hold_id = none;
  hold_expires_at = none;
  booking_id = none;
  version = 0;
}

abbrev seat_1b : SeatInventory
seat_1b = record {
  id = 2;
  flight_id = 7;
  seat_no = b'1' ∷ b'B' ∷ [];
  row_no = 1;
  seat_letter = b'B';
  price = 12500;
  status = SeatStatus.held;
  held_by_user_id = some 4;
  hold_id = some 40;
  hold_expires_at = some 500;
  booking_id = none;
  version = 3;
}

abbrev seat_1c : SeatInventory
seat_1c = record {
  id = 3;
  flight_id = 7;
  seat_no = b'1' ∷ b'C' ∷ [];
  row_no = 1;
  seat_letter = b'C';
  price = 12500;
  status = SeatStatus.booked;
  held_by_user_id = some 5;
  hold_id = none;
  hold_expires_at = none;
  booking_id = some 90;
  version = 2;
}

abbrev seats : List SeatInventory
seats = seat_1a ∷ seat_1b ∷ seat_1c ∷ []

abbrev db : Db
db = record {
  flights = [];
  seats = seats;
  bookings = [];
  passengers = [];
  payments = [];
  audit = [];
  tickets =
      record {
        id = 1;
        booking_id = 90;
        passenger_id = 8;
        seat_inventory_id = 3;
        e_ticket_no = [];
        voided_at = none;
      }
      ∷ [];
}

-- "1a", as a client may type it.
abbrev typed : Text
typed = b'1' ∷ b'a' ∷ []

abbrev racers : List Attempt
racers =
    record { now = 1000; hold_id = 50; user_id = 4 }
    ∷ record { now = 1001; hold_id = 51; user_id = 5 }
    ∷ record { now = 1001; hold_id = 52; user_id = 6 }
    ∷ []

abbrev calls : List Call
calls = acquires 1000 60 4 7 typed none ∷ sweeps 1001 ∷ releases 60 4 ∷ []

-- Of three racers one wins.
one_winner : winners default_settings 7 typed racers seats ≡ 1
unfolding winners acquire_hold upper same
one_winner = refl

winners_at_most_one_example : winners default_settings 7 typed racers seats ≤ 1
unfolding upper same
winners_at_most_one_example =
    winners_at_most_one default_settings 7 typed racers 1000 seats (omega arith) (omega arith)

acquire_hold-Explained_example :
    Explained default_settings 1000 60 4 7 typed none seats
      (acquire_hold default_settings 1000 60 4 7 typed none seats)
acquire_hold-Explained_example =
    acquire_hold-Explained default_settings 1000 60 4 7 typed none seats

run_calls-IsConsistent_example : All IsConsistent (run_calls default_settings calls seats)
run_calls-IsConsistent_example =
    run_calls-IsConsistent default_settings calls seats
      ((refl, refl), ((refl, refl), ((refl, refl), tt)))

sweep-takeable_example :
    count_where (λ s. s.flight_id == 7 && takeable 900 s) (sweep_expired_holds 800 seats).1
    ≡ count_where (λ s. s.flight_id == 7 && takeable 900 s) seats
sweep-takeable_example =
    sweep-takeable 800 900 (λ s. s.flight_id == 7) seats (λ s. refl) (omega arith)

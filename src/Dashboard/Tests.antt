-- ===== src/Dashboard/Tests.antt =====
-- A flight with two live holds and one that lapsed, and a log of two events.
use concurrent_flight_bookin.Prelude.{
  ℕ, ◌+◌, ◌≡◌, refl, Option, none, some, Text, List, [], ◌∷◌, length,
}
use concurrent_flight_bookin.Config.{default_settings}
use concurrent_flight_bookin.Domain.Enums.{SeatStatus}
use concurrent_flight_bookin.Domain.Models.{Db, SeatInventory}
use concurrent_flight_bookin.Admin.{LoggedEvent, list_security_events}
use concurrent_flight_bookin.Dashboard.{active_holds, stats, security_events, high}
use concurrent_flight_bookin.Dashboard.Agreement.{min, active_holds-stats}

abbrev held : ℕ → ℕ → ℕ → SeatInventory
held id user expires = record {
  id = id;
  flight_id = 7;
  seat_no = [];
  row_no = 1;
  seat_letter = b'A';
  price = 12500;
  status = SeatStatus.held;
  held_by_user_id = some user;
  hold_id = some (40 + id);
  hold_expires_at = some expires;
  booking_id = none;
  version = 0;
}

abbrev db : Db
db = record {
  flights =
      record {
        id = 7;
        flight_no = [];
        airline_iata = [];
        src_iata = [];
        dst_iata = [];
        depart_at = 0;
        arrive_at = 1;
        aircraft_type = [];
        base_fare = 0;
        currency = [];
      }
      ∷ [];
  seats = held 1 4 2000 ∷ held 2 4 500 ∷ held 3 5 1500 ∷ [];
  bookings = [];
  passengers = [];
  payments = [];
  tickets = [];
  audit = [];
}

abbrev events : List LoggedEvent
events =
    record { id = 2; occurred_at = 90; event_type = []; severity = high }
    ∷ record { id = 1; occurred_at = 80; event_type = []; severity = [] }
    ∷ []

active_holds-stats_example :
    (length (active_holds 1000 1003 1 [] db) ≡ min 1 (stats 1000 db events).active_holds)
    × (security_events 1 (some high) events
        ≡ (list_security_events
            (record { event_type = none; severity = some high; since = none })
            none
            1
            events).items)
active_holds-stats_example =
    active_holds-stats 1000 1003 1 [] (some high) db events (refl, (refl, (refl, tt)))

abbrev credentials : Option (Text × Text)
credentials = some (default_settings.dashboard_user, default_settings.dashboard_password)

-- ===== src/Admin/Tests.antt =====
-- A log of three events; a fourth is appended after the first query.
use concurrent_flight_bookin.Prelude.{
  ℕ, zero, suc, ◌≡◌, refl, arith, List, [], ◌∷◌, none, some, Text, select, same, ◌+◌,
}
use concurrent_flight_bookin.Admin.{LoggedEvent, EventQuery, matches}
use concurrent_flight_bookin.Admin.Cursor.{Grows, read_log, read_log-select}

abbrev logged : ℕ → Text → LoggedEvent
logged id severity = record {
  id = id;
  occurred_at = 100 + id;
  event_type = [];
  severity = severity;
}

abbrev high : Text
high = b'h' ∷ b'i' ∷ b'g' ∷ b'h' ∷ []

abbrev old_log : List LoggedEvent
old_log = logged 3 high ∷ logged 2 [] ∷ logged 1 high ∷ []

abbrev appended : ℕ → List LoggedEvent
appended zero = logged 4 high ∷ []
appended (suc k) = []

abbrev tables : ℕ → List LoggedEvent
tables zero = old_log
tables (suc k) = logged 4 high ∷ old_log

abbrev only_high : EventQuery
only_high = record { event_type = none; severity = some high; since = none }

tables-Grows : Grows only_high 1 tables appended
tables-Grows zero = (refl, omega arith)
tables-Grows (suc k) = (refl, omega arith)

read_log-select_example :
    read_log only_high 1 tables appended 9 0 none ≡ select (matches only_high) old_log
unfolding same
read_log-select_example =
    read_log-select only_high 1 tables appended 9 tables-Grows (omega arith) (omega arith)

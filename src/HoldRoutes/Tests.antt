-- ===== src/HoldRoutes/Tests.antt =====
-- Two holds of a user, one of them lapsed, and one of another's.
use concurrent_flight_bookin.Prelude.{
  ℕ, true, ◌≡◌, ◌≢◌, Option, none, some, Text, List, [], ◌∷◌, All, leb, length, if◌then◌else◌, ◌==◌,
  count_where,
}
use concurrent_flight_bookin.Config.{Settings, default_settings}
use concurrent_flight_bookin.Domain.Enums.{SeatStatus}
use concurrent_flight_bookin.Domain.Models.{SeatInventory}
use concurrent_flight_bookin.Holds.{count_active_holds, releasable}
use concurrent_flight_bookin.HoldRoutes.{create_hold, list_my_holds, delete_hold}
use concurrent_flight_bookin.HoldRoutes.Listing.{is_capped, list_my_holds-create_hold}
use concurrent_flight_bookin.HoldRoutes.Deleting.{deletion_status, delete_hold-again}

abbrev row : ℕ → ℕ → SeatStatus → Option ℕ → Option ℕ → Option ℕ → SeatInventory
row id letter status user hold expires = record {
  id = id;
  flight_id = 7;
  seat_no = b'1' ∷ letter ∷ [];
  row_no = 1;
  seat_letter = letter;
  price = 12500;
  status = status;
  held_by_user_id = user;
  hold_id = hold;
  hold_expires_at = expires;
  booking_id = none;
  version = 0;
}

abbrev seats : List SeatInventory
seats =
    row 3 b'C' SeatStatus.held (some 5) (some 41) (some 2000)
    ∷ row 2 b'B' SeatStatus.held (some 4) (some 40) (some 500)
    ∷ row 1 b'A' SeatStatus.held (some 4) (some 42) (some 2500)
    ∷ []

abbrev typed : Text
typed = b'1' ∷ b'B' ∷ []

abbrev one_hold : Settings
one_hold = record default_settings { max_active_holds_per_user = 1 }

list_my_holds-create_hold_example :
    (is_capped (create_hold one_hold 1000 1003 60 4 7 typed [] seats).0
      ≡ leb one_hold.max_active_holds_per_user (length (list_my_holds 1000 1003 4 [] seats)))
    × All (λ r. r.active ≡ true) (list_my_holds 1000 1000 4 [] seats)
list_my_holds-create_hold_example =
    list_my_holds-create_hold one_hold 1000 60 4 7 typed [] seats 1003

delete_hold-again_example :
    let (r, after) = delete_hold (λ rows. rows) 4 42 seats in
    let (again, at_last) = delete_hold (λ rows. rows) 4 42 after in
    (deletion_status r ≡ (if count_where (releasable 42 (some 4)) seats == 0 then 404 else 204))
    × (deletion_status again ≡ 404)
    × (at_last ≡ after)
    × ((u now : ℕ) → u ≢ 4 → count_active_holds now u after ≡ count_active_holds now u seats)
delete_hold-again_example = delete_hold-again 4 42 seats

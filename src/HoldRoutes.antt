-- ===== src/HoldRoutes.antt =====
-- app/api/holds.py: the routes over app/services/holds.py. `now` is the `func.now()` of a statement and `read_at` the
-- `datetime.now` of an answer, one for a whole list. The cabin is left out.
pub mod Listing
pub mod Deleting
mod Tests
use Prim.Native.Nat.{◌/◌}
use concurrent_flight_bookin.Prelude.{
  ℕ, ◌-◌, Bool, true, false, ◌&&◌, Option, none, some, List, [], ◌∷◌, map, Text, ltb, leb, ◌==◌,
  if◌then◌else◌, select, first,
}
use concurrent_flight_bookin.Errors.{Exc, AppError}
use concurrent_flight_bookin.Config.{Settings}
use concurrent_flight_bookin.Domain.Enums.{SeatStatus, seat_is}
use concurrent_flight_bookin.Domain.Models.{SeatInventory, Flight, SecurityEvent}
use concurrent_flight_bookin.Holds.{Result, ok, err, acquire_hold, release_hold, active_hold}
use concurrent_flight_bookin.Authz.{Owned, found, denied, owned_hold}

pub record HoldResponse : Type 0 where
  pub hold_id : Option ℕ
  pub flight_id : ℕ
  pub seat_no : Text
  pub price : ℕ
  pub currency : Text
  pub expires_at : Option ℕ
  pub seconds_remaining : ℕ
  pub active : Bool

-- `max(0, int(delta))`, and `delta > 0`.
abbrev pub seconds_until : ℕ → Option ℕ → ℕ
seconds_until read_at none = 0
seconds_until read_at (some e) = (e - read_at) / 1000000

abbrev pub is_active : ℕ → SeatInventory → Bool
is_active read_at seat = elim seat.hold_expires_at [
  | none ↦ false
  | some e ↦ ltb read_at e && seat_is seat.status SeatStatus.held
]

abbrev pub to_response : ℕ → Text → SeatInventory → HoldResponse
to_response read_at currency seat = record {
  hold_id = seat.hold_id;
  flight_id = seat.flight_id;
  seat_no = seat.seat_no;
  price = seat.price;
  currency = currency;
  expires_at = seat.hold_expires_at;
  seconds_remaining = seconds_until read_at seat.hold_expires_at;
  active = is_active read_at seat;
}

-- `... or "CAD"`
abbrev pub or_cad : Text → Text
or_cad [] = b'C' ∷ b'A' ∷ b'D' ∷ []
or_cad (c ∷ cs) = c ∷ cs

abbrev pub currency_for : ℕ → List Flight → Text
currency_for flight_id flights = elim (first (λ f. f.id == flight_id) flights) [
  | none ↦ or_cad []
  | some f ↦ or_cad f.currency
]

abbrev pub response_for : ℕ → List Flight → SeatInventory → HoldResponse
response_for read_at flights seat = to_response read_at (currency_for seat.flight_id flights) seat

abbrev pub answer_hold : ℕ → List Flight → Result SeatInventory → Result HoldResponse
answer_hold read_at flights (ok seat) = ok (response_for read_at flights seat)
answer_hold read_at flights (err e) = err e

unfoldable pub create_hold :
    (settings : Settings) (now read_at hold_id user_id flight_id : ℕ) (seat_no : Text)
    (flights : List Flight) (seats : List SeatInventory)
    → Result HoldResponse × List SeatInventory
create_hold settings now read_at hold_id user_id flight_id seat_no flights seats =
    let (r, after) = acquire_hold settings now hold_id user_id flight_id seat_no none seats in
    (answer_hold read_at flights r, after)

-- `ORDER BY hold_expires_at`; the rows of the listing all have one.
abbrev pub ends_before : SeatInventory → SeatInventory → Bool
ends_before s t = elim s.hold_expires_at [
  | none ↦ false
  | some a ↦ elim t.hold_expires_at [ none ↦ true | some b ↦ leb a b ]
]

unfoldable pub insert_by_expiry : SeatInventory → List SeatInventory → List SeatInventory
insert_by_expiry s [] = s ∷ []
insert_by_expiry s (t ∷ ts) =
    let rest = insert_by_expiry s ts in if ends_before s t then s ∷ t ∷ ts else t ∷ rest

unfoldable pub order_by_expiry : List SeatInventory → List SeatInventory
unfolding insert_by_expiry
order_by_expiry [] = []
order_by_expiry (s ∷ ss) = insert_by_expiry s (order_by_expiry ss)

unfoldable pub list_my_holds : ℕ → ℕ → ℕ → List Flight → List SeatInventory → List HoldResponse
list_my_holds now read_at user_id flights seats =
    map (response_for read_at flights) (order_by_expiry (select (active_hold now user_id) seats))

abbrev pub answer_owned : ℕ → List Flight → Owned SeatInventory → Owned HoldResponse
answer_owned read_at flights (found seat) = found (response_for read_at flights seat)
answer_owned read_at flights (denied e event) = denied e event

unfoldable pub get_hold : ℕ → ℕ → ℕ → List Flight → List SeatInventory → Owned HoldResponse
get_hold read_at user_id hold_id flights seats =
    answer_owned read_at flights (owned_hold user_id hold_id seats)

-- 204; a 404 of the authorization, with its event; or the 404 of a hold that went in between.
pub data Deletion : Type 0 where
  no_content : Deletion
  not_owned : SecurityEvent → Deletion
  no_longer_active : Deletion

abbrev pub deletion_of : Bool → Deletion
deletion_of true = no_content
deletion_of false = no_longer_active

-- `others` is what the other sessions commit between the two statements.
unfoldable pub delete_hold :
    (List SeatInventory → List SeatInventory)
    → ℕ
    → ℕ
    → List SeatInventory
    → Deletion × List SeatInventory
delete_hold others user_id hold_id seats = elim (owned_hold user_id hold_id seats) [
  | denied e event ↦ (not_owned event, seats)
  | found seat ↦
      let (released, after) = release_hold hold_id seat.held_by_user_id (others seats) in
      (deletion_of released, after)
]

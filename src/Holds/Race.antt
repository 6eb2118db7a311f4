-- ===== src/Holds/Race.antt =====
-- Who gets a seat: the outcomes of one `acquire_hold`, and of many that race for the same seat.
use concurrent_flight_bookin.Prelude.{
  ℕ, ◌+◌, ◌≤◌, ◌<◌, All, count-update_where, ◌≡◌, refl, Bool, true, ◌&&◌, none, List, [], ◌∷◌, Text,
  arith, first, count_where, first-update_where, All-map, ◌⊎◌, inl, inr,
}
use concurrent_flight_bookin.Errors.{Exc, AppError}
use concurrent_flight_bookin.Domain.Models.{SeatInventory}
use concurrent_flight_bookin.Config.{Settings, seconds}
use concurrent_flight_bookin.Holds.{
  Result, ok, err, take_seat, takeable, is_seat, held_for, acquire_hold, upper,
}

-- A 201 counts 1.
abbrev pub granted : Result SeatInventory → ℕ
granted (ok _) = 1
granted (err _) = 0

module _ (flight_id : ℕ) (seat_no : Text) where
  -- The seat asked for, and whether it can be taken.
  abbrev pub wanted : SeatInventory → Bool
  wanted s = is_seat flight_id seat_no s

  abbrev pub free_at : ℕ → SeatInventory → Bool
  free_at now s = is_seat flight_id seat_no s && takeable now s

  -- The seat is in nobody's reach up to and at `until`.
  abbrev pub OutOfReach : ℕ → List SeatInventory → Type 0
  OutOfReach until seats = first (free_at until) seats ≡ none

  free_at_mono :
      (now later : ℕ) (s : SeatInventory)
      → now ≤ later
      → free_at now s ≡ true
      → free_at later s ≡ true
  free_at_mono now later s h = ground arith

  OutOfReach-mono :
      (now until : ℕ) (seats : List SeatInventory)
      → now ≤ until
      → OutOfReach until seats
      → OutOfReach now seats
  OutOfReach-mono now until [] h o = refl
  OutOfReach-mono now until (s ∷ seats) h o =
      ground (arith, free_at_mono now until s h, OutOfReach-mono now until seats h)

  -- An attempt is refused and changes nothing, or is granted and puts the seat out of everybody's reach until it
  -- expires.
  take_seat-cases :
      (now expires hold_id user_id : ℕ) (seats : List SeatInventory)
      → count_where wanted seats ≤ 1
      → let (r, after) = take_seat now expires hold_id user_id flight_id seat_no seats in
        ((granted r ≡ 0) × (after ≡ seats)) ⊎ ((granted r ≡ 1) × OutOfReach expires after)
  unfolding take_seat
  take_seat-cases now expires hold_id user_id seats unique = ground (
    arith,
    first-update_where wanted (free_at now) (free_at expires) (held_for user_id hold_id expires)
        seats (λ x. ground arith) (λ x. ground arith) (λ x. refl) (λ x. ground arith) unique,
  )

  -- While the seat is out of reach an attempt is refused and changes nothing.
  take_seat-refused :
      (now expires hold_id user_id : ℕ) (seats : List SeatInventory)
      → OutOfReach now seats
      → 0 < count_where wanted seats
      → take_seat now expires hold_id user_id flight_id seat_no seats
        ≡ (err (Exc.app AppError.seat_unavailable), seats)
  unfolding take_seat
  take_seat-refused now expires hold_id user_id seats o exists = ground arith

  -- Neither an attempt that wins nor one that loses adds or drops a row.
  take_seat-count :
      (now expires hold_id user_id : ℕ) (seats : List SeatInventory)
      → count_where wanted (take_seat now expires hold_id user_id flight_id seat_no seats).1
        ≡ count_where wanted seats
  unfolding take_seat
  take_seat-count now expires hold_id user_id seats = ground (
    arith,
    count-update_where wanted (free_at now) (held_for user_id hold_id expires) seats (λ x e. refl),
  )

-- One POST /holds of the race: when it ran, the id that it drew, and who sent it.
pub record Attempt : Type 0 where
  pub now : ℕ
  pub hold_id : ℕ
  pub user_id : ℕ

module _ (settings : Settings) (flight_id : ℕ) (seat_no : Text) where
  abbrev attempt : Attempt → List SeatInventory → Result SeatInventory × List SeatInventory
  attempt a seats = acquire_hold settings a.now a.hold_id a.user_id flight_id seat_no none seats

  -- How many of the attempts are answered by 201, run in the order in which they get the row lock.
  unfoldable pub winners : List Attempt → List SeatInventory → ℕ
  winners [] seats = 0
  winners (a ∷ rest) seats = granted (attempt a seats).0 + winners rest (attempt a seats).1

  lost :
      (a : Attempt) (seats : List SeatInventory)
      → OutOfReach flight_id (upper seat_no) a.now seats
      → (granted (attempt a seats).0 ≡ 0) × ((attempt a seats).1 ≡ seats)
  unfolding acquire_hold take_seat
  lost a seats o = (ground arith, ground arith)

  winners-lost :
      (attempts : List Attempt) (until : ℕ) (seats : List SeatInventory)
      → OutOfReach flight_id (upper seat_no) until seats
      → All (λ a. a.now ≤ until) attempts
      → winners attempts seats ≡ 0
  unfolding winners
  winners-lost [] until seats o h = refl
  winners-lost (a ∷ rest) until seats o h =
      let l = lost a seats (OutOfReach-mono flight_id (upper seat_no) a.now until seats h.0 o) in
      rw (l.0, l.1, winners-lost rest until seats o h.1) (omega arith)

  won :
      (a : Attempt) (seats : List SeatInventory)
      → count_where (wanted flight_id (upper seat_no)) seats ≤ 1
      → ((granted (attempt a seats).0 ≡ 0) × ((attempt a seats).1 ≡ seats))
        ⊎ ((granted (attempt a seats).0 ≡ 1)
            × OutOfReach flight_id
                (upper seat_no)
                (a.now + seconds settings.hold_ttl_seconds)
                (attempt a seats).1)
  unfolding acquire_hold
  won a seats unique = ground (
    arith,
    take_seat-cases flight_id (upper seat_no) a.now (a.now + seconds settings.hold_ttl_seconds)
        a.hold_id a.user_id seats unique,
  )

  -- Of any number of attempts at one seat that all run within one hold's lifetime, at most one is granted.
  pub winners_at_most_one :
      (attempts : List Attempt) (start : ℕ) (seats : List SeatInventory)
      → count_where (wanted flight_id (upper seat_no)) seats ≤ 1
      → All (λ a. (start ≤ a.now) × (a.now ≤ start + seconds settings.hold_ttl_seconds)) attempts
      → winners attempts seats ≤ 1
  unfolding winners
  winners_at_most_one [] start seats unique h = omega arith
  winners_at_most_one (a ∷ rest) start seats unique h = elim (won a seats unique) [
    | inl l ↦ rw (l.0, l.1) (omega (arith, winners_at_most_one rest start seats unique h.1))
    | inr w ↦ rw w.0 (
        omega (
          arith,
          winners-lost rest (a.now + seconds settings.hold_ttl_seconds) (attempt a seats).1 w.1
              (All-map _ _ rest (λ x g. omega arith) h.1),
        ))
  ]

-- ===== src/Holds/Outcomes.antt =====
-- The answers of `acquire_hold`: which of them is given, and what it leaves in the table.
use concurrent_flight_bookin.Prelude.{
  ℕ, ◌≤◌, ◌<◌, ◌≡◌, ◌&&◌, Bool, true, some, none, List, Text, arith, first, count_where,
  update_where, Option, ◌+◌, ltb, first-holds, Option-cases, Bool-cases, inl, inr, refl, leb, ◌==◌,
}
use concurrent_flight_bookin.Config.{Settings, seconds}
use concurrent_flight_bookin.Errors.{Exc, AppError}
use concurrent_flight_bookin.Domain.Models.{SeatInventory}
use concurrent_flight_bookin.Holds.{
  Result, ok, err, acquire_hold, take_seat, takeable, is_seat, held_for, upper, count_active_holds,
  ttl_or,
}

module _ (settings : Settings) (now hold_id user_id flight_id : ℕ) (seat_no : Text) (ttl : Option ℕ)
    (seats : List SeatInventory) where
  -- The seat asked for, whether it can be taken now, and how it is written when it is.
  abbrev asked : SeatInventory → Bool
  asked s = is_seat flight_id (upper seat_no) s

  abbrev open_seat : SeatInventory → Bool
  open_seat s = is_seat flight_id (upper seat_no) s && takeable now s

  abbrev write : SeatInventory → SeatInventory
  write = held_for user_id hold_id (now + seconds (ttl_or ttl settings.hold_ttl_seconds))

  abbrev pub Granted : SeatInventory → List SeatInventory → Type 0
  Granted s after =
      (r : SeatInventory) × (first open_seat seats ≡ some r)
      × (takeable now r ≡ true)
      × (s ≡ write r)
      × (after ≡ update_where open_seat write seats)
      × (count_active_holds now user_id seats < settings.max_active_holds_per_user)

  -- What each answer says of the table that the call met.
  abbrev pub Explained : Result SeatInventory × List SeatInventory → Type 0
  Explained (ok s, after) = Granted s after
  Explained (err (Exc.app AppError.too_many_holds), after) =
      (after ≡ seats) × (settings.max_active_holds_per_user ≤ count_active_holds now user_id seats)
  Explained (err (Exc.app AppError.not_found), after) =
      (after ≡ seats) × (count_where asked seats ≡ 0)
  Explained (err (Exc.app AppError.seat_unavailable), after) =
      (after ≡ seats) × (0 < count_where asked seats) × (first open_seat seats ≡ none)
  Explained (err _, after) = ⊥

  taken-Explained :
      ltb (count_active_holds now user_id seats) settings.max_active_holds_per_user ≡ true
      → Explained (
          take_seat now
            (now + seconds (ttl_or ttl settings.hold_ttl_seconds))
            hold_id
            user_id
            flight_id
            (upper seat_no)
            seats)
  unfolding take_seat
  taken-Explained h = elim (Option-cases (first open_seat seats)) [
    | inr (r, found) ↦
        rw (found, take_seat)
          (r, found, ground (arith, first-holds open_seat seats r), refl, refl, ground arith)
    | inl missing ↦ elim (Bool-cases (count_where asked seats == 0)) [
      | inl absent ↦ rw (missing, take_seat) (rw absent (refl, ground arith))
      | inr there ↦ rw (missing, take_seat) (rw there (refl, ground arith, missing))
    ]
  ]

  -- Every call of `acquire_hold` ends in one of four ways: it grants a seat that could be taken, by the UPDATE of the
  -- rows of that seat, to a user below the cap; or it changes nothing and says truly that the user is at the cap, that
  -- the flight has no such seat, or that the seat exists and cannot be taken.
  pub acquire_hold-Explained :
      Explained (acquire_hold settings now hold_id user_id flight_id seat_no ttl seats)
  unfolding acquire_hold
  acquire_hold-Explained =
      elim (Bool-cases
        (leb settings.max_active_holds_per_user (count_active_holds now user_id seats))) [
          | inl capped ↦ rw (capped, acquire_hold) (refl, ground arith)
          | inr room ↦ rw (room, acquire_hold) (taken-Explained (ground arith))
        ]

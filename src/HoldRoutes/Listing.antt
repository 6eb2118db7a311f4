-- ===== src/HoldRoutes/Listing.antt =====
-- The holds that a user is shown are those that count against the cap.
use concurrent_flight_bookin.Prelude.{
  ℕ, ◌<◌, ◌≡◌, refl, sym, ◌∙◌, inl, inr, Bool, true, false, none, List, [], ◌∷◌, Text, arith, leb,
  length, select, count_where, count-select, count_same, length-count, length-map, All, All-map,
  All-of_map, All-select, Bool-cases,
}
use concurrent_flight_bookin.Errors.{Exc, AppError}
use concurrent_flight_bookin.Config.{Settings}
use concurrent_flight_bookin.Domain.Models.{SeatInventory, Flight}
use concurrent_flight_bookin.Holds.{Result, ok, err, acquire_hold, active_hold, count_active_holds}
use concurrent_flight_bookin.Holds.Outcomes.{Explained, acquire_hold-Explained}
use concurrent_flight_bookin.HoldRoutes.{
  list_my_holds, order_by_expiry, insert_by_expiry, response_for, is_active, create_hold,
  HoldResponse, answer_hold,
}

count-insert_by_expiry :
    (p : SeatInventory → Bool) (s : SeatInventory) (ss : List SeatInventory)
    → count_where p (insert_by_expiry s ss) ≡ count_where p (s ∷ ss)
unfolding insert_by_expiry
count-insert_by_expiry p s [] = refl
count-insert_by_expiry p s (t ∷ ts) = ground (arith, count-insert_by_expiry p s ts)

pub count-order_by_expiry :
    (p : SeatInventory → Bool) (ss : List SeatInventory)
    → count_where p (order_by_expiry ss) ≡ count_where p ss
unfolding order_by_expiry
count-order_by_expiry p [] = refl
count-order_by_expiry p (s ∷ ss) =
    ground (arith, count-insert_by_expiry p s (order_by_expiry ss), count-order_by_expiry p ss)

length-list_my_holds :
    (now read_at user_id : ℕ) (flights : List Flight) (seats : List SeatInventory)
    → length (list_my_holds now read_at user_id flights seats)
      ≡ count_active_holds now user_id seats
unfolding list_my_holds count_active_holds
length-list_my_holds now read_at user_id flights seats =
    length-map (response_for read_at flights)
      (order_by_expiry (select (active_hold now user_id) seats))
    ∙ length-count (order_by_expiry (select (active_hold now user_id) seats))
    ∙ count-order_by_expiry (λ _. true) (select (active_hold now user_id) seats)
    ∙ count-select (λ _. true) (active_hold now user_id) seats
    ∙ count_same _ _ seats (λ s. ground arith)

All-insert_by_expiry :
    (P : SeatInventory → Type 0) (s : SeatInventory) (ss : List SeatInventory)
    → P s
    → All P ss
    → All P (insert_by_expiry s ss)
unfolding insert_by_expiry
All-insert_by_expiry P s [] h hs = (h, tt)
All-insert_by_expiry P s (t ∷ ts) h hs = ground (arith, All-insert_by_expiry P s ts h hs.1)

All-order_by_expiry :
    (P : SeatInventory → Type 0) (ss : List SeatInventory) → All P ss → All P (order_by_expiry ss)
unfolding order_by_expiry
All-order_by_expiry P [] h = tt
All-order_by_expiry P (s ∷ ss) h =
    All-insert_by_expiry P s (order_by_expiry ss) h.0 (All-order_by_expiry P ss h.1)

list_my_holds-active :
    (now user_id : ℕ) (flights : List Flight) (seats : List SeatInventory)
    → All (λ r. r.active ≡ true) (list_my_holds now now user_id flights seats)
unfolding list_my_holds
list_my_holds-active now user_id flights seats =
    All-of_map (response_for now flights) (λ r. r.active ≡ true)
      (order_by_expiry (select (active_hold now user_id) seats))
      (All-order_by_expiry (λ s. is_active now s ≡ true) (select (active_hold now user_id) seats)
        (All-map (λ s. active_hold now user_id s ≡ true) (λ s. is_active now s ≡ true)
          (select (active_hold now user_id) seats) (λ s h. ground arith)
          (All-select (active_hold now user_id) seats)))

-- A refusal for too many holds.
abbrev pub is_capped : Result HoldResponse → Bool
is_capped (err (Exc.app AppError.too_many_holds)) = true
is_capped (err _) = false
is_capped (ok _) = false

module _ (settings : Settings) (now hold_id user_id flight_id : ℕ) (seat_no : Text)
    (flights : List Flight) (seats : List SeatInventory) where
  room-is_capped :
      (read_at : ℕ) (r : Result SeatInventory × List SeatInventory)
      → Explained settings now hold_id user_id flight_id seat_no none seats r
      → count_active_holds now user_id seats < settings.max_active_holds_per_user
      → is_capped (answer_hold read_at flights r.0) ≡ false
  room-is_capped read_at (ok s, after) h room = refl
  room-is_capped read_at (err (Exc.app AppError.too_many_holds), after) h room =
      absurd (omega arith)
  room-is_capped read_at (err (Exc.app AppError.not_found), after) h room = refl
  room-is_capped read_at (err (Exc.app AppError.seat_unavailable), after) h room = refl
  room-is_capped read_at (err e, after) h room = absurd h

  create_hold-is_capped :
      (read_at : ℕ)
      → is_capped
          (create_hold settings now read_at hold_id user_id flight_id seat_no flights seats).0
        ≡ leb settings.max_active_holds_per_user (count_active_holds now user_id seats)
  unfolding create_hold acquire_hold
  create_hold-is_capped read_at =
      elim (Bool-cases
        (leb settings.max_active_holds_per_user (count_active_holds now user_id seats))) [
          | inl capped ↦ rw (capped, create_hold, acquire_hold) refl
          | inr room ↦
              room-is_capped read_at
                (acquire_hold settings now hold_id user_id flight_id seat_no none seats)
                (acquire_hold-Explained settings now hold_id user_id flight_id seat_no none seats)
                (ground arith)
              ∙ sym room
        ]

  -- The list of a user's holds tells whether the user may hold another seat at that moment: POST /holds refuses for too
  -- many holds exactly if the list is as long as the cap, or longer. What is listed is active, if it is answered at the
  -- moment of the query.
  pub list_my_holds-create_hold :
      (read_at : ℕ)
      → (is_capped
            (create_hold settings now read_at hold_id user_id flight_id seat_no flights seats).0
          ≡ leb settings.max_active_holds_per_user
              (length (list_my_holds now read_at user_id flights seats)))
        × All (λ r. r.active ≡ true) (list_my_holds now now user_id flights seats)
  list_my_holds-create_hold read_at = (
    rw (length-list_my_holds now read_at user_id flights seats) (create_hold-is_capped read_at),
    list_my_holds-active now user_id flights seats,
  )

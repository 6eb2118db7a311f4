-- ===== src/Saga/Recheck.antt =====
-- The check of `_issue_tickets` against the objects of step 1, which are all that it sees of the seats.
use concurrent_flight_bookin.Prelude.{
  ℕ, ◌≡◌, ◌≢◌, refl, ◌∙◌, Bool, false, not, ◌&&◌, List, [], ◌∷◌, arith, ◌==◌, map, select,
  count_where, count-select, count_same, count-map, Text,
}
use concurrent_flight_bookin.Errors.{Exc, AppError}
use concurrent_flight_bookin.Domain.Models.{Booking, SeatInventory}
use concurrent_flight_bookin.Saga.Session.{World, Outcome, ok, raised}
use concurrent_flight_bookin.Saga.Begin.{
  Draws, BookingCreate, Begun, begin_booking, held_under, lock_seats_for_holds, order_by_row,
  pinned,
}
use concurrent_flight_bookin.Saga.Ticketing.{
  issue_tickets, TicketDraw, is_lost, reselect, order_by_id,
}
use concurrent_flight_bookin.Saga.Ordering.{count-order_by_id, count-order_by_row}
use concurrent_flight_bookin.Saga.Verified.{Verified, issue_tickets-Verified, All-IsOurs}

-- Rows that a stronger test cannot pass.
none_left :
    (p q : SeatInventory → Bool) (ss : List SeatInventory)
    → count_where p ss ≡ 0
    → count_where (λ s. p s && q s) ss ≡ 0
none_left p q [] h = refl
none_left p q (s ∷ ss) h = ground (arith, none_left p q ss)

none_of_none : (ss : List SeatInventory) → count_where (λ s. false) ss ≡ 0
none_of_none [] = refl
none_of_none (s ∷ ss) = none_of_none ss

-- The objects of step 1, found again by whatever rows there are, are all ours.
none_lost :
    (booking : Booking) (user_id : ℕ) (hold_ids : List ℕ) (seats rows : List SeatInventory)
    → count_where (is_lost booking user_id) (
        reselect
          (map
            (pinned booking.id)
            (order_by_row (order_by_id (select (held_under hold_ids user_id) seats))))
          rows)
      ≡ 0
none_lost booking user_id hold_ids seats rows =
    let lost = is_lost booking user_id in
    let held = held_under hold_ids user_id in
    let locked = order_by_id (select held seats) in
    let objects = map (pinned booking.id) (order_by_row locked) in
    let found : SeatInventory → Bool = λ o. not (count_where (λ r. r.id == o.id) rows == 0) in
    let fresh : SeatInventory → Bool = λ s. lost (pinned booking.id s) in
    count-order_by_id lost (select found objects)
    ∙ count-select lost found objects
    ∙ none_left lost found objects (
        count-map lost (pinned booking.id) (order_by_row locked)
        ∙ count-order_by_row fresh locked
        ∙ count-order_by_id fresh (select held seats)
        ∙ count-select fresh held seats
        ∙ count_same (λ s. fresh s && held s) (λ s. false) seats (λ s. ground arith)
        ∙ none_of_none seats)

module _ {G : Type 0} where
  -- Step 1 hands on the objects of the locked seats, with the booking's id written into them.
  abbrev HandsOn : Draws → ℕ → BookingCreate → World G → Outcome Begun × World G → Type 0
  HandsOn draws user_id payload w (ok begun, w') =
      (begun.booking.id ≡ draws.booking_id)
      × (begun.seats
          ≡ map (pinned draws.booking_id)
              (order_by_row (lock_seats_for_holds payload.hold_ids user_id w.db.seats)))
  HandsOn draws user_id payload w (raised e, w') = Unit

  begin_booking-HandsOn :
      (draws : Draws) (user_id : ℕ) (payload : BookingCreate) (key : Text) (w : World G)
      → HandsOn draws user_id payload w (begin_booking draws user_id payload key w)
  unfolding begin_booking
  begin_booking-HandsOn draws user_id payload key w = ground arith

  blind :
      (booking : Booking) (user_id : ℕ) (card_token : Text) (locked : List SeatInventory)
      (w : World G) (r : Outcome Booking × World G)
      → count_where (is_lost booking user_id) locked ≡ 0
      → Verified booking user_id card_token locked w r
      → r.0 ≢ raised (Exc.app AppError.seat_unavailable)
  blind booking user_id card_token locked w (raised (Exc.app AppError.seat_unavailable), w') h v =
      λ e. v.0 (All-IsOurs booking user_id locked h)
  blind booking user_id card_token locked w (ok b, w') h v = λ e. cc
  blind booking user_id card_token locked w (raised x, w') h v = λ e. cc

  -- The check on the far side of the charge finds no seat lost: with the booking, the passengers and the seats that step 1
  -- handed on, `_issue_tickets` does not raise SeatUnavailable, at any time and on any tables, whatever other sessions
  -- have made of the rows of the seats since step 1.
  pub begin_booking-issue_tickets :
      (draws : Draws) (user_id : ℕ) (payload : BookingCreate) (key : Text) (w w₁ w₂ : World G)
      (begun : Begun) (paid : Booking) (now : ℕ) (card_token : Text) (draw : ℕ → TicketDraw)
      → begin_booking draws user_id payload key w ≡ (ok begun, w₁)
      → paid.id ≡ begun.booking.id
      → (issue_tickets now paid begun.rows begun.seats user_id card_token draw w₂).0
        ≢ raised (Exc.app AppError.seat_unavailable)
  unfolding lock_seats_for_holds
  begin_booking-issue_tickets draws user_id payload key w w₁ w₂ begun paid now card_token draw e i =
      let on : HandsOn draws user_id payload w (ok begun, w₁) =
        rw e at (begin_booking-HandsOn draws user_id payload key w) in
      blind paid user_id card_token (reselect begun.seats w₂.db.seats) w₂
        (issue_tickets now paid begun.rows begun.seats user_id card_token draw w₂)
        (rw (on.1, ← on.0, ← i) (none_lost paid user_id payload.hold_ids w.db.seats w₂.db.seats))
        (issue_tickets-Verified now paid begun.rows begun.seats user_id card_token draw w₂)

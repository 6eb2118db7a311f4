-- ===== src/Saga/Oversell/Pinning.antt =====
-- Step 1 pins seats that are held, so that no live ticket is for them.
use concurrent_flight_bookin.Prelude.{
  ℕ, ◌<◌, ◌≡◌, refl, sym, ap, ◌∙◌, inl, inr, Bool, true, false, ◌&&◌, List, [], ◌∷◌, arith, ◌==◌,
  All, All-map, count_where, update_where, Bool-cases, Text, select, map, count-select, count_mono,
}
use concurrent_flight_bookin.Domain.Enums.{SeatStatus, seat_is, BookingState}
use concurrent_flight_bookin.Domain.Models.{SeatInventory, Ticket}
use concurrent_flight_bookin.Saga.Session.{World, Outcome, ok, raised}
use concurrent_flight_bookin.Saga.Begin.{
  Draws, BookingCreate, Begun, begin_booking, lock_seats_for_holds, held_under, is_expired,
  order_by_row, pinned,
}
use concurrent_flight_bookin.Saga.Ticketing.{elem, order_by_id}
use concurrent_flight_bookin.Saga.Oversell.{AllSold, IsSold, BothSold, DistinctIds}
use concurrent_flight_bookin.Saga.Oversell.Tables.{AllSold-unsold, DistinctIds-update_where}
use concurrent_flight_bookin.Saga.Oversell.Issue.{OursIn, ids_of}
use concurrent_flight_bookin.Saga.Ordering.{count-order_by_id, count-order_by_row}

-- A row that fails a test is one more with its id than those that pass it.
count_failing :
    (q : SeatInventory → Bool) (seats : List SeatInventory)
    → All
        (λ r.
          q r ≡ false
          → count_where (λ s. s.id == r.id && q s) seats < count_where (λ s. s.id == r.id) seats)
        seats
count_failing q [] = tt
count_failing q (r ∷ seats) = (
  λ e.
      ground (
        arith,
        count_mono (λ s. s.id == r.id && q s) (λ s. s.id == r.id) seats (λ s. ground arith),
      ),
  All-map _ _ seats (λ s h e. ground (arith, h e)) (count_failing q seats),
)

elem-count :
    (x : ℕ) (ss : List SeatInventory)
    → elem x (map (λ s. s.id) ss) ≡ true
    → 0 < count_where (λ s. s.id == x) ss
elem-count x [] h = cc
elem-count x (s ∷ ss) h = ground (arith, elem-count x ss)

-- With the ids of the rows that pass a test come no others.
elem-passing :
    (q : SeatInventory → Bool) (seats : List SeatInventory)
    → DistinctIds seats
    → All
        (λ r.
          elem r.id (map (λ s. s.id) (order_by_row (order_by_id (select q seats)))) ≡ true
          → q r ≡ true)
        seats
elem-passing q seats distinct =
    All-map _ _ seats
      (λ r h e. elim (Bool-cases (q r)) [
        | inl passes ↦ passes
        | inr fails ↦ absurd (
            ground (
              arith,
              h fails,
              distinct r.id,
              elem-count r.id (order_by_row (order_by_id (select q seats))) e,
              count-order_by_row (λ s. s.id == r.id) (order_by_id (select q seats)),
              count-order_by_id (λ s. s.id == r.id) (select q seats),
              count-select (λ s. s.id == r.id) q seats,
            ))
      ])
      (count_failing q seats)

-- What passes the lock and is not expired is held.
count_held :
    (now : ℕ) (q : SeatInventory → Bool) (seats : List SeatInventory)
    → count_where (is_expired now) (order_by_id (select q seats)) ≡ 0
    → All (λ s. q s ≡ true → seat_is s.status SeatStatus.booked ≡ false) seats
count_held now q seats h = none_expired seats (
    sym
      (count-order_by_id (is_expired now) (select q seats) ∙ count-select (is_expired now) q seats)
    ∙ h)
  where
    none_expired :
        (xs : List SeatInventory)
        → count_where (λ s. is_expired now s && q s) xs ≡ 0
        → All (λ s. q s ≡ true → seat_is s.status SeatStatus.booked ≡ false) xs
    none_expired [] k = tt
    none_expired (x ∷ xs) k = (λ e. ground arith, none_expired xs (ground arith))

All-both {ℓ κ μ} :
    {A : Type 0} (P : A → Type ℓ) (Q : A → Type κ) (R : A → Type μ) (xs : List A)
    → ((x : A) → P x → Q x → R x)
    → All P xs
    → All Q xs
    → All R xs
All-both P Q R [] both p q = tt
All-both P Q R (x ∷ xs) both p q = (both x p.0 q.0, All-both P Q R xs both p.1 q.1)

pinned-AllSold :
    (now booking_id : ℕ) (q : SeatInventory → Bool) (seats : List SeatInventory)
    (tickets : List Ticket)
    → DistinctIds seats
    → count_where (is_expired now) (order_by_id (select q seats)) ≡ 0
    → AllSold seats tickets
    → AllSold
        (update_where
          (λ s. elem s.id (map (λ r. r.id) (order_by_row (order_by_id (select q seats)))))
          (pinned booking_id)
          seats)
        tickets
pinned-AllSold now booking_id q seats tickets distinct live h =
    AllSold-unsold _ (pinned booking_id) seats tickets (λ s. refl)
      (All-both _ _ _ seats (λ s a b e. b (a e)) (elem-passing q seats distinct)
        (count_held now q seats live))
      h

ids_of-pinned :
    (booking_id : ℕ) (ss : List SeatInventory)
    → ids_of (map (pinned booking_id) ss) ≡ map (λ r. r.id) ss
ids_of-pinned booking_id [] = refl
ids_of-pinned booking_id (s ∷ ss) = ap (λ xs. s.id ∷ xs) (ids_of-pinned booking_id ss)

pinned-OursIn :
    (booking_id : ℕ) (seat_ids : List ℕ) (seats : List SeatInventory)
    → All
        (OursIn booking_id seat_ids)
        (update_where (λ s. elem s.id seat_ids) (pinned booking_id) seats)
pinned-OursIn booking_id seat_ids [] = tt
pinned-OursIn booking_id seat_ids (s ∷ seats) =
    let rest = pinned-OursIn booking_id seat_ids seats in
    elim (Bool-cases (elem s.id seat_ids)) [
      | inl here ↦ rw here (λ e. ground arith, rest)
      | inr past ↦ rw past (λ e. cc, rest)
    ]

module _ {G : Type 0} where
  -- What step 1 writes to the seats and the tickets.
  abbrev Pinned : Draws → ℕ → BookingCreate → World G → Outcome Begun × World G → Type 0
  Pinned draws user_id payload w (ok begun, w') =
      (w'.saved ≡ w'.db)
      × (w'.db.tickets ≡ w.db.tickets)
      × (begun.booking.id ≡ draws.booking_id)
      × (begun.booking.state ≡ BookingState.pending)
      × (count_where (is_expired draws.checked_at)
            (lock_seats_for_holds payload.hold_ids user_id w.db.seats)
          ≡ 0)
      × (w'.db.seats
          ≡ update_where
              (λ s. elem s.id (
                map (λ r. r.id)
                  (order_by_row (lock_seats_for_holds payload.hold_ids user_id w.db.seats))))
              (pinned draws.booking_id) w.db.seats)
      × (begun.seats
          ≡ map (pinned draws.booking_id)
              (order_by_row (lock_seats_for_holds payload.hold_ids user_id w.db.seats)))
  Pinned draws user_id payload w (raised e, w') = w'.saved ≡ w.saved

  begin_booking-Pinned :
      (draws : Draws) (user_id : ℕ) (payload : BookingCreate) (key : Text) (w : World G)
      → Pinned draws user_id payload w (begin_booking draws user_id payload key w)
  unfolding begin_booking
  begin_booking-Pinned draws user_id payload key w = ground arith

  abbrev pub BegunSold : Draws → World G → Outcome Begun × World G → Type 0
  BegunSold draws w (ok begun, w') =
      BothSold w'
      × (w'.db.tickets ≡ w.db.tickets)
      × (begun.booking.id ≡ draws.booking_id)
      × (begun.booking.state ≡ BookingState.pending)
      × All (OursIn draws.booking_id (ids_of begun.seats)) w'.db.seats
  BegunSold draws w (raised e, w') = IsSold w'.saved

  pub begin_booking-BegunSold :
      (draws : Draws) (user_id : ℕ) (payload : BookingCreate) (key : Text) (w : World G)
      → BothSold w
      → BegunSold draws w (begin_booking draws user_id payload key w)
  unfolding lock_seats_for_holds
  begin_booking-BegunSold draws user_id payload key w h =
      go (begin_booking draws user_id payload key w)
        (begin_booking-Pinned draws user_id payload key w)
    where
      go : (r : Outcome Begun × World G) → Pinned draws user_id payload w r → BegunSold draws w r
      go (raised e, w') p = rw p h.1
      go (ok begun, w') p =
          let now_sold : IsSold w'.db =
            rw (p.5, p.1)
              (
                DistinctIds-update_where _ (pinned draws.booking_id) w.db.seats (λ s. refl) h.0.0,
                pinned-AllSold draws.checked_at draws.booking_id
                    (held_under payload.hold_ids user_id) w.db.seats w.db.tickets h.0.0 p.4 h.0.1,
              ) in
          let locked = order_by_row (lock_seats_for_holds payload.hold_ids user_id w.db.seats) in
          (
            (now_sold, rw p.0 now_sold),
            p.1,
            p.2,
            p.3,
            rw (p.6, ids_of-pinned draws.booking_id locked, p.5)
                (pinned-OursIn draws.booking_id (map (λ r. r.id) locked) w.db.seats),
          )

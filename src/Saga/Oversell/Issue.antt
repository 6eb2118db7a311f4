-- ===== src/Saga/Oversell/Issue.antt =====
-- Issuing tickets keeps tickets and seats in step, if the rows of the seats are still pinned to the booking: each ticket is
-- for one of them, which is sold with it.
use concurrent_flight_bookin.Prelude.{
  ℕ, ◌<◌, ◌≡◌, refl, inl, inr, Bool, true, not, ◌&&◌, some, List, [], ◌∷◌, arith, ◌==◌, map, is_eq,
  All, All-update_where, count_where, update_where, Bool-cases, Option-cases, Text, select, first,
  first-holds, first-found, count-select,
}
use concurrent_flight_bookin.Domain.Enums.{BookingState, AuditEventType}
use concurrent_flight_bookin.Domain.Models.{Booking, BookingPassenger, SeatInventory, Ticket}
use concurrent_flight_bookin.Payments.Triggers.{trigger_for}
use concurrent_flight_bookin.Saga.Session.{
  World, journal, Action, raise_if_some, modify, save_booking, commit, pure, ◌>>◌,
}
use concurrent_flight_bookin.Domain.States.{assert_can_transition}
use concurrent_flight_bookin.Saga.Ticketing.{
  elem, reselect, is_lost, journal_reclaimed, TicketDraw, issue_one, issue_each, issue_tickets,
  is_ticketing_failure, clashes, ticket_for, assigned, sold, is_refused,
}
use concurrent_flight_bookin.Saga.Verified.{reclaimed-seats, guard-cases, issue_each-Uncommitted}
use concurrent_flight_bookin.Saga.Ordering.{count-order_by_id}
use concurrent_flight_bookin.Saga.Oversell.{Fits, AllSold, IsSold, BothSold}
use concurrent_flight_bookin.Saga.Oversell.Tables.{
  AllSold-update_where, DistinctIds-update_where, Any, All-Any,
}
use concurrent_flight_bookin.Saga.Ending.{ended}

-- The seats with these ids are pinned to the booking.
abbrev pub OursIn : ℕ → List ℕ → SeatInventory → Type 0
OursIn booking_id seat_ids s = elem s.id seat_ids ≡ true → is_eq s.booking_id booking_id ≡ true

-- The ids of the session's objects.
abbrev pub ids_of : List SeatInventory → List ℕ
ids_of objects = map (λ s. s.id) objects

-- A seat of a passenger is one of the objects.
count-elem :
    (x : ℕ) (q : SeatInventory → Bool) (objects : List SeatInventory)
    → 0 < count_where (λ s. s.id == x && q s) objects
    → elem x (ids_of objects) ≡ true
count-elem x q [] h = absurd (omega arith)
count-elem x q (s ∷ objects) h = elim (Bool-cases (s.id == x)) [
  | inl here ↦ ground arith
  | inr past ↦ ground (arith, count-elem x q objects)
]

assigned-elem :
    (p : BookingPassenger) (objects rows : List SeatInventory) (seat : SeatInventory)
    → assigned p (reselect objects rows) ≡ some seat
    → elem seat.id (ids_of objects) ≡ true
assigned-elem p objects rows seat h = elim (Option-cases p.seat_inventory_id) [
  | inl unassigned ↦ cc
  | inr (y, at) ↦
      (let q : SeatInventory → Bool = λ o. not (count_where (λ r. r.id == o.id) rows == 0) in
        let found : first (λ s. s.id == y) (reselect objects rows) ≡ some seat = rw at at h in
        let same_id : seat.id ≡ y =
          ground (arith, first-holds (λ s. s.id == y) (reselect objects rows) seat found) in
        rw same_id (
          count-elem y q objects (
            ground (
              arith,
              first-found (λ s. s.id == y) (reselect objects rows) seat found,
              count-order_by_id (λ s. s.id == y) (select q objects),
              count-select (λ s. s.id == y) q objects,
            ))))
]

-- The new ticket fits the table once its seat is sold.
new_ticket-Fits :
    (booking : Booking) (p : BookingPassenger) (seat : SeatInventory) (d : TicketDraw)
    (seat_ids : List ℕ) (seats : List SeatInventory)
    → elem seat.id seat_ids ≡ true
    → All (OursIn booking.id seat_ids) seats
    → Fits (update_where (λ s. s.id == seat.id) (sold seat) seats) (ticket_for booking p seat.id d)
new_ticket-Fits booking p seat d seat_ids [] known ours = tt
new_ticket-Fits booking p seat d seat_ids (s ∷ seats) known ours =
    let rest = new_ticket-Fits booking p seat d seat_ids seats known ours.1 in
    elim (Bool-cases (s.id == seat.id)) [
      | inl here ↦
          (let at : s.id ≡ seat.id = ground arith in
            let pinned_here : is_eq s.booking_id booking.id ≡ true = ours.0 (rw at known) in
            rw here (ground arith, rest))
      | inr past ↦ rw past (ground arith, rest)
    ]

sold-AllSold :
    (booking : Booking) (seat_ids : List ℕ) (seat : SeatInventory) (seats : List SeatInventory)
    (tickets : List Ticket)
    → All (OursIn booking.id seat_ids) seats
    → AllSold seats tickets
    → AllSold (update_where (λ s. s.id == seat.id) (sold seat) seats) tickets
sold-AllSold booking seat_ids seat seats tickets ours h =
    AllSold-update_where (OursIn booking.id seat_ids) Any (λ s. s.id == seat.id) (sold seat) seats
      tickets (λ t s r k e fit. ground arith) ours (All-Any tickets) h

sold-OursIn :
    (booking : Booking) (seat_ids : List ℕ) (seat : SeatInventory) (seats : List SeatInventory)
    → All (OursIn booking.id seat_ids) seats
    → All (OursIn booking.id seat_ids) (update_where (λ s. s.id == seat.id) (sold seat) seats)
sold-OursIn booking seat_ids seat seats ours =
    All-update_where (OursIn booking.id seat_ids) (λ s. s.id == seat.id) (sold seat) seats
      (λ s e k. k) ours

module _ {G : Type 0} (booking : Booking) (seat_ids : List ℕ) where
  abbrev pub Ready : World G → Type 0
  Ready w = All (OursIn booking.id seat_ids) w.db.seats × IsSold w.db

  issue_one-Ready :
      (locked : List SeatInventory) (p : BookingPassenger) (d : TicketDraw) (w : World G)
      → ((x : SeatInventory) → assigned p locked ≡ some x → elem x.id seat_ids ≡ true)
      → Ready w
      → Ready (issue_one booking locked p d w).1
  unfolding issue_one
  issue_one-Ready locked p d w known h = elim (Option-cases (assigned p locked)) [
    | inl missing ↦ rw (missing, issue_one) h
    | inr (x, at) ↦
        elim (Bool-cases (
          count_where (clashes (ticket_for booking p x.id d)) w.db.tickets == 0
          && count_where (is_refused x) w.db.seats == 0)) [
            | inr clash ↦ rw (at, issue_one) (rw clash h)
            | inl free ↦
                rw (at, issue_one)
                  (rw free (
                    sold-OursIn booking seat_ids x w.db.seats h.0,
                    (
                      DistinctIds-update_where (λ s. s.id == x.id) (sold x) w.db.seats (λ s. refl)
                          h.1.0,
                      (
                        new_ticket-Fits booking p x d seat_ids w.db.seats (known x at) h.0,
                        sold-AllSold booking seat_ids x w.db.seats w.db.tickets h.0 h.1.1,
                      ),
                    ),
                  ))
          ]
  ]

  issue_each-Ready :
      (locked : List SeatInventory) (ps : List BookingPassenger) (draw : ℕ → TicketDraw)
      (w : World G)
      → ((p : BookingPassenger) (x : SeatInventory)
          → assigned p locked ≡ some x
          → elem x.id seat_ids ≡ true)
      → Ready w
      → Ready (issue_each booking locked ps draw w).1
  unfolding issue_each
  issue_each-Ready locked [] draw w known h = h
  issue_each-Ready locked (p ∷ ps) draw w known h =
      ended (λ x. Ready x.1) (issue_one booking locked p (draw p.id) w)
        (λ _. issue_each booking locked ps draw)
        (λ a w' e.
          issue_each-Ready locked ps draw w' known
            (rw e at (issue_one-Ready locked p (draw p.id) w (known p) h)))
        (λ x w' e. rw e at (issue_one-Ready locked p (draw p.id) w (known p) h))

module _ {G : Type 0} (booking : Booking) where
  -- The end of `_issue_tickets`, once each passenger has a ticket.
  abbrev finish : Action G Booking
  finish = do
    raise_if_some (assert_can_transition booking.state BookingState.ticketed)
    modify (
        journal booking.id AuditEventType.tickets_issued (some booking.state)
          (some BookingState.ticketed))
    let ticketed = record booking { state = BookingState.ticketed }
    modify (save_booking ticketed)
    commit
    pure ticketed

  finish-BothSold : (w : World G) → IsSold w.db → IsSold w.saved → BothSold (finish w).1
  finish-BothSold w h k = elim (guard-cases booking.state BookingState.ticketed) [
    | inl passes ↦ rw passes (h, h)
    | inr fails ↦ rw fails (h, k)
  ]

  pub issue_tickets-BothSold :
      (now : ℕ) (passengers : List BookingPassenger) (seats : List SeatInventory) (user_id : ℕ)
      (card_token : Text) (draw : ℕ → TicketDraw) (w : World G)
      → All (OursIn booking.id (ids_of seats)) w.db.seats
      → BothSold w
      → BothSold (issue_tickets now booking passengers seats user_id card_token draw w).1
  unfolding issue_tickets
  issue_tickets-BothSold now passengers seats user_id card_token draw w pins h =
      let locked = reselect seats w.db.seats in
      let marked : World G = record w { db = journal_reclaimed now booking user_id locked w.db } in
      let tables = reclaimed-seats now booking user_id locked w.db in
      let still : IsSold marked.db = rw (tables.0, tables.1) h.0 in
      elim (Bool-cases (count_where (is_lost booking user_id) locked == 0)) [
        | inr lost ↦ rw (lost, issue_tickets) (still, h.1)
        | inl ours ↦
            let ready : Ready booking (ids_of seats) marked = (rw tables.0 pins, still) in
            elim (Bool-cases (is_ticketing_failure (trigger_for card_token))) [
              | inl fails ↦ rw (ours, issue_tickets) (rw fails (still, h.1))
              | inr works ↦
                  rw (ours, issue_tickets)
                    (rw works (
                      let each =
                        issue_each-Ready booking (ids_of seats) locked passengers draw marked
                          (λ p x. assigned-elem p seats w.db.seats x) ready in
                      let saved =
                        (issue_each-Uncommitted booking locked passengers draw marked).0 in
                      ended (λ x. BothSold x.1) (issue_each booking locked passengers draw marked)
                        (λ _. finish)
                        (λ _ w' e. finish-BothSold w' (rw e at each).1 (rw (rw e at saved).0 h.1))
                        (λ x w' e. ((rw e at each).1, rw (rw e at saved).0 h.1))))
            ]
      ]

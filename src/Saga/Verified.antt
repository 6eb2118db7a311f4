-- ===== src/Saga/Verified.antt =====
-- How `_issue_tickets` ends, by what it finds of the seats' objects.
use concurrent_flight_bookin.Prelude.{
  ℕ, ◌≡◌, refl, ◌≢◌, ◌⊎◌, true, false, none, some, List, [], ◌∷◌, Text, arith, count_where, All,
  Bool-cases, inl, inr, ◌==◌,
}
use concurrent_flight_bookin.Errors.{Exc, AppError}
use concurrent_flight_bookin.Domain.Enums.{BookingState, AuditEventType}
use concurrent_flight_bookin.Domain.Models.{Db, Booking, BookingPassenger, SeatInventory}
use concurrent_flight_bookin.Domain.States.{assert_can_transition}
use concurrent_flight_bookin.Payments.Triggers.{trigger_for}
use concurrent_flight_bookin.Saga.Session.{World, Outcome, ok, raised, journal}
use concurrent_flight_bookin.Saga.Ticketing.{
  reselect, is_lost, journal_reclaimed, TicketDraw, issue_one, issue_each, issue_tickets,
  is_ticketing_failure,
}

-- The guard raises IllegalTransition or nothing.
pub guard-cases :
    (s t : BookingState)
    → (assert_can_transition s t ≡ none) ⊎ (assert_can_transition s t ≡ some Exc.illegal_transition)
unfolding assert_can_transition
guard-cases s t = ground arith

-- The first loop writes to the journal only.
pub reclaimed-seats :
    (now : ℕ) (booking : Booking) (user_id : ℕ) (ss : List SeatInventory) (db : Db)
    → ((journal_reclaimed now booking user_id ss db).seats ≡ db.seats)
      × ((journal_reclaimed now booking user_id ss db).tickets ≡ db.tickets)
unfolding journal_reclaimed
reclaimed-seats now booking user_id [] db = (refl, refl)
reclaimed-seats now booking user_id (s ∷ ss) db = ground (
  arith,
  reclaimed-seats now booking user_id ss db,
  reclaimed-seats now booking user_id ss (journal booking.id AuditEventType.hold_lost none none db),
)

-- The seat is pinned to the booking and held by the user.
abbrev pub IsOurs : Booking → ℕ → SeatInventory → Type 0
IsOurs booking user_id s = (s.booking_id ≡ some booking.id) × (s.held_by_user_id ≡ some user_id)

IsOurs-one :
    (booking : Booking) (user_id : ℕ) (s : SeatInventory)
    → is_lost booking user_id s ≡ false
    → IsOurs booking user_id s
IsOurs-one booking user_id s h = (ground arith, ground arith)

lost_one :
    (booking : Booking) (user_id : ℕ) (s : SeatInventory)
    → is_lost booking user_id s ≡ true
    → ¬ IsOurs booking user_id s
lost_one booking user_id s h o = ground arith

pub All-IsOurs :
    (booking : Booking) (user_id : ℕ) (ss : List SeatInventory)
    → count_where (is_lost booking user_id) ss ≡ 0
    → All (IsOurs booking user_id) ss
All-IsOurs booking user_id [] h = tt
All-IsOurs booking user_id (s ∷ ss) h = elim (Bool-cases (is_lost booking user_id s)) [
  | inl lost ↦ absurd (ground arith)
  | inr kept ↦ (IsOurs-one booking user_id s kept, All-IsOurs booking user_id ss (ground arith))
]

not-All-IsOurs :
    (booking : Booking) (user_id : ℕ) (ss : List SeatInventory)
    → (count_where (is_lost booking user_id) ss == 0) ≡ false
    → ¬ All (IsOurs booking user_id) ss
not-All-IsOurs booking user_id [] h all = cc
not-All-IsOurs booking user_id (s ∷ ss) h all = elim (Bool-cases (is_lost booking user_id s)) [
  | inl lost ↦ lost_one booking user_id s lost all.0
  | inr kept ↦ not-All-IsOurs booking user_id ss (ground arith) all.1
]

module _ {G : Type 0} where
  -- The exceptions that issuing one ticket can raise.
  abbrev pub Uncommitted : {A : Type 0} → World G → Outcome A × World G → Type 0
  Uncommitted w (r, w') = (w'.saved ≡ w.saved) × (w'.gateway ≡ w.gateway)

  issue_one-Uncommitted :
      (booking : Booking) (locked : List SeatInventory) (p : BookingPassenger) (d : TicketDraw)
      (w : World G)
      → Uncommitted w (issue_one booking locked p d w)
        × ((issue_one booking locked p d w).0 ≢ raised (Exc.app AppError.seat_unavailable))
  unfolding issue_one
  issue_one-Uncommitted booking locked p d w = ground arith

  pub issue_each-Uncommitted :
      (booking : Booking) (locked : List SeatInventory) (ps : List BookingPassenger)
      (draw : ℕ → TicketDraw) (w : World G)
      → Uncommitted w (issue_each booking locked ps draw w)
        × ((issue_each booking locked ps draw w).0 ≢ raised (Exc.app AppError.seat_unavailable))
  unfolding issue_each
  issue_each-Uncommitted booking locked [] draw w = ground arith
  issue_each-Uncommitted booking locked (p ∷ ps) draw w = ground (
    arith,
    issue_one-Uncommitted booking locked p (draw p.id) w,
    issue_each-Uncommitted booking locked ps draw (issue_one booking locked p (draw p.id) w).1,
  )

  -- What the call has found of the locked seats, by how it ended.
  abbrev pub Verified :
      Booking → ℕ → Text → List SeatInventory → World G → Outcome Booking × World G → Type 0
  Verified booking user_id card_token locked w (ok b, w') =
      All (IsOurs booking user_id) locked
      × (is_ticketing_failure (trigger_for card_token) ≡ false)
      × (b.state ≡ BookingState.ticketed)
      × (b.id ≡ booking.id)
      × (w'.saved ≡ w'.db)
      × (w'.gateway ≡ w.gateway)
  Verified booking user_id card_token locked w (raised (Exc.app AppError.seat_unavailable), w') =
      (¬ All (IsOurs booking user_id) locked)
      × (w'.db.seats ≡ w.db.seats)
      × (w'.db.tickets ≡ w.db.tickets)
      × (w'.saved ≡ w.saved)
      × (w'.gateway ≡ w.gateway)
  Verified booking user_id card_token locked w (raised e, w') =
      All (IsOurs booking user_id) locked × (w'.saved ≡ w.saved) × (w'.gateway ≡ w.gateway)

  -- Each end of the call, with what its check found.
  pub issue_tickets-Verified :
      (now : ℕ) (booking : Booking) (passengers : List BookingPassenger)
      (seats : List SeatInventory) (user_id : ℕ) (card_token : Text) (draw : ℕ → TicketDraw)
      (w : World G)
      → Verified booking user_id card_token
          (reselect seats w.db.seats)
          w
          (issue_tickets now booking passengers seats user_id card_token draw w)
  unfolding issue_tickets
  issue_tickets-Verified now booking passengers seats user_id card_token draw w =
      let locked = reselect seats w.db.seats in
      let marked : World G = record w { db = journal_reclaimed now booking user_id locked w.db } in
      let tables = reclaimed-seats now booking user_id locked w.db in
      let kept = All-IsOurs booking user_id locked in
      let guard = guard-cases booking.state BookingState.ticketed in
      let issued = issue_each-Uncommitted booking locked passengers draw marked in
      elim (Bool-cases (count_where (is_lost booking user_id) locked == 0)) [
        | inr lost ↦
            rw (lost, issue_tickets)
              (not-All-IsOurs booking user_id locked lost, ground arith, ground arith, refl, refl)
        | inl ours ↦ elim (Bool-cases (is_ticketing_failure (trigger_for card_token))) [
          | inl fails ↦ rw (ours, issue_tickets) (rw fails (kept (ground arith), refl, refl))
          | inr works ↦
              rw (ours, issue_tickets)
                (rw works (ground (arith, tables, guard, issued, kept (ground arith))))
        ]
      ]

-- ===== src/Saga/Journal/Tickets.antt =====
-- A failed payment and the tickets, as the journal tells them.
use concurrent_flight_bookin.Prelude.{
  ℕ, ◌≡◌, refl, inl, inr, some, List, [], ◌∷◌, Text, arith, ◌==◌, Bool-cases, count_where,
}
use concurrent_flight_bookin.Domain.Enums.{BookingState, AuditEventType}
use concurrent_flight_bookin.Domain.Models.{Booking, BookingPassenger, SeatInventory}
use concurrent_flight_bookin.Domain.States.{assert_can_transition}
use concurrent_flight_bookin.Payments.Triggers.{trigger_for}
use concurrent_flight_bookin.Saga.Session.{
  World, Action, Outcome, ok, raised, pure, ◌>>◌, commit, modify, raise_if_some, save_booking,
  journal,
}
use concurrent_flight_bookin.Saga.Ticketing.{
  issue_tickets, issue_each, issue_one, TicketDraw, is_lost, is_ticketing_failure, reselect,
  journal_reclaimed,
}
use concurrent_flight_bookin.Saga.Unwind.{fail_payment}
use concurrent_flight_bookin.Saga.Verified.{guard-cases}
use concurrent_flight_bookin.Saga.Ending.{ended}
use concurrent_flight_bookin.Saga.Journal.{Told, Truthful}
use concurrent_flight_bookin.Saga.Journal.Entries.{note-Told, move-Told, journal_reclaimed-Told}

module _ {G : Type 0} where
  -- The session's journal tells the booking's state, and the committed one is truthful.
  abbrev pub Journaled : ℕ → BookingState → World G → Type 0
  Journaled b s w = Told b s w.db × Truthful b w.saved

  -- After a step that hands a booking on.
  abbrev pub StepJournaled : ℕ → Outcome Booking × World G → Type 0
  StepJournaled b (ok booking, w) = (booking.id ≡ b) × Journaled b booking.state w
  StepJournaled b (raised e, w) = Truthful b w.saved

  -- A move that is committed.
  abbrev pub move : Booking → BookingState → AuditEventType → Action G Booking
  move booking t event = do
    raise_if_some (assert_can_transition booking.state t)
    modify (journal booking.id event (some booking.state) (some t))
    let moved = record booking { state = t }
    modify (save_booking moved)
    commit
    pure moved

  pub move-StepJournaled :
      (booking : Booking) (t : BookingState) (event : AuditEventType) (w : World G)
      → Journaled booking.id booking.state w
      → StepJournaled booking.id (move booking t event w)
  move-StepJournaled booking t event w h = elim (guard-cases booking.state t) [
    | inl passes ↦
        (let told = move-Told booking t event w.db passes h.0 in
          rw passes (refl, (told, inl (t, told))))
    | inr fails ↦ rw fails h.1
  ]

  pub fail_payment-Truthful :
      (booking : Booking) (event : AuditEventType) (w : World G)
      → Journaled booking.id booking.state w
      → Truthful booking.id (fail_payment booking event w).1.saved
  unfolding fail_payment
  fail_payment-Truthful booking event w h =
      elim (guard-cases booking.state BookingState.payment_failed) [
        | inl passes ↦
            rw (passes, fail_payment)
              (inl (
                BookingState.payment_failed,
                move-Told booking BookingState.payment_failed event w.db passes h.0,
              ))
        | inr fails ↦ rw (fails, fail_payment) h.1
      ]

  -- Tickets and seats are no part of the journal.
  abbrev Unjournaled : World G → World G → Type 0
  Unjournaled w w' =
      (w'.db.audit ≡ w.db.audit) × (w'.db.bookings ≡ w.db.bookings) × (w'.saved ≡ w.saved)

  issue_one-Unjournaled :
      (booking : Booking) (locked : List SeatInventory) (p : BookingPassenger) (d : TicketDraw)
      (w : World G)
      → Unjournaled w (issue_one booking locked p d w).1
  unfolding issue_one
  issue_one-Unjournaled booking locked p d w = ground arith

  issue_each-Unjournaled :
      (booking : Booking) (locked : List SeatInventory) (ps : List BookingPassenger)
      (draw : ℕ → TicketDraw) (w : World G)
      → Unjournaled w (issue_each booking locked ps draw w).1
  unfolding issue_each
  issue_each-Unjournaled booking locked [] draw w = (refl, refl, refl)
  issue_each-Unjournaled booking locked (p ∷ ps) draw w = ground (
    arith,
    issue_one-Unjournaled booking locked p (draw p.id) w,
    issue_each-Unjournaled booking locked ps draw (issue_one booking locked p (draw p.id) w).1,
  )

  -- The tickets are issued, or the booking stands as it did.
  abbrev pub TicketsJournaled : Booking → Outcome Booking × World G → Type 0
  TicketsJournaled booking (ok b, w) = (b.id ≡ booking.id) × Journaled booking.id b.state w
  TicketsJournaled booking (raised e, w) = Journaled booking.id booking.state w

  finish-TicketsJournaled :
      (booking : Booking) (w : World G)
      → Journaled booking.id booking.state w
      → TicketsJournaled booking
          (move booking BookingState.ticketed AuditEventType.tickets_issued w)
  finish-TicketsJournaled booking w h =
      let moved =
        move-StepJournaled booking BookingState.ticketed AuditEventType.tickets_issued w h in
      elim (guard-cases booking.state BookingState.ticketed) [
        | inl passes ↦ rw passes (rw passes at moved)
        | inr fails ↦ rw fails h
      ]

  pub issue_tickets-TicketsJournaled :
      (now : ℕ) (booking : Booking) (passengers : List BookingPassenger)
      (seats : List SeatInventory) (user_id : ℕ) (card_token : Text) (draw : ℕ → TicketDraw)
      (w : World G)
      → Journaled booking.id booking.state w
      → TicketsJournaled booking
          (issue_tickets now booking passengers seats user_id card_token draw w)
  unfolding issue_tickets
  issue_tickets-TicketsJournaled now booking passengers seats user_id card_token draw w h =
      let locked = reselect seats w.db.seats in
      let marked : World G = record w { db = journal_reclaimed now booking user_id locked w.db } in
      let told : Told booking.id booking.state marked.db =
        journal_reclaimed-Told now booking user_id booking.state locked w.db h.0 in
      elim (Bool-cases (count_where (is_lost booking user_id) locked == 0)) [
        | inr lost ↦
            rw (lost, issue_tickets)
              (note-Told booking.id booking.state AuditEventType.hold_lost marked.db told, h.1)
        | inl ours ↦ elim (Bool-cases (is_ticketing_failure (trigger_for card_token))) [
          | inl fails ↦
              rw (ours, issue_tickets)
                (rw fails (
                  note-Told booking.id booking.state AuditEventType.ticketing_failed marked.db told,
                  h.1,
                ))
          | inr works ↦
              rw (ours, issue_tickets)
                (rw works (
                  let same = issue_each-Unjournaled booking locked passengers draw marked in
                  let each : Journaled booking.id booking.state
                      (issue_each booking locked passengers draw marked).1 =
                    rw (same.0, same.1, same.2) (told, h.1) in
                  ended (TicketsJournaled booking)
                    (issue_each booking locked passengers draw marked)
                    (λ _. move booking BookingState.ticketed AuditEventType.tickets_issued)
                    (λ _ w' e. finish-TicketsJournaled booking w' (rw e at each))
                    (λ x w' e. rw e at each)))
        ]
      ]

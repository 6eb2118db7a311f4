-- ===== src/Saga/Oversell/Run.antt =====
-- A whole run keeps tickets and seats in step.
use mathlib.Core.Path.{subst}
use concurrent_flight_bookin.Prelude.{
  ℕ, ◌≡◌, refl, sym, ◌∙◌, inl, inr, List, All, Bool-cases, Text, arith,
}
use concurrent_flight_bookin.Errors.{Exc, AppError}
use concurrent_flight_bookin.Domain.Enums.{AuditEventType, Decision}
use concurrent_flight_bookin.Domain.Models.{Db, Booking, Payment, Ticket}
use concurrent_flight_bookin.Payments.{PaymentGateway, AuthorizationResult}
use concurrent_flight_bookin.Saga.Session.{World, Outcome, ok, raised, raise}
use concurrent_flight_bookin.Saga.Begin.{Draws, BookingCreate, Begun, begin_booking}
use concurrent_flight_bookin.Saga.Ticketing.{issue_tickets}
use concurrent_flight_bookin.Saga.Unwind.{fail_payment}
use concurrent_flight_bookin.Saga.Ending.{ended, then_on}
use concurrent_flight_bookin.Saga.{
  run, continue, charge, settle, confirm, recover, is_block, new_payment, add_payment, meanwhile,
  fulfil, collect, pay,
}
use concurrent_flight_bookin.Saga.Oversell.{IsSold, BothSold}
use concurrent_flight_bookin.Saga.Oversell.Tables.{NotOf}
use concurrent_flight_bookin.Saga.Oversell.Issue.{OursIn, ids_of, issue_tickets-BothSold}
use concurrent_flight_bookin.Saga.Oversell.Pinning.{BegunSold, begin_booking-BegunSold}
use concurrent_flight_bookin.Saga.Oversell.Payment.{
  Unissued, fail_payment-BothSold, charge-Unissued, settle-SettledSold, confirm-BothSold,
  recover-BothSold,
}

-- The rows that are pinned to this booking stay so.
abbrev pub KeepsPins : ℕ → (Db → Db) → Type 0
KeepsPins booking_id others =
    (seat_ids : List ℕ) (db : Db)
    → All (OursIn booking_id seat_ids) db.seats
    → All (OursIn booking_id seat_ids) (others db).seats

module _ {G : Type 0} where
  charge-seats :
      (gateway : PaymentGateway G) (draws : Draws) (booking : Booking) (payment : Payment)
      (w : World G)
      → (charge gateway draws booking payment w).1.db.seats ≡ w.db.seats
  unfolding charge
  charge-seats gateway draws booking payment w = ground arith

  -- A booking that goes on after the charge is the same, and the seats are as they were.
  abbrev GoesOn : ℕ → World G → Outcome (Booking × Payment) × World G → Type 0
  GoesOn booking_id w (ok (b, p), w') = (b.id ≡ booking_id) × (w'.db.seats ≡ w.db.seats)
  GoesOn booking_id w (raised e, w') = Unit

  settle-GoesOn :
      (gateway : PaymentGateway G) (booking : Booking) (payment : Payment) (r : AuthorizationResult)
      (w : World G)
      → GoesOn booking.id w (settle gateway booking payment r w)
  unfolding settle
  settle-GoesOn gateway booking payment r w = ground arith

  module _ (gateway : PaymentGateway G) (draws : Draws) (user_id : ℕ) (payload : BookingCreate)
      (others : Db → Db) (tickets : List Ticket) (fresh : All (NotOf draws.booking_id) tickets)
      (kept : (db : Db) → db.tickets ≡ tickets → IsSold db → IsSold (others db))
      (pins : KeepsPins draws.booking_id others) where
    fulfil-BothSold :
        (begun : Begun) (answer : AuthorizationResult) (settled : Booking × Payment) (w : World G)
        → settled.0.id ≡ draws.booking_id
        → All (OursIn draws.booking_id (ids_of begun.seats)) w.db.seats
        → Unissued tickets w
        → BothSold (fulfil gateway draws user_id payload others begun answer settled w).1
    fulfil-BothSold begun answer settled w i ours h =
        let now : World G = (meanwhile others w).1 in
        let after = kept w.db h.1 h.0.0 in
        let tried =
          issue_tickets draws.ticketed_at settled.0 begun.rows begun.seats user_id
            payload.card_token draws.ticket now in
        let issued =
          issue_tickets-BothSold settled.0 draws.ticketed_at begun.rows begun.seats user_id
            payload.card_token draws.ticket now
            (subst (λ x. All (OursIn x (ids_of begun.seats)) now.db.seats) (sym i)
              (pins (ids_of begun.seats) w.db ours))
            (after, after) in
        let recovered =
          recover-BothSold gateway draws.ticketed_at settled.0 settled.1 payload.card_token tried.0
            tried.1 issued in
        ended (λ x. BothSold x.1)
          (recover gateway draws.ticketed_at settled.0 settled.1 payload.card_token tried.0 tried.1)
          (λ b. confirm gateway b settled.1 answer.provider_ref)
          (λ b w' e.
            confirm-BothSold gateway b settled.1 answer.provider_ref w' (rw e at recovered))
          (λ x w' e. rw e at recovered)

    pay-BothSold :
        (begun : Begun) (fingerprint : Text) (w : World G)
        → begun.booking.id ≡ draws.booking_id
        → All (OursIn draws.booking_id (ids_of begun.seats)) w.db.seats
        → Unissued tickets w
        → BothSold (pay gateway draws user_id payload fingerprint others begun w).1
    pay-BothSold begun fingerprint w i ours h =
        let payment : Payment = new_payment draws begun.booking payload.card_token fingerprint in
        let ready : World G = record w {
          db = add_payment payment w.db;
          saved = add_payment payment w.db;
        } in
        let charged =
          charge-Unissued gateway draws begun.booking payment tickets ready ((h.0.0, h.0.0), h.1) in
        ended (λ x. BothSold x.1) (charge gateway draws begun.booking payment ready)
          (collect gateway draws user_id payload others begun)
          (λ a w' e.
            let after : Unissued tickets w' = rw e at charged in
            let seated : All (OursIn draws.booking_id (ids_of begun.seats)) w'.db.seats =
              subst (λ x. All (OursIn draws.booking_id (ids_of begun.seats)) x)
                (sym (rw e at (charge-seats gateway draws begun.booking payment ready))) ours in
            let settled =
              settle-SettledSold gateway begun.booking a.0 a.1 tickets w' (rw i fresh) after in
            ended (λ x. BothSold x.1) (settle gateway begun.booking a.0 a.1 w')
              (fulfil gateway draws user_id payload others begun a.1)
              (λ b w'' e'.
                let on : GoesOn begun.booking.id w' (ok b, w'') =
                  rw e' at (settle-GoesOn gateway begun.booking a.0 a.1 w') in
                fulfil-BothSold begun a.1 b w'' (on.0 ∙ i) (rw on.1 seated) (rw e' at settled))
              (λ x w'' e'. rw e' at settled))
          (λ x w' e. (rw e at charged).0)

    continue-BothSold :
        (begun : Begun) (fingerprint : Text) (decision : Decision) (w : World G)
        → begun.booking.id ≡ draws.booking_id
        → All (OursIn draws.booking_id (ids_of begun.seats)) w.db.seats
        → Unissued tickets w
        → BothSold (continue gateway draws user_id payload fingerprint decision others begun w).1
    unfolding continue
    continue-BothSold begun fingerprint decision w i ours h =
        elim (Bool-cases (is_block decision)) [
          | inl block ↦
              (let failed =
                  fail_payment-BothSold begun.booking AuditEventType.payment_declined tickets w
                    (rw i fresh) h in
                rw (block, continue)
                  (ended
                    (λ x.
                      BothSold
                        (then_on x
                          (λ _. pay gateway draws user_id payload fingerprint others begun)).1)
                    (fail_payment begun.booking AuditEventType.payment_declined w)
                    (λ _. raise {A = Unit {0}} (Exc.app AppError.payment_blocked))
                    (λ a w' e. rw e at failed) (λ x w' e. rw e at failed)))
          | inr go ↦ rw (go, continue) (pay-BothSold begun fingerprint w i ours h)
        ]

    begun-IsSold :
        (key fingerprint : Text) (decision : Decision) (w : World G) (r : Outcome Begun × World G)
        → w.db.tickets ≡ tickets
        → BegunSold draws w r
        → IsSold
            (then_on r (continue gateway draws user_id payload fingerprint decision others)).1.saved
    begun-IsSold key fingerprint decision w (raised e, w') same_tickets b = b
    begun-IsSold key fingerprint decision w (ok begun, w') same_tickets b =
        (continue-BothSold begun fingerprint decision w' b.2 b.4 (b.0, b.1 ∙ same_tickets)).1

  -- No run sells a seat twice, as long as its seats stay pinned. If each live ticket is for a seat that is booked for
  -- the ticket's booking, so that all live tickets of a seat are of one booking, then that holds of what is committed
  -- after a run, whatever the gateway answers and however the run ends. The seats have distinct ids, the drawn id of
  -- the booking is on no live ticket yet, and what the other sessions commit in between keeps tickets and seats in
  -- step as well and leaves the rows that are pinned to this booking pinned to it; the code does not check the latter.
  pub run-IsSold :
      (gateway : PaymentGateway G) (draws : Draws) (user_id : ℕ) (payload : BookingCreate)
      (key fingerprint : Text) (decision : Decision) (others : Db → Db) (w : World G)
      → ((db : Db) → db.tickets ≡ w.db.tickets → IsSold db → IsSold (others db))
      → KeepsPins draws.booking_id others
      → All (NotOf draws.booking_id) w.db.tickets
      → BothSold w
      → IsSold (run gateway draws user_id payload key fingerprint decision others w).1.saved
  unfolding run
  run-IsSold gateway draws user_id payload key fingerprint decision others w kept pins fresh h =
      begun-IsSold gateway draws user_id payload others w.db.tickets fresh kept pins key fingerprint
        decision w (begin_booking draws user_id payload key w) refl
        (begin_booking-BegunSold draws user_id payload key w h)

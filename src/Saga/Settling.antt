-- ===== src/Saga/Settling.antt =====
-- A whole run settles its booking: how it ends, and that the booking's row is there.
use concurrent_flight_bookin.Prelude.{
  ℕ, ◌<◌, ◌≡◌, inl, inr, Bool, true, false, Text, arith, ==_refl, Bool-cases,
}
use concurrent_flight_bookin.Errors.{Exc, AppError}
use concurrent_flight_bookin.Domain.Enums.{AuditEventType, Decision}
use concurrent_flight_bookin.Domain.Models.{Db, Booking, Payment}
use concurrent_flight_bookin.Payments.{PaymentGateway, AuthorizationResult}
use concurrent_flight_bookin.Saga.Session.{World, Outcome, ok, raised, raise}
use concurrent_flight_bookin.Saga.Begin.{Draws, BookingCreate, Begun, begin_booking}
use concurrent_flight_bookin.Saga.Ticketing.{issue_tickets}
use concurrent_flight_bookin.Saga.Unwind.{fail_payment}
use concurrent_flight_bookin.Saga.Reversal.{rows_of}
use concurrent_flight_bookin.Saga.Beginning.{Checked, begin_booking-Checked}
use concurrent_flight_bookin.Saga.Steps.{BeginEnds, begin_booking-Ends}
use concurrent_flight_bookin.Saga.Ending.{ended, then_on, Settled, run_ends}
use concurrent_flight_bookin.Saga.Standing.{
  Stands, fail_payment-Stands, charge-Stands, settle-Stands, confirm-Stands, issue_tickets-Stands,
  recover-Stands,
}
use concurrent_flight_bookin.Saga.{
  run, continue, charge, settle, confirm, recover, is_block, new_payment, add_payment, meanwhile,
  fulfil, collect, pay,
}

-- The exceptions of step 1, before there is a booking.
abbrev pub is_refusal : Exc → Bool
is_refusal (Exc.app AppError.not_found) = true
is_refusal (Exc.app AppError.hold_expired) = true
is_refusal (Exc.app AppError.seat_unavailable) = true
is_refusal Exc.no_unique_pnr = true
is_refusal Exc.zip_length = true
is_refusal e = false

-- A row of the booking is not taken away.
abbrev pub KeepsRow : ℕ → (Db → Db) → Type 0
KeepsRow booking_id others =
    (db : Db) → 0 < rows_of booking_id db.bookings → 0 < rows_of booking_id (others db).bookings

module _ {G : Type 0} where
  -- The booking is in the table, as committed, unless step 1 refused it.
  abbrev pub HasRow : ℕ → Outcome Booking × World G → Type 0
  HasRow booking_id (ok b, w) = 0 < rows_of booking_id w.saved.bookings
  HasRow booking_id (raised e, w) = is_refusal e ≡ false → 0 < rows_of booking_id w.saved.bookings

  standing-HasRow :
      (booking_id : ℕ) (r : Outcome Booking × World G) → Stands booking_id r.1 → HasRow booking_id r
  standing-HasRow booking_id (ok b, w) h = h.1
  standing-HasRow booking_id (raised e, w) h = λ _. h.1

  module _ (gateway : PaymentGateway G) (draws : Draws) (user_id : ℕ) (payload : BookingCreate)
      (others : Db → Db) (kept : KeepsRow draws.booking_id others) where
    fulfil-Stands :
        (begun : Begun) (answer : AuthorizationResult) (settled : Booking × Payment) (w : World G)
        → Stands draws.booking_id w
        → Stands draws.booking_id
            (fulfil gateway draws user_id payload others begun answer settled w).1
    fulfil-Stands begun answer settled w h =
        let now : World G = (meanwhile others w).1 in
        let tried =
          issue_tickets draws.ticketed_at settled.0 begun.rows begun.seats user_id
            payload.card_token draws.ticket now in
        let issued =
          issue_tickets-Stands draws.booking_id draws.ticketed_at settled.0 begun.rows begun.seats
            user_id payload.card_token draws.ticket now (kept w.db h.0, kept w.db h.0) in
        let recovered =
          recover-Stands draws.booking_id gateway draws.ticketed_at settled.0 settled.1
            payload.card_token tried.0 tried.1 issued in
        ended (λ x. Stands draws.booking_id x.1)
          (recover gateway draws.ticketed_at settled.0 settled.1 payload.card_token tried.0 tried.1)
          (λ b. confirm gateway b settled.1 answer.provider_ref)
          (λ b w' e.
            confirm-Stands draws.booking_id gateway b settled.1 answer.provider_ref w'
              (rw e at recovered))
          (λ x w' e. rw e at recovered)

    pay-Stands :
        (begun : Begun) (fingerprint : Text) (w : World G)
        → Stands draws.booking_id w
        → Stands draws.booking_id (pay gateway draws user_id payload fingerprint others begun w).1
    pay-Stands begun fingerprint w h =
        let payment : Payment = new_payment draws begun.booking payload.card_token fingerprint in
        let ready : World G = record w {
          db = add_payment payment w.db;
          saved = add_payment payment w.db;
        } in
        let charged =
          charge-Stands draws.booking_id gateway draws begun.booking payment ready (h.0, h.0) in
        ended (λ x. Stands draws.booking_id x.1) (charge gateway draws begun.booking payment ready)
          (collect gateway draws user_id payload others begun)
          (λ a w' e.
            let after : Stands draws.booking_id w' = rw e at charged in
            let settled = settle-Stands draws.booking_id gateway begun.booking a.0 a.1 w' after in
            ended (λ x. Stands draws.booking_id x.1) (settle gateway begun.booking a.0 a.1 w')
              (fulfil gateway draws user_id payload others begun a.1)
              (λ b w'' e'. fulfil-Stands begun a.1 b w'' (rw e' at settled))
              (λ x w'' e'. rw e' at settled))
          (λ x w' e. rw e at charged)

    continue-Stands :
        (begun : Begun) (fingerprint : Text) (decision : Decision) (w : World G)
        → Stands draws.booking_id w
        → Stands draws.booking_id
            (continue gateway draws user_id payload fingerprint decision others begun w).1
    unfolding continue
    continue-Stands begun fingerprint decision w h = elim (Bool-cases (is_block decision)) [
      | inl block ↦
          (let failed =
              fail_payment-Stands draws.booking_id begun.booking AuditEventType.payment_declined w
                h in
            rw (block, continue)
              (ended
                (λ x.
                  Stands draws.booking_id
                    (then_on x (λ _. pay gateway draws user_id payload fingerprint others begun)).1)
                (fail_payment begun.booking AuditEventType.payment_declined w)
                (λ _. raise {A = Unit {0}} (Exc.app AppError.payment_blocked))
                (λ a w' e. rw e at failed) (λ x w' e. rw e at failed)))
      | inr go ↦ rw (go, continue) (pay-Stands begun fingerprint w h)
    ]

    begun-HasRow :
        (fingerprint : Text) (decision : Decision) (w : World G) (r : Outcome Begun × World G)
        → BeginEnds draws r
        → Checked draws user_id payload w r
        → HasRow draws.booking_id
            (then_on r (continue gateway draws user_id payload fingerprint decision others))
    begun-HasRow fingerprint decision w (ok begun, w') h c =
        let row : 0 < rows_of draws.booking_id w'.db.bookings =
          rw c.10 (ground (arith, c.8, ==_refl draws.booking_id)) in
        standing-HasRow draws.booking_id
          (continue gateway draws user_id payload fingerprint decision others begun w')
          (continue-Stands begun fingerprint decision w' (row, rw c.6 row))
    begun-HasRow fingerprint decision w (raised (Exc.app AppError.not_found), w') h c = λ e. cc
    begun-HasRow fingerprint decision w (raised (Exc.app AppError.hold_expired), w') h c = λ e. cc
    begun-HasRow fingerprint decision w (raised (Exc.app AppError.seat_unavailable), w') h c =
        λ e. cc
    begun-HasRow fingerprint decision w (raised Exc.no_unique_pnr, w') h c = λ e. cc
    begun-HasRow fingerprint decision w (raised Exc.zip_length, w') h c = λ e. cc
    begun-HasRow fingerprint decision w (raised e, w') h c = absurd h

  -- However a run ends, its booking is settled. If it returns, it returns the booking as CONFIRMED, and every row that is
  -- committed under the booking's id, and there is one, is CONFIRMED; a refusal of step 1 commits nothing and asks the
  -- gateway nothing. A blocked or declined payment leaves a row, in PAYMENT_FAILED, and no seat that points at it; a
  -- compensated one leaves a row, VOIDED or NEEDS_MANUAL_REVIEW, with no seat and no live ticket. Else only an exception
  -- of the gateway, or a constraint of the tables, ends a run, and the row is there; no run raises IllegalTransition.
  -- What the other sessions commit in between does not delete the booking's row.
  pub run-Settled :
      (gateway : PaymentGateway G) (draws : Draws) (user_id : ℕ) (payload : BookingCreate)
      (key fingerprint : Text) (decision : Decision) (others : Db → Db) (w : World G)
      → KeepsRow draws.booking_id others
      → let r = run gateway draws user_id payload key fingerprint decision others w in
        Settled draws.booking_id w r × HasRow draws.booking_id r
  unfolding run
  run-Settled gateway draws user_id payload key fingerprint decision others w kept = (
    run_ends gateway draws user_id payload key fingerprint decision others w,
    begun-HasRow gateway draws user_id payload others kept fingerprint decision w
        (begin_booking draws user_id payload key w) (begin_booking-Ends draws user_id payload key w)
        (begin_booking-Checked draws user_id payload key w),
  )

-- ===== src/Saga/Journal/Run.antt =====
-- A whole run, as the journal tells it.
use concurrent_flight_bookin.Prelude.{ℕ, ◌≡◌, refl, ◌∙◌, inl, inr, ◌⊎◌, Text, Bool-cases}
use mathlib.Core.Path.{subst}
use concurrent_flight_bookin.Errors.{Exc, AppError}
use concurrent_flight_bookin.Domain.Enums.{BookingState, AuditEventType, Decision}
use concurrent_flight_bookin.Domain.Models.{Db, Booking, Payment}
use concurrent_flight_bookin.Payments.{PaymentGateway, AuthorizationResult}
use concurrent_flight_bookin.Saga.Session.{World, Outcome, ok, raised, raise}
use concurrent_flight_bookin.Saga.Begin.{Draws, BookingCreate, Begun, begin_booking}
use concurrent_flight_bookin.Saga.Ticketing.{issue_tickets}
use concurrent_flight_bookin.Saga.Unwind.{fail_payment}
use concurrent_flight_bookin.Saga.Ending.{ended, then_on}
use concurrent_flight_bookin.Saga.{
  run, continue, charge, settle, confirm, recover, is_block, new_payment, add_payment, meanwhile,
  fulfil, collect, pay,
}
use concurrent_flight_bookin.Saga.Journal.{Told, Truthful}
use concurrent_flight_bookin.Saga.Journal.Tickets.{
  Journaled, StepJournaled, fail_payment-Truthful, issue_tickets-TicketsJournaled,
}
use concurrent_flight_bookin.Saga.Journal.Payment.{
  charge-Journaled, SettledJournaled, settle-SettledJournaled, confirm-StepJournaled,
}
use concurrent_flight_bookin.Saga.Journal.Compensation.{recover-StepJournaled}
use concurrent_flight_bookin.Saga.Journal.Beginning.{
  Unused, BegunJournaled, begin_booking-Entered, begin_booking-BegunJournaled,
}

module _ {G : Type 0} where
  module _ (gateway : PaymentGateway G) (draws : Draws) (user_id : ℕ) (payload : BookingCreate)
      (others : Db → Db) (b : ℕ)
      (kept : (s : BookingState) (db : Db) → Told b s db → Told b s (others db)) where
    fulfil-Truthful :
        (begun : Begun) (answer : AuthorizationResult) (settled : Booking × Payment) (w : World G)
        → settled.0.id ≡ b
        → Journaled b settled.0.state w
        → Truthful b (fulfil gateway draws user_id payload others begun answer settled w).1.saved
    fulfil-Truthful begun answer settled w i h =
        let now : World G = (meanwhile others w).1 in
        let told = kept settled.0.state w.db h.0 in
        let tried =
          issue_tickets draws.ticketed_at settled.0 begun.rows begun.seats user_id
            payload.card_token draws.ticket now in
        let issued =
          issue_tickets-TicketsJournaled draws.ticketed_at settled.0 begun.rows begun.seats user_id
            payload.card_token draws.ticket now (rw i (told, inl (settled.0.state, told))) in
        let recovered : StepJournaled b (
            recover gateway draws.ticketed_at settled.0 settled.1 payload.card_token tried.0
              tried.1) =
          subst
            (λ x. StepJournaled x (
              recover gateway draws.ticketed_at settled.0 settled.1 payload.card_token tried.0
                tried.1))
            i
            (recover-StepJournaled gateway draws.ticketed_at settled.0 settled.1 payload.card_token
              tried issued) in
        ended (λ x. Truthful b x.1.saved)
          (recover gateway draws.ticketed_at settled.0 settled.1 payload.card_token tried.0 tried.1)
          (λ ticketed. confirm gateway ticketed settled.1 answer.provider_ref)
          (λ ticketed w' e. confirmed ticketed w' (rw e at recovered)) (λ x w' e. rw e at recovered)
      where
        truthful : (r : Outcome Booking × World G) → StepJournaled b r → Truthful b r.1.saved
        truthful (ok x, w') k = k.1.1
        truthful (raised x, w') k = k

        confirmed :
            (ticketed : Booking) (w' : World G)
            → StepJournaled b (ok ticketed, w')
            → Truthful b (confirm gateway ticketed settled.1 answer.provider_ref w').1.saved
        confirmed ticketed w' k =
            truthful (confirm gateway ticketed settled.1 answer.provider_ref w') (
              subst
                (λ x. StepJournaled x (confirm gateway ticketed settled.1 answer.provider_ref w'))
                k.0
                (confirm-StepJournaled gateway ticketed settled.1 answer.provider_ref w'
                  (rw k.0 k.1)))

    pay-Truthful :
        (begun : Begun) (fingerprint : Text) (w : World G)
        → begun.booking.id ≡ b
        → Journaled b begun.booking.state w
        → Truthful b (pay gateway draws user_id payload fingerprint others begun w).1.saved
    pay-Truthful begun fingerprint w i h =
        let payment : Payment = new_payment draws begun.booking payload.card_token fingerprint in
        let ready : World G = record w {
          db = add_payment payment w.db;
          saved = add_payment payment w.db;
        } in
        let charged =
          charge-Journaled gateway draws begun.booking payment ready
            (rw i (h.0, inl (begun.booking.state, h.0))) in
        ended (λ x. Truthful b x.1.saved) (charge gateway draws begun.booking payment ready)
          (collect gateway draws user_id payload others begun)
          (λ a w' e.
            let after : Journaled begun.booking.id begun.booking.state w' = rw e at charged in
            let settled : SettledJournaled gateway b (settle gateway begun.booking a.0 a.1 w') =
              subst (λ x. SettledJournaled gateway x (settle gateway begun.booking a.0 a.1 w')) i
                (settle-SettledJournaled gateway begun.booking a.0 a.1 w' after) in
            ended (λ x. Truthful b x.1.saved) (settle gateway begun.booking a.0 a.1 w')
              (fulfil gateway draws user_id payload others begun a.1)
              (λ c w'' e'.
                let paid = rw e' at settled in fulfil-Truthful begun a.1 c w'' paid.0 paid.1)
              (λ x w'' e'. rw e' at settled))
          (λ x w' e. rw i at (rw e at charged).1)

    abbrev gone_on : Begun → Text → Outcome (Unit {0}) × World G → Db
    gone_on begun fingerprint x =
        (then_on x (λ _. pay gateway draws user_id payload fingerprint others begun)).1.saved

    continue-Truthful :
        (begun : Begun) (fingerprint : Text) (decision : Decision) (w : World G)
        → begun.booking.id ≡ b
        → Journaled b begun.booking.state w
        → Truthful b
            (continue gateway draws user_id payload fingerprint decision others begun w).1.saved
    unfolding continue
    continue-Truthful begun fingerprint decision w i h = elim (Bool-cases (is_block decision)) [
      | inl block ↦
          (let failed : Truthful b
                (fail_payment begun.booking AuditEventType.payment_declined w).1.saved =
              subst
                (λ x.
                  Truthful x (fail_payment begun.booking AuditEventType.payment_declined w).1.saved)
                i
                (fail_payment-Truthful begun.booking AuditEventType.payment_declined w (rw i h)) in
            rw (block, continue)
              (ended (λ x. Truthful b (gone_on begun fingerprint x))
                (fail_payment begun.booking AuditEventType.payment_declined w)
                (λ _. raise {A = Unit {0}} (Exc.app AppError.payment_blocked))
                (λ a w' e. rw e at failed) (λ x w' e. rw e at failed)))
      | inr go ↦ rw (go, continue) (pay-Truthful begun fingerprint w i h)
    ]

    begun-Truthful :
        (fingerprint : Text) (decision : Decision) (w : World G) (r : Outcome Begun × World G)
        → draws.booking_id ≡ b
        → BegunJournaled draws w r
        → let w' =
            (then_on r (continue gateway draws user_id payload fingerprint decision others)).1 in
          (w'.saved ≡ w.saved) ⊎ Truthful b w'.saved
    begun-Truthful fingerprint decision w (raised e, w') i h = inl h
    begun-Truthful fingerprint decision w (ok begun, w') i h =
        inr (continue-Truthful begun fingerprint decision w' (h.0 ∙ i) (rw i at h.1))

  -- The journal tells the truth. Unless step 1 refuses the run and commits nothing, the entries that are committed for its
  -- booking, whatever the gateway answers and however the run ends, are a walk of the state machine from PENDING, each entry
  -- with a state starting where the one before it ended; and the walk ends at the state of the booking's row, but for
  -- a booking that a compensation has VOIDED: there it ends at COMPENSATING. The drawn id is not in use yet, and what the
  -- other sessions commit in between leaves the booking's row and its entries in agreement.
  pub run-Truthful :
      (gateway : PaymentGateway G) (draws : Draws) (user_id : ℕ) (payload : BookingCreate)
      (key fingerprint : Text) (decision : Decision) (others : Db → Db) (w : World G)
      → ((s : BookingState) (db : Db)
          → Told draws.booking_id s db
          → Told draws.booking_id s (others db))
      → Unused draws.booking_id w.db
      → let w' = (run gateway draws user_id payload key fingerprint decision others w).1 in
        (w'.saved ≡ w.saved) ⊎ Truthful draws.booking_id w'.saved
  unfolding run
  run-Truthful gateway draws user_id payload key fingerprint decision others w kept unused =
      begun-Truthful gateway draws user_id payload others draws.booking_id kept fingerprint decision
        w (begin_booking draws user_id payload key w) refl
        (begin_booking-BegunJournaled draws w (begin_booking draws user_id payload key w) unused
          (begin_booking-Entered draws user_id payload key w))

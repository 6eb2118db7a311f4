-- ===== src/Saga/Ending.antt =====
-- How a whole run ends: one case for each row of the failure matrix.
use concurrent_flight_bookin.Prelude.{
  ℕ, ◌≡◌, refl, sym, ap, ◌∙◌, inl, inr, [], ◌∷◌, Text, Bool-cases, count_where,
}
use concurrent_flight_bookin.Errors.{Exc, AppError}
use concurrent_flight_bookin.Domain.Enums.{BookingState, AuditEventType, Decision}
use concurrent_flight_bookin.Domain.Models.{Db, Booking, Payment}
use concurrent_flight_bookin.Holds.{belongs_to, live_ticket_of}
use concurrent_flight_bookin.Payments.{PaymentGateway, AuthorizationResult}
use concurrent_flight_bookin.Saga.Session.{World, Outcome, ok, raised, Action, ◌>>=◌, ◌>>◌, raise}
use concurrent_flight_bookin.Saga.Begin.{Draws, BookingCreate, Begun, begin_booking}
use concurrent_flight_bookin.Saga.Ticketing.{issue_tickets}
use concurrent_flight_bookin.Saga.Unwind.{fail_payment, compensate}
use concurrent_flight_bookin.Saga.Reversal.{Unwound, compensate-Unwound, rows_of}
use concurrent_flight_bookin.Saga.Beginning.{Checked, begin_booking-Checked}
use concurrent_flight_bookin.Saga.Steps.{
  InState, PaymentFailed, BeginEnds, begin_booking-Ends, TicketEnds, issue_tickets-Ends,
  fail_payment-PaymentFailed, SettleEnds, settle-Ends, ConfirmEnds, confirm-Ends, ChargeEnds,
  charge-Ends, compensate-UndoEnds, UndoEnds,
}
use concurrent_flight_bookin.Saga.{
  run, continue, charge, settle, confirm, recover, is_block, new_payment, add_payment, meanwhile,
  fulfil, collect, pay,
}

module _ {G : Type 0} where
  abbrev pub then_on : {A B : Type 0} → Outcome A × World G → (A → Action G B) → Outcome B × World G
  then_on r f = elim r.0 [ ok a ↦ f a r.1 | raised e ↦ (raised e, r.1) ]

  -- A step of a `do` block, by how it ended.
  pub ended :
      {A B : Type 0} (P : Outcome B × World G → Type 0) (r : Outcome A × World G)
      (f : A → Action G B)
      → ((a : A) (w : World G) → r ≡ (ok a, w) → P (f a w))
      → ((e : Exc) (w : World G) → r ≡ (raised e, w) → P (raised e, w))
      → P (then_on r f)
  ended P (ok a, w) f on_ok on_raise = on_ok a w refl
  ended P (raised e, w) f on_ok on_raise = on_raise e w refl

  -- The two ends of a charge that is taken back.
  abbrev pub TakenBack : ℕ → World G → Type 0
  TakenBack booking_id w =
      InState booking_id (BookingState.voided ∷ BookingState.needs_manual_review ∷ []) w.saved
      × (count_where (belongs_to booking_id) w.saved.seats ≡ 0)
      × (count_where (live_ticket_of booking_id) w.saved.tickets ≡ 0)

  -- What a run that began in `w` leaves, by how it ended.
  abbrev pub Settled : ℕ → World G → Outcome Booking × World G → Type 0
  Settled booking_id w (ok b, w') =
      (b.id ≡ booking_id)
      × (b.state ≡ BookingState.confirmed)
      × (w'.saved ≡ w'.db)
      × InState booking_id (BookingState.confirmed ∷ []) w'.saved
  Settled booking_id w (raised (Exc.app AppError.not_found), w') =
      (w'.saved ≡ w.saved) × (w'.gateway ≡ w.gateway)
  Settled booking_id w (raised (Exc.app AppError.hold_expired), w') =
      (w'.saved ≡ w.saved) × (w'.gateway ≡ w.gateway)
  Settled booking_id w (raised (Exc.app AppError.seat_unavailable), w') =
      (w'.saved ≡ w.saved) × (w'.gateway ≡ w.gateway)
  Settled booking_id w (raised Exc.no_unique_pnr, w') =
      (w'.saved ≡ w.saved) × (w'.gateway ≡ w.gateway)
  Settled booking_id w (raised Exc.zip_length, w') = (w'.saved ≡ w.saved) × (w'.gateway ≡ w.gateway)
  Settled booking_id w (raised (Exc.app AppError.payment_blocked), w') =
      PaymentFailed booking_id w' × (w'.gateway ≡ w.gateway)
  Settled booking_id w (raised (Exc.app AppError.payment_declined), w') =
      PaymentFailed booking_id w'
  Settled booking_id w (raised (Exc.app AppError.booking_compensated), w') = TakenBack booking_id w'
  Settled booking_id w (raised Exc.payment_timeout, w') = Unit
  Settled booking_id w (raised Exc.refund_failed, w') = Unit
  Settled booking_id w (raised Exc.integrity_error, w') = Unit
  Settled booking_id w (raised e, w') = ⊥

  module _ (gateway : PaymentGateway G) (draws : Draws) (w₀ : World G) where
    abbrev Good : Outcome Booking × World G → Type 0
    Good = Settled draws.booking_id w₀

    confirmed-Settled :
        (booking : Booking) (r : Outcome Booking × World G)
        → booking.id ≡ draws.booking_id
        → ConfirmEnds booking r
        → Good r
    confirmed-Settled booking (ok b, w) i h = (h.0 ∙ i, h.1, h.2, rw (← i) h.3)
    confirmed-Settled booking (raised Exc.payment_timeout, w) i h = tt
    confirmed-Settled booking (raised Exc.refund_failed, w) i h = tt
    confirmed-Settled booking (raised e, w) i h = absurd h

    taken_back :
        (paid : Booking) (rows : ℕ) (r : Outcome Booking × World G)
        → paid.id ≡ draws.booking_id
        → Unwound gateway paid.id rows r
        → UndoEnds paid.id r
        → TakenBack draws.booking_id r.1
    taken_back paid rows (ok b, w) i h k = rw (← i) (k, h.2, h.3)
    taken_back paid rows (raised e, w) i h k = absurd h

    module _ (now : ℕ) (paid : Booking) (payment : Payment) (card_token provider_ref : Text)
        (i : paid.id ≡ draws.booking_id) (st : paid.state ≡ BookingState.payment_authorized) where
      abbrev end_of : Outcome Booking × World G → Outcome Booking × World G
      end_of r = then_on r (λ ticketed. confirm gateway ticketed payment provider_ref)

      compensated-Settled :
          (w : World G)
          → Good (
              end_of (
                (compensate gateway now paid payment card_token
                    >> raise (Exc.app AppError.booking_compensated))
                  w))
      compensated-Settled w =
          let unwound = compensate-Unwound gateway now paid payment card_token w st in
          let undone = compensate-UndoEnds gateway now paid payment card_token w st in
          ended (λ x. Good (end_of x)) (compensate gateway now paid payment card_token w)
            (λ _. raise (Exc.app AppError.booking_compensated))
            (λ b w' e.
              taken_back paid (rows_of paid.id w.db.bookings) (ok b, w') i (rw e at unwound)
                (rw e at undone))
            (λ x w' e. absurd (rw e at unwound))

      -- From the tickets on, by how their issue ended.
      ticketed-Settled :
          (r : Outcome Booking × World G)
          → TicketEnds paid r
          → Good (end_of (recover gateway now paid payment card_token r.0 r.1))
      ticketed-Settled (ok b, w) h =
          confirmed-Settled b (confirm gateway b payment provider_ref w) (h.0 ∙ i)
            (confirm-Ends gateway b payment provider_ref w h.1)
      ticketed-Settled (raised Exc.ticketing_failed, w) h = compensated-Settled w
      ticketed-Settled (raised (Exc.app AppError.seat_unavailable), w) h = compensated-Settled w
      ticketed-Settled (raised Exc.integrity_error, w) h = tt
      ticketed-Settled (raised e, w) h = absurd h

    -- A decline, or the rest of the run.
    settled-Settled :
        (booking : Booking) (payment : Payment) (r : Outcome (Booking × Payment) × World G)
        (f : Booking × Payment → Action G Booking)
        → booking.id ≡ draws.booking_id
        → SettleEnds booking payment r
        → ((b : Booking) (p : Payment) (w : World G)
            → b.id ≡ draws.booking_id
            → b.state ≡ BookingState.payment_authorized
            → Good (f (b, p) w))
        → Good (then_on r f)
    settled-Settled booking payment (ok (b, p), w) f i h rest = rest b p w (h.0 ∙ i) h.1
    settled-Settled booking payment (raised (Exc.app AppError.payment_declined), w) f i h rest =
        rw (← i) h
    settled-Settled booking payment (raised e, w) f i h rest = absurd h

    -- The charge answers, or a second timeout ends the run.
    charged-Settled :
        (payment : Payment) (r : Outcome (Payment × AuthorizationResult) × World G)
        (f : Payment × AuthorizationResult → Action G Booking)
        → ChargeEnds payment r
        → ((p : Payment) (a : AuthorizationResult) (w : World G) → Good (f (p, a) w))
        → Good (then_on r f)
    charged-Settled payment (ok (p, a), w) f h rest = rest p a w
    charged-Settled payment (raised Exc.payment_timeout, w) f h rest = tt
    charged-Settled payment (raised Exc.refund_failed, w) f h rest = tt
    charged-Settled payment (raised e, w) f h rest = absurd h

    blocked-Settled :
        (booking : Booking) (f : Unit {0} → Action G Booking) (w : World G)
        → booking.id ≡ draws.booking_id
        → booking.state ≡ BookingState.pending
        → w.gateway ≡ w₀.gateway
        → Good (
            ((fail_payment booking AuditEventType.payment_declined
                  >> raise (Exc.app AppError.payment_blocked))
                >>= f)
              w)
    blocked-Settled booking f w i st g =
        let (r, failed, kept) =
          fail_payment-PaymentFailed booking AuditEventType.payment_declined w st in
        ended (λ x. Good (then_on x f)) (fail_payment booking AuditEventType.payment_declined w)
          (λ _. raise (Exc.app AppError.payment_blocked))
          (λ b w' e. (
            rw (← i) (rw e at failed),
            ap (λ (x : Outcome Booking × World G). x.1.gateway) (sym e) ∙ kept ∙ g,
          ))
          (λ x w' e. cc (ap (λ (y : Outcome Booking × World G). y.0) e))

    module _ (user_id : ℕ) (payload : BookingCreate) (key fingerprint : Text) (decision : Decision)
        (others : Db → Db) where
      fulfil-Settled :
          (begun : Begun) (answer : AuthorizationResult) (paid : Booking) (payment : Payment)
          (w : World G)
          → paid.id ≡ draws.booking_id
          → paid.state ≡ BookingState.payment_authorized
          → Good (fulfil gateway draws user_id payload others begun answer (paid, payment) w)
      fulfil-Settled begun answer paid payment w i st =
          let now : World G = (meanwhile others w).1 in
          ticketed-Settled draws.ticketed_at paid payment payload.card_token answer.provider_ref i
            st
            (issue_tickets draws.ticketed_at paid begun.rows begun.seats user_id payload.card_token
              draws.ticket now)
            (issue_tickets-Ends draws.ticketed_at paid begun.rows begun.seats user_id
              payload.card_token draws.ticket now st)

      pay-Settled :
          (begun : Begun) (w : World G)
          → begun.booking.id ≡ draws.booking_id
          → begun.booking.state ≡ BookingState.pending
          → Good (pay gateway draws user_id payload fingerprint others begun w)
      pay-Settled begun w i st =
          let payment : Payment = new_payment draws begun.booking payload.card_token fingerprint in
          let ready : World G = record w {
            db = add_payment payment w.db;
            saved = add_payment payment w.db;
          } in
          charged-Settled payment (charge gateway draws begun.booking payment ready)
            (collect gateway draws user_id payload others begun)
            (charge-Ends gateway draws begun.booking payment ready)
            (λ p a w'.
              settled-Settled begun.booking p (settle gateway begun.booking p a w')
                (fulfil gateway draws user_id payload others begun a) i
                (settle-Ends gateway begun.booking p a w' st)
                (λ paid p' w'' i' st'. fulfil-Settled begun a paid p' w'' i' st'))

      continue-Settled :
          (begun : Begun) (w : World G)
          → begun.booking.id ≡ draws.booking_id
          → begun.booking.state ≡ BookingState.pending
          → w.gateway ≡ w₀.gateway
          → Good (continue gateway draws user_id payload fingerprint decision others begun w)
      unfolding continue
      continue-Settled begun w i st g = elim (Bool-cases (is_block decision)) [
        | inl block ↦
            rw (block, continue)
              (blocked-Settled begun.booking
                (λ _. pay gateway draws user_id payload fingerprint others begun) w i st g)
        | inr go ↦ rw (go, continue) (pay-Settled begun w i st)
      ]

      begun-Settled :
          (r : Outcome Begun × World G)
          → BeginEnds draws r
          → Checked draws user_id payload w₀ r
          → Good (then_on r (continue gateway draws user_id payload fingerprint decision others))
      begun-Settled (ok begun, w) h c = continue-Settled begun w h.0 h.1 c.7
      begun-Settled (raised (Exc.app AppError.not_found), w) h c = c
      begun-Settled (raised (Exc.app AppError.hold_expired), w) h c = c
      begun-Settled (raised (Exc.app AppError.seat_unavailable), w) h c = c
      begun-Settled (raised Exc.no_unique_pnr, w) h c = c
      begun-Settled (raised Exc.zip_length, w) h c = c
      begun-Settled (raised e, w) h c = absurd h

  -- The cases of the whole run.
  pub run_ends :
      (gateway : PaymentGateway G) (draws : Draws) (user_id : ℕ) (payload : BookingCreate)
      (key fingerprint : Text) (decision : Decision) (others : Db → Db) (w : World G)
      → Settled draws.booking_id w
          (run gateway draws user_id payload key fingerprint decision others w)
  unfolding run
  run_ends gateway draws user_id payload key fingerprint decision others w =
      begun-Settled gateway draws w user_id payload key fingerprint decision others
        (begin_booking draws user_id payload key w) (begin_booking-Ends draws user_id payload key w)
        (begin_booking-Checked draws user_id payload key w)

-- ===== src/Saga/Clash.antt =====
-- A constraint that refuses the tickets: the failure that the saga does not catch.
use concurrent_flight_bookin.Prelude.{ℕ, ◌≡◌, refl, List, Text}
use concurrent_flight_bookin.Errors.{Exc}
use concurrent_flight_bookin.Domain.Models.{Db, Booking, Payment, SeatInventory}
use concurrent_flight_bookin.Payments.{PaymentGateway, AuthorizationResult}
use concurrent_flight_bookin.Saga.Session.{World, Outcome, ok, raised}
use concurrent_flight_bookin.Saga.Begin.{Draws, BookingCreate, Begun}
use concurrent_flight_bookin.Saga.Ticketing.{issue_tickets, reselect}
use concurrent_flight_bookin.Saga.Verified.{Verified, issue_tickets-Verified}
use concurrent_flight_bookin.Saga.{confirm, recover, meanwhile, fulfil}
use concurrent_flight_bookin.Saga.Ending.{then_on}

module _ {G : Type 0} where
  clashed :
      (gateway : PaymentGateway G) (now : ℕ) (paid : Booking) (payment : Payment)
      (card_token ref : Text) (r : Outcome Booking × World G) (w : World G) (user_id : ℕ)
      (locked : List SeatInventory)
      → r.0 ≡ raised Exc.integrity_error
      → Verified paid user_id card_token locked w r
      → let (x, w') =
          then_on
            (recover gateway now paid payment card_token r.0 r.1)
            (λ t. confirm gateway t payment ref) in
        (x ≡ raised Exc.integrity_error) × (w'.saved ≡ w.saved) × (w'.gateway ≡ w.gateway)
  clashed gateway now paid payment card_token ref (raised Exc.integrity_error, w') w user_id locked
        e v =
      (refl, v.1, v.2)
  clashed gateway now paid payment card_token ref (raised Exc.ticketing_failed, w') w user_id locked
        e v =
      cc
  clashed gateway now paid payment card_token ref (raised x, w') w user_id locked e v = cc
  clashed gateway now paid payment card_token ref (ok b, w') w user_id locked e v = cc

  -- When a constraint of the tables refuses the tickets or their seats, the run ends with that exception and is not
  -- compensated: what was charged stays charged, the booking stays committed as it was after the charge, and the
  -- gateway is not asked for a reversal.
  pub fulfil_clash :
      (gateway : PaymentGateway G) (draws : Draws) (user_id : ℕ) (payload : BookingCreate)
      (others : Db → Db) (begun : Begun) (answer : AuthorizationResult) (paid : Booking)
      (payment : Payment) (w : World G)
      → let now : World G = (meanwhile others w).1 in
        (issue_tickets draws.ticketed_at paid begun.rows begun.seats user_id payload.card_token
            draws.ticket now).0
          ≡ raised Exc.integrity_error
        → let (r, w') =
            fulfil gateway draws user_id payload others begun answer (paid, payment) w in
          (r ≡ raised Exc.integrity_error) × (w'.saved ≡ others w.db) × (w'.gateway ≡ w.gateway)
  fulfil_clash gateway draws user_id payload others begun answer paid payment w clash =
      let now : World G = (meanwhile others w).1 in
      clashed gateway draws.ticketed_at paid payment payload.card_token answer.provider_ref
        (issue_tickets draws.ticketed_at paid begun.rows begun.seats user_id payload.card_token
          draws.ticket now)
        now user_id (reselect begun.seats now.db.seats) clash
        (issue_tickets-Verified draws.ticketed_at paid begun.rows begun.seats user_id
          payload.card_token draws.ticket now)

-- ===== src/Saga/Guarded.antt =====
-- `run` with its fraud controls: what app/security/carding.py decides of the attempt before the charge, and what is fed back
-- into its windows after it. The events that both may log are left to Carding.
use concurrent_flight_bookin.Prelude.{
  ℕ, ◌≡◌, refl, inl, inr, Option, Text, if◌then◌else◌, Bool-cases,
}
use concurrent_flight_bookin.Errors.{Exc, AppError}
use concurrent_flight_bookin.Domain.Enums.{AuditEventType, Decision}
use concurrent_flight_bookin.Domain.Models.{Db, Booking, Payment}
use concurrent_flight_bookin.Payments.{PaymentGateway, AuthorizationResult}
use concurrent_flight_bookin.Redis.{Redis}
use concurrent_flight_bookin.Carding.{decision}
use concurrent_flight_bookin.Carding.Windows.{Attempt, assess_payment_attempt, record_outcome}
use concurrent_flight_bookin.Saga.Session.{World, Outcome, ok, raised, Action, ◌>>◌, raise}
use concurrent_flight_bookin.Saga.Begin.{Draws, BookingCreate, Begun, begin_booking}
use concurrent_flight_bookin.Saga.Unwind.{fail_payment}
use concurrent_flight_bookin.Saga.Ending.{then_on}
use concurrent_flight_bookin.Saga.{
  run, continue, pay, charge, collect, is_block, new_payment, add_payment,
}

-- What the fraud controls read of a request, their clock and the member names that they draw.
pub record Controls : Type 0 where
  pub ip : Option Text
  pub card_fingerprint : Text
  pub assess_clock : ℕ → ℕ
  pub outcome_clock : ℕ → ℕ
  pub drawn : ℕ → Text

abbrev pub attempt_of : Controls → ℕ → Begun → Attempt
attempt_of c user_id begun = record {
  user_id = user_id;
  ip = c.ip;
  card_fingerprint = c.card_fingerprint;
  amount = begun.booking.total_amount;
}

-- A decision as far as the saga acts on it.
abbrev pub block_or_allow : Decision → Decision
block_or_allow Decision.block = Decision.block
block_or_allow Decision.challenge = Decision.allow
block_or_allow Decision.allow = Decision.allow

is_block-block_or_allow : (d : Decision) → is_block (block_or_allow d) ≡ is_block d
is_block-block_or_allow Decision.block = refl
is_block-block_or_allow Decision.challenge = refl
is_block-block_or_allow Decision.allow = refl

module _ {G R : Type 0} (gateway : PaymentGateway G) (redis : Redis R) (c : Controls)
    (draws : Draws) (user_id : ℕ) (payload : BookingCreate) (others : Db → Db) where
  -- The outcome of the charge is recorded, and then acted on.
  unfoldable pub record_and_collect :
      Begun
      → Outcome (Payment × AuthorizationResult) × World G
      → R
      → (Outcome Booking × World G) × R
  record_and_collect begun (raised e, w) r = ((raised e, w), r)
  record_and_collect begun (ok answer, w) r = (
    collect gateway draws user_id payload others begun answer w,
    (record_outcome redis c.outcome_clock (c.drawn 2) (c.drawn 3) (attempt_of c user_id begun)
        answer.1.approved r).1,
  )

  unfoldable pub guarded_pay : Begun → World G → R → (Outcome Booking × World G) × R
  guarded_pay begun w r =
      let payment = new_payment draws begun.booking payload.card_token c.card_fingerprint in
      let ready = record w { db = add_payment payment w.db; saved = add_payment payment w.db } in
      record_and_collect begun (charge gateway draws begun.booking payment ready) r

  abbrev pub assessed : Begun → R → Decision
  assessed begun r =
      decision
        (assess_payment_attempt redis c.assess_clock (c.drawn 0) (c.drawn 1)
          (attempt_of c user_id begun) r).0.0

  unfoldable pub guarded_continue : Outcome Begun × World G → R → (Outcome Booking × World G) × R
  guarded_continue (raised e, w) r = ((raised e, w), r)
  guarded_continue (ok begun, w) r =
      let after =
        (assess_payment_attempt redis c.assess_clock (c.drawn 0) (c.drawn 1)
          (attempt_of c user_id begun) r).1 in
      if is_block (assessed begun r)
      then (
        (fail_payment begun.booking AuditEventType.payment_declined
              >> raise (Exc.app AppError.payment_blocked))
            w,
        after,
      )
      else guarded_pay begun w after

  unfoldable pub guarded_run : Text → World G → R → (Outcome Booking × World G) × R
  guarded_run key w r = guarded_continue (begin_booking draws user_id payload key w) r

  -- Only BLOCK blocks: a challenge is allowed to pay. Before there is a booking there is none.
  abbrev pub verdict : Outcome Begun → R → Decision
  verdict (raised e) r = Decision.allow
  verdict (ok begun) r = block_or_allow (assessed begun r)

  blocked :
      (x : Outcome Booking × World G) (f : Unit {0} → Action G Booking)
      → then_on x (λ _. raise {A = Booking} (Exc.app AppError.payment_blocked))
        ≡ then_on (then_on x (λ _. raise {A = Unit {0}} (Exc.app AppError.payment_blocked))) f
  blocked (ok b, w) f = refl
  blocked (raised e, w) f = refl

  collected :
      (begun : Begun) (x : Outcome (Payment × AuthorizationResult) × World G) (r : R)
      → (record_and_collect begun x r).0
        ≡ then_on x (collect gateway draws user_id payload others begun)
  unfolding record_and_collect
  collected begun (raised e, w) r = refl
  collected begun (ok answer, w) r = refl

  continued :
      (x : Outcome Begun × World G) (r : R)
      → (guarded_continue x r).0
        ≡ then_on x
            (continue gateway draws user_id payload c.card_fingerprint (verdict x.0 r) others)
  unfolding guarded_continue guarded_pay continue
  continued (raised e, w) r = refl
  continued (ok begun, w) r = elim (Bool-cases (is_block (assessed begun r))) [
    | inl block ↦
        rw (block, guarded_continue, continue, is_block-block_or_allow, block)
          (blocked (fail_payment begun.booking AuditEventType.payment_declined w)
            (λ _. pay gateway draws user_id payload c.card_fingerprint others begun))
    | inr go ↦
        rw (go, guarded_continue, continue, is_block-block_or_allow, go)
          (let payment : Payment =
              new_payment draws begun.booking payload.card_token c.card_fingerprint in
            collected begun
              (charge gateway draws begun.booking payment
                (record w { db = add_payment payment w.db; saved = add_payment payment w.db }))
              (assess_payment_attempt redis c.assess_clock (c.drawn 0) (c.drawn 1)
                (attempt_of c user_id begun) r).1)
  ]

  -- The fraud controls decide nothing but whether the attempt is blocked, whatever Redis holds, answers or fails to
  -- answer: the booking goes as a run that is given BLOCK when they decide BLOCK and ALLOW when they decide ALLOW or
  -- CHALLENGE, from the same session and gateway.
  pub guarded_run-run :
      (key : Text) (w : World G) (r : R)
      → (guarded_run key w r).0
        ≡ run gateway draws user_id payload key c.card_fingerprint
            (verdict (begin_booking draws user_id payload key w).0 r)
            others
            w
  unfolding guarded_run run
  guarded_run-run key w r = continued (begin_booking draws user_id payload key w) r

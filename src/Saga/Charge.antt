-- ===== src/Saga/Charge.antt =====
-- The charge of step 3, with the in-process gateway.
use concurrent_flight_bookin.Prelude.{ℕ, ◌≤◌, ◌+◌, ◌≡◌, ◌⊎◌, true, some, Text, arith, same_refl}
use concurrent_flight_bookin.Domain.Models.{Booking, Payment}
use concurrent_flight_bookin.Payments.{AuthorizationResult, Message}
use concurrent_flight_bookin.Payments.Triggers.{Trigger, trigger_for}
use concurrent_flight_bookin.Payments.Fake.{
  FakeGateway, fake_gateway, fake_authorize, authorization_count, get, answer,
}
use concurrent_flight_bookin.Saga.Session.{World, Outcome, ok, raised}
use concurrent_flight_bookin.Saga.Begin.{Draws}
use concurrent_flight_bookin.Saga.{charge}

-- An answer that the gateway has recorded under the key, and one authorization more at most; nothing is raised.
abbrev pub Answered :
    Payment → FakeGateway → Outcome (Payment × AuthorizationResult) × World FakeGateway → Type 0
Answered payment before (ok (p, r), w') =
    (get payment.idempotency_key w'.gateway.authorizations ≡ some r)
    × (authorization_count w'.gateway ≤ authorization_count before + 1)
    × ((get payment.idempotency_key before.authorizations ≡ some r)
        ⊎ (r.approved ≡ true
            → r.message ≡ some (Message.authorized payment.amount payment.currency)))
    × (p.id ≡ payment.id)
    × (p.amount ≡ payment.amount)
Answered payment before (raised e, w') = ⊥

approved-answer :
    (trigger : Trigger) (amount : ℕ) (currency drawn : Text)
    → (answer trigger amount currency drawn).approved ≡ true
    → (answer trigger amount currency drawn).message ≡ some (Message.authorized amount currency)
unfolding answer
approved-answer trigger amount currency drawn h = ground arith

-- With the in-process gateway the charge always ends with an answer, after the one retry at most: the answer is what the
-- gateway has recorded under the key of the payment, and at most one authorization is added. If the answer was not
-- recorded under that key before, and is an approval, it is one of the payment's own amount and currency.
pub charge-Answered :
    (draws : Draws) (booking : Booking) (payment : Payment) (w : World FakeGateway)
    → Answered payment w.gateway (charge fake_gateway draws booking payment w)
unfolding charge fake_authorize
charge-Answered draws booking payment w = ground (
  arith,
  same_refl payment.idempotency_key,
  approved-answer (trigger_for payment.card_token) payment.amount payment.currency
      draws.provider_ref,
  approved-answer (trigger_for payment.card_token) payment.amount payment.currency draws.retry_ref,
)

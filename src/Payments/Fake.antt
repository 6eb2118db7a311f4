-- ===== src/Payments/Fake.antt =====
-- app/services/payments/fake.py: the in-process gateway. Its dictionary is a list of entries with the newest first, its
-- sets are lists.
use concurrent_flight_bookin.Prelude.{
  ℕ, Bool, true, false, not, ◌&&◌, ◌||◌, Option, none, some, Text, List, [], ◌∷◌, same,
  if◌then◌else◌, length,
}
use concurrent_flight_bookin.Payments.{
  AuthorizationResult, Reply, done, timed_out, refund_refused, PaymentGateway, Message,
}
use concurrent_flight_bookin.Payments.Triggers.{Trigger, trigger_for, decline_codes}

pub record FakeGateway : Type 0 where
  pub authorizations : List (Text × AuthorizationResult)
  pub timed_out_once : List Text
  pub captured : List Text
  pub voided : List Text
  pub refunded : List Text
  pub refund_failures : List Text

-- `x in xs`
abbrev pub contains : Text → List Text → Bool
contains x [] = false
contains x (y ∷ ys) = same x y || contains x ys

-- `d.get(key)`
abbrev pub get : Text → List (Text × AuthorizationResult) → Option AuthorizationResult
get key [] = none
get key ((k, r) ∷ d) = let rest = get key d in if same key k then some r else rest

unfoldable pub is_timeout : Trigger → Bool
is_timeout Trigger.gateway_timeout_then_ok = true
is_timeout _ = false

-- The answer to a key that is new to the gateway.
unfoldable pub answer : Trigger → ℕ → Text → Text → AuthorizationResult
unfolding decline_codes
answer trigger amount currency drawn = elim (decline_codes trigger) [
  | some code ↦ record {
    provider_ref = drawn;
    approved = false;
    failure_code = some code;
    message = some (Message.declined code);
  }
  | none ↦ record {
    provider_ref = drawn;
    approved = true;
    failure_code = none;
    message = some (Message.authorized amount currency);
  }
]

unfoldable pub fake_authorize :
    Text → ℕ → Text → Text → Text → FakeGateway → Reply AuthorizationResult × FakeGateway
unfolding is_timeout
fake_authorize card_token amount currency drawn key g = elim (get key g.authorizations) [
  | some r ↦ (done r, g)
  | none ↦
      if is_timeout (trigger_for card_token) && not (contains key g.timed_out_once)
      then (timed_out, record g { timed_out_once = key ∷ g.timed_out_once })
      else (
        done (answer (trigger_for card_token) amount currency drawn),
        record g {
          authorizations =
              (key, answer (trigger_for card_token) amount currency drawn) ∷ g.authorizations;
        },
      )
]

unfoldable pub fake_capture : Text → Text → FakeGateway → Reply AuthorizationResult × FakeGateway
fake_capture ref key g = (
  done (record {
    provider_ref = ref;
    approved = true;
    failure_code = none;
    message = some Message.captured;
  }),
  record g { captured = ref ∷ g.captured },
)

unfoldable pub fake_void : Text → Text → FakeGateway → Reply (Unit {0}) × FakeGateway
fake_void ref key g = (done tt, record g { voided = ref ∷ g.voided })

unfoldable pub fake_refund : Text → ℕ → Text → FakeGateway → Reply (Unit {0}) × FakeGateway
fake_refund ref amount key g =
    if contains ref g.refund_failures
    then (refund_refused, g)
    else (done tt, record g { refunded = ref ∷ g.refunded })

unfoldable pub fake_arm : Text → FakeGateway → FakeGateway
fake_arm ref g = record g { refund_failures = ref ∷ g.refund_failures }

-- `authorization_count()`
abbrev pub authorization_count : FakeGateway → ℕ
authorization_count g = length g.authorizations

-- The class as an implementation of the protocol.
abbrev pub fake_gateway : PaymentGateway FakeGateway
fake_gateway = record {
  authorize = fake_authorize;
  capture = fake_capture;
  void = fake_void;
  refund = fake_refund;
  arm_refund_failure = fake_arm;
}

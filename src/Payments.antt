-- ===== src/Payments.antt =====
-- app/services/payments: the gateway's protocol and the in-process gateway, and app/services/demo_triggers.py.
pub mod Triggers
pub mod Fake
pub mod Idempotence
mod Tests
use concurrent_flight_bookin.Prelude.{ℕ, Bool, Option, Text}

-- The texts that an answer can carry, by their parts: f"authorized {amount} {currency}" and its like.
pub data Message : Type 0 where
  authorized : (amount : ℕ) → (currency : Text) → Message
  declined : (failure_code : Text) → Message
  captured : Message

pub record AuthorizationResult : Type 0 where
  pub provider_ref : Text
  pub approved : Bool
  pub failure_code : Option Text
  pub message : Option Message

-- How a call of the gateway ends: with an answer, with PaymentTimeout or with RefundFailed.
pub data Reply {ℓ} (A : Type ℓ) : Type ℓ where
  done : A → Reply A
  timed_out : Reply A
  refund_refused : Reply A

-- The protocol, over the gateway's own state. The metadata are left out; `drawn` is the reference that a
-- new authorization would get.
pub record PaymentGateway (G : Type 0) : Type 0 where
  pub authorize :
      (card_token : Text)
      → (amount : ℕ) → (currency drawn idempotency_key : Text) → G
      → Reply AuthorizationResult × G
  pub capture : (provider_ref idempotency_key : Text) → G → Reply AuthorizationResult × G
  pub void : (provider_ref idempotency_key : Text) → G → Reply (Unit {0}) × G
  pub refund :
      (provider_ref : Text) → (amount : ℕ) → (idempotency_key : Text) → G → Reply (Unit {0}) × G
  pub arm_refund_failure : (provider_ref : Text) → G → G

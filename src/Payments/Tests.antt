-- ===== src/Payments/Tests.antt =====
-- Concrete calls of the in-process gateway.
use concurrent_flight_bookin.Prelude.{Text, List, [], ◌∷◌}
use concurrent_flight_bookin.Payments.Fake.{FakeGateway}
use concurrent_flight_bookin.Payments.Idempotence.{GatewayCall, authorizes, arms}

abbrev fresh : FakeGateway
fresh = record {
  authorizations = [];
  timed_out_once = [];
  captured = [];
  voided = [];
  refunded = [];
  refund_failures = [];
}

-- A card whose first call times out, one that is approved, a key, and two references.
abbrev slow_card : Text
slow_card = b'0' ∷ b'1' ∷ b'1' ∷ b'9' ∷ []

abbrev good_card : Text
good_card = b'0' ∷ b'0' ∷ b'0' ∷ b'0' ∷ []

abbrev key : Text
key = b'k' ∷ []

abbrev calls : List GatewayCall
calls = authorizes slow_card 500 [] (b'z' ∷ []) (b'j' ∷ []) ∷ arms (b'r' ∷ []) ∷ []

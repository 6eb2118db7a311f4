-- ===== src/Payments/Triggers.antt =====
-- app/services/demo_triggers.py: the last four characters of a card token choose the behaviour.
use concurrent_flight_bookin.Prelude.{
  Option, none, some, Text, [], ◌∷◌, same, if◌then◌else◌, length, leb,
}

pub data Trigger : Type 0 where
  approve decline_insufficient_funds decline_do_not_honor : Trigger
  ticketing_failure gateway_timeout_then_ok refund_failure : Trigger

-- `card_token[-4:]`: a token of four characters or fewer is its own suffix.
unfoldable pub last_four : Text → Text
last_four [] = []
last_four (c ∷ cs) = let rest = last_four cs in if leb (length cs) 3 then c ∷ cs else rest

-- SUFFIX_TRIGGERS.get(suffix, APPROVE)
unfoldable pub suffix_triggers : Text → Trigger
suffix_triggers s =
    if same s (b'0' ∷ b'0' ∷ b'0' ∷ b'0' ∷ [])
    then Trigger.approve
    else if same s (b'0' ∷ b'0' ∷ b'0' ∷ b'2' ∷ [])
    then Trigger.decline_insufficient_funds
    else if same s (b'0' ∷ b'0' ∷ b'6' ∷ b'9' ∷ [])
    then Trigger.decline_do_not_honor
    else if same s (b'9' ∷ b'9' ∷ b'9' ∷ b'5' ∷ [])
    then Trigger.ticketing_failure
    else if same s (b'0' ∷ b'1' ∷ b'1' ∷ b'9' ∷ [])
    then Trigger.gateway_timeout_then_ok
    else if same s (b'5' ∷ b'3' ∷ b'0' ∷ b'9' ∷ [])
    then Trigger.refund_failure
    else Trigger.approve

unfoldable pub trigger_for : Text → Trigger
unfolding last_four suffix_triggers
trigger_for card_token = suffix_triggers (last_four card_token)

-- "insufficient_funds" and "do_not_honor", by their trigger.
abbrev insufficient_funds : Text
insufficient_funds =
    b'i' ∷ b'n' ∷ b's' ∷ b'u' ∷ b'f' ∷ b'f' ∷ b'i' ∷ b'c' ∷ b'i' ∷ b'e' ∷ b'n' ∷ b't' ∷ b'_' ∷ b'f'
    ∷ b'u' ∷ b'n' ∷ b'd' ∷ b's' ∷ []

abbrev do_not_honor : Text
do_not_honor =
    b'd' ∷ b'o' ∷ b'_' ∷ b'n' ∷ b'o' ∷ b't' ∷ b'_' ∷ b'h' ∷ b'o' ∷ b'n' ∷ b'o' ∷ b'r' ∷ []

unfoldable pub decline_codes : Trigger → Option Text
decline_codes Trigger.decline_insufficient_funds = some insufficient_funds
decline_codes Trigger.decline_do_not_honor = some do_not_honor
decline_codes Trigger.approve = none
decline_codes Trigger.ticketing_failure = none
decline_codes Trigger.gateway_timeout_then_ok = none
decline_codes Trigger.refund_failure = none

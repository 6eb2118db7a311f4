-- ===== src/Carding/Tests.antt =====
-- An account with three declines, an approval, and the next attempt.
use concurrent_flight_bookin.Prelude.{
  ℕ, ◌≤◌, ◌≡◌, ◌≢◌, refl, true, false, none, some, [], ◌∷◌, ◌+◌, arith, same, if◌then◌else◌,
}
use concurrent_flight_bookin.Domain.Enums.{Decision}
use concurrent_flight_bookin.Redis.{reference_redis, reference_redis-IsUp, empty_cell, Store, Entry}
use concurrent_flight_bookin.Redis.Decimal.{decimal}
use concurrent_flight_bookin.Carding.{Observed, decision, judge}
use concurrent_flight_bookin.Carding.Scoring.{judge_mono, rank}
use concurrent_flight_bookin.Carding.Windows.{
  Attempt, record_outcome, assess_payment_attempt, k_outcomes, k_risk, outcome_member, burst_event,
  card_validated, declines_first, ends_with,
}
use concurrent_flight_bookin.Carding.Burst.{assess_flagged}
use concurrent_flight_bookin.Carding.Flagging.{burst-attempt}

abbrev quiet : Observed
quiet = record {
  distinct_cards = 1;
  card_accounts = 1;
  rapid_bookings = 1;
  declines_user = 0;
  declines_ip = 0;
  small_count = 5;
  risk_flag = false;
}

abbrev busy : Observed
busy = record quiet { distinct_cards = 4; risk_flag = true }

judge_mono_example :
    ((judge quiet).score ≤ (judge busy).score)
    × (rank (decision (judge quiet)) ≤ rank (decision (judge busy)))
judge_mono_example = judge_mono quiet busy (omega arith)

abbrev attempt : Attempt
attempt = record { user_id = 4; ip = none; card_fingerprint = b'f' ∷ []; amount = 12500 }

abbrev decline_at : ℕ → Entry
decline_at t = record { member = outcome_member t false; score = t }

abbrev store : Store
store key =
    if same key (k_outcomes 4)
    then record {
      entries = decline_at 2000000 ∷ decline_at 2000100 ∷ decline_at 2000200 ∷ [];
      value = none;
      until = none;
    }
    else empty_cell

abbrev clock : ℕ → ℕ
clock i = 2000300 + i

abbrev later : ℕ → ℕ
later i = 2060000 + i

burst-attempt_example :
    let (e, r') = record_outcome reference_redis clock [] [] attempt true store in
    (e ≡ some (some (burst_event 4)))
    × (decision (assess_payment_attempt reference_redis later [] [] attempt r').0.0
        ≢ Decision.allow)
unfolding decimal same declines_first ends_with
burst-attempt_example =
    burst-attempt reference_redis (λ r. r) reference_redis-IsUp clock later [] [] attempt attempt
      store (record_outcome reference_redis clock [] [] attempt true store).1
      (record {
        earlier = omega arith;
        new_name = refl;
        burst = omega arith;
        running = omega arith;
        in_order = omega arith;
        at_once = omega arith;
      })
      refl refl (omega arith)

abbrev flagged : Store
flagged key =
    if same key (k_risk 4)
    then record { entries = []; value = some card_validated; until = some 3000000 }
    else empty_cell

assess_flagged_example :
    decision (assess_payment_attempt reference_redis later [] [] attempt flagged).0.0
    ≢ Decision.allow
unfolding decimal same
assess_flagged_example =
    assess_flagged reference_redis (λ r. r) reference_redis-IsUp later [] [] attempt flagged refl

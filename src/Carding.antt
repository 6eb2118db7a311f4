-- ===== src/Carding.antt =====
-- app/security/carding.py: the rules against card testing and their score. The windows that they read are in Carding/Windows.
pub mod Windows
pub mod Scoring
pub mod Burst
pub mod Flagging
mod Tests
use concurrent_flight_bookin.Prelude.{
  ℕ, ◌+◌, Bool, true, false, List, [], ◌∷◌, ◌++◌, leb, if◌then◌else◌, Option, none, some,
}
use concurrent_flight_bookin.Domain.Enums.{Decision, Severity, SecurityEventType}
use concurrent_flight_bookin.Domain.Models.{SecurityEvent}

-- Windows, in seconds.
abbrev pub w_distinct_cards : ℕ
w_distinct_cards = 3600

abbrev pub w_card_across_accounts : ℕ
w_card_across_accounts = 86400

abbrev pub w_declines : ℕ
w_declines = 600

abbrev pub w_outcome_sequence : ℕ
w_outcome_sequence = 900

abbrev pub w_rapid_bookings : ℕ
w_rapid_bookings = 120

abbrev pub w_small_amounts : ℕ
w_small_amounts = 3600

abbrev pub w_risk_flag : ℕ
w_risk_flag = 1800

-- Thresholds.
abbrev pub t_distinct_cards : ℕ
t_distinct_cards = 4

abbrev pub t_declines_per_account : ℕ
t_declines_per_account = 5

abbrev pub t_declines_per_ip : ℕ
t_declines_per_ip = 8

abbrev pub t_decline_burst : ℕ
t_decline_burst = 3

abbrev pub t_card_accounts : ℕ
t_card_accounts = 3

abbrev pub t_rapid_bookings : ℕ
t_rapid_bookings = 3

abbrev pub t_small_amounts : ℕ
t_small_amounts = 5

-- 40.00, in cents.
abbrev pub small_amount_ceiling : ℕ
small_amount_ceiling = 4000

abbrev pub score_block : ℕ
score_block = 60

abbrev pub score_challenge : ℕ
score_challenge = 30

pub data Rule : Type 0 where
  distinct_cards_per_account declines_per_account declines_per_ip card_across_accounts : Rule
  rapid_fire_bookings small_amount_velocity recent_card_validation : Rule

pub record RuleHit : Type 0 where
  pub rule : Rule
  pub score : ℕ
  pub observed : ℕ
  pub threshold : ℕ
  pub window_seconds : ℕ

pub record Assessment : Type 0 where
  pub score : ℕ
  pub hits : List RuleHit

abbrev pub decision : Assessment → Decision
decision a =
    if leb score_block a.score
    then Decision.block
    else if leb score_challenge a.score
    then Decision.challenge
    else Decision.allow

abbrev pub severity : Assessment → Severity
severity a =
    if leb score_block a.score
    then Severity.high
    else if leb score_challenge a.score
    then Severity.medium
    else Severity.info

-- What the windows say of an attempt.
pub record Observed : Type 0 where
  pub distinct_cards : ℕ
  pub card_accounts : ℕ
  pub rapid_bookings : ℕ
  pub declines_user : ℕ
  pub declines_ip : ℕ
  pub small_count : ℕ
  pub risk_flag : Bool

-- One rule: a hit, if the count has come to the threshold.
abbrev pub rule_hit : Rule → ℕ → ℕ → ℕ → ℕ → List RuleHit
rule_hit rule score observed threshold window_seconds =
    if leb threshold observed
    then record {
      rule = rule;
      score = score;
      observed = observed;
      threshold = threshold;
      window_seconds = window_seconds;
    }
      ∷ []
    else []

abbrev pub flag_count : Bool → ℕ
flag_count true = 1
flag_count false = 0

-- R1 to R7, in their order.
unfoldable pub rule_hits : Observed → List RuleHit
rule_hits o =
    rule_hit Rule.distinct_cards_per_account 40 o.distinct_cards t_distinct_cards w_distinct_cards
    ++ (rule_hit Rule.declines_per_account 35 o.declines_user t_declines_per_account w_declines
        ++ (rule_hit Rule.declines_per_ip 30 o.declines_ip t_declines_per_ip w_declines
            ++ (rule_hit Rule.card_across_accounts 45 o.card_accounts t_card_accounts
                  w_card_across_accounts
                ++ (rule_hit Rule.rapid_fire_bookings 25 o.rapid_bookings t_rapid_bookings
                      w_rapid_bookings
                    ++ (rule_hit Rule.small_amount_velocity 20 o.small_count t_small_amounts
                          w_small_amounts
                        ++ rule_hit Rule.recent_card_validation 50 (flag_count o.risk_flag) 1
                            w_risk_flag)))))

unfoldable pub sum_scores : List RuleHit → ℕ
sum_scores [] = 0
sum_scores (h ∷ hs) = h.score + sum_scores hs

unfoldable pub judge : Observed → Assessment
unfolding rule_hits sum_scores
judge o = record { score = sum_scores (rule_hits o); hits = rule_hits o }

abbrev pub no_assessment : Assessment
no_assessment = record { score = 0; hits = [] }

-- The event of an attempt that is not simply allowed.
unfoldable pub assessment_event : ℕ → Assessment → Option SecurityEvent
assessment_event user_id a = elim (decision a) [
  | Decision.allow ↦ none
  | Decision.challenge ↦ some (record {
    event_type = SecurityEventType.carding_suspected;
    severity = severity a;
    actor_user_id = some user_id;
  })
  | Decision.block ↦ some (record {
    event_type = SecurityEventType.carding_blocked;
    severity = severity a;
    actor_user_id = some user_id;
  })
]

-- ===== src/Carding/Scoring.antt =====
-- What the score makes of the rules that were hit.
use concurrent_flight_bookin.Prelude.{ℕ, ◌≤◌, ◌≡◌, ◌≢◌, ◌+◌, List, [], ◌∷◌, ◌++◌, arith, length}
use concurrent_flight_bookin.Domain.Enums.{Decision}
use concurrent_flight_bookin.Carding.{
  Assessment, Observed, Rule, RuleHit, rule_hit, decision, judge, rule_hits, sum_scores, flag_count,
}

-- The number of hits nearly decides: none allows the attempt, one never blocks it, two never allow it, and three or more
-- always block it.
judge-by_hits :
    (o : Observed)
    → let a = judge o in
      (length a.hits ≡ 0 → decision a ≡ Decision.allow)
      × (length a.hits ≤ 1 → decision a ≢ Decision.block)
      × (2 ≤ length a.hits → decision a ≢ Decision.allow)
      × (3 ≤ length a.hits → decision a ≡ Decision.block)
unfolding judge
judge-by_hits o = ground arith

sum_scores-append : (hs ks : List RuleHit) → sum_scores (hs ++ ks) ≡ sum_scores hs + sum_scores ks
unfolding sum_scores
sum_scores-append [] ks = omega arith
sum_scores-append (h ∷ hs) ks = omega (arith, sum_scores-append hs ks)

-- One rule adds no less when it has seen no less, whatever the other rules add.
rule_mono :
    (rule : Rule) (score t w n n' : ℕ) (hs hs' : List RuleHit)
    → n ≤ n'
    → sum_scores hs ≤ sum_scores hs'
    → sum_scores (rule_hit rule score n t w ++ hs) ≤ sum_scores (rule_hit rule score n' t w ++ hs')
unfolding sum_scores
rule_mono rule score t w n n' hs hs' le rest = ground arith

rule_mono_last :
    (rule : Rule) (score t w n n' : ℕ)
    → n ≤ n'
    → sum_scores (rule_hit rule score n t w) ≤ sum_scores (rule_hit rule score n' t w)
unfolding sum_scores
rule_mono_last rule score t w n n' le = ground arith

abbrev pub rank : Decision → ℕ
rank Decision.allow = 0
rank Decision.challenge = 1
rank Decision.block = 2

rank_mono : (a b : Assessment) → a.score ≤ b.score → rank (decision a) ≤ rank (decision b)
rank_mono a b le = ground arith

-- Each count is at least as large, and the risk flag is not taken back.
pub record IsWorse (o p : Observed) : Type 0 where
  pub cards : o.distinct_cards ≤ p.distinct_cards
  pub accounts : o.card_accounts ≤ p.card_accounts
  pub bookings : o.rapid_bookings ≤ p.rapid_bookings
  pub by_user : o.declines_user ≤ p.declines_user
  pub by_ip : o.declines_ip ≤ p.declines_ip
  pub small : o.small_count ≤ p.small_count
  pub flag : flag_count o.risk_flag ≤ flag_count p.risk_flag

-- More of any signal never lowers the score, and never makes the decision milder.
pub judge_mono :
    (o p : Observed)
    → IsWorse o p
    → ((judge o).score ≤ (judge p).score) × (rank (decision (judge o)) ≤ rank (decision (judge p)))
unfolding judge
judge_mono o p h =
    let le : sum_scores (rule_hits o) ≤ sum_scores (rule_hits p) =
      unfold rule_hits in
      rule_mono _ _ _ _ _ _ _ _ h.cards (
        rule_mono _ _ _ _ _ _ _ _ h.by_user (
          rule_mono _ _ _ _ _ _ _ _ h.by_ip (
            rule_mono _ _ _ _ _ _ _ _ h.accounts (
              rule_mono _ _ _ _ _ _ _ _ h.bookings
                (rule_mono _ _ _ _ _ _ _ _ h.small (rule_mono_last _ _ _ _ _ _ h.flag)))))) in
    (le, rank_mono (judge o) (judge p) le)

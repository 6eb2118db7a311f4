-- ===== src/Carding/Windows.antt =====
-- The windows of app/security/carding.py in Redis, and the two calls that read and write them. An exception of Redis ends
-- the `try` block: its steps answer `none`. The readings of the clock and the drawn member names are arguments.
use concurrent_flight_bookin.Prelude.{
  ℕ, suc, ◌+◌, ◌-◌, ◌*◌, Bool, true, false, Option, none, some, List, [], ◌∷◌, ◌++◌, Text, leb,
  same, if◌then◌else◌,
}
use mathlib.Core.List.{reverse}
use concurrent_flight_bookin.Domain.Enums.{Severity, SecurityEventType}
use concurrent_flight_bookin.Domain.Models.{SecurityEvent}
use concurrent_flight_bookin.Redis.{Redis, Command, Answer, number, members, nil, text, number_at}
use concurrent_flight_bookin.Redis.Decimal.{decimal}
use concurrent_flight_bookin.Carding.{
  Assessment, Observed, judge, no_assessment, assessment_event, w_distinct_cards,
  w_card_across_accounts, w_declines, w_outcome_sequence, w_rapid_bookings, w_small_amounts,
  w_risk_flag, t_decline_burst, small_amount_ceiling,
}

-- Keys: a prefix, and the id that follows it.
abbrev pub k_distinct_cards : ℕ → Text
k_distinct_cards user_id =
    b'c' ∷ b'd' ∷ b':' ∷ b'c' ∷ b'a' ∷ b'r' ∷ b'd' ∷ b's' ∷ b':' ∷ b'u' ∷ b':' ∷ decimal user_id

abbrev pub k_card_accounts : Text → Text
k_card_accounts fingerprint =
    b'c' ∷ b'd' ∷ b':' ∷ b'a' ∷ b'c' ∷ b'c' ∷ b't' ∷ b's' ∷ b':' ∷ b'f' ∷ b'p' ∷ b':' ∷ fingerprint

abbrev pub k_declines_user : ℕ → Text
k_declines_user user_id =
    b'c' ∷ b'd' ∷ b':' ∷ b'd' ∷ b'e' ∷ b'c' ∷ b':' ∷ b'u' ∷ b':' ∷ decimal user_id

abbrev pub k_declines_ip : Text → Text
k_declines_ip ip = b'c' ∷ b'd' ∷ b':' ∷ b'd' ∷ b'e' ∷ b'c' ∷ b':' ∷ b'i' ∷ b'p' ∷ b':' ∷ ip

abbrev pub k_outcomes : ℕ → Text
k_outcomes user_id = b'c' ∷ b'd' ∷ b':' ∷ b'o' ∷ b'u' ∷ b't' ∷ b':' ∷ b'u' ∷ b':' ∷ decimal user_id

abbrev pub k_bookings : ℕ → Text
k_bookings user_id = b'c' ∷ b'd' ∷ b':' ∷ b'b' ∷ b'k' ∷ b':' ∷ b'u' ∷ b':' ∷ decimal user_id

abbrev pub k_small : ℕ → Text
k_small user_id =
    b'c' ∷ b'd' ∷ b':' ∷ b's' ∷ b'm' ∷ b'a' ∷ b'l' ∷ b'l' ∷ b':' ∷ b'u' ∷ b':' ∷ decimal user_id

abbrev pub k_risk : ℕ → Text
k_risk user_id =
    b'c' ∷ b'd' ∷ b':' ∷ b'r' ∷ b'i' ∷ b's' ∷ b'k' ∷ b':' ∷ b'u' ∷ b':' ∷ decimal user_id

-- `if ip`: neither None nor the empty text.
abbrev pub has_ip : Option Text → Bool
has_ip none = false
has_ip (some []) = false
has_ip (some (c ∷ ip)) = true

abbrev pub ip_text : Option Text → Text
ip_text none = []
ip_text (some ip) = ip

-- `":decline"` and `":approve"`.
abbrev pub declined_mark : Text
declined_mark = b':' ∷ b'd' ∷ b'e' ∷ b'c' ∷ b'l' ∷ b'i' ∷ b'n' ∷ b'e' ∷ []

abbrev pub approved_mark : Text
approved_mark = b':' ∷ b'a' ∷ b'p' ∷ b'p' ∷ b'r' ∷ b'o' ∷ b'v' ∷ b'e' ∷ []

-- f"{_now_ms()}:{outcome}"
abbrev pub outcome_member : ℕ → Bool → Text
outcome_member now_ms approved =
    decimal now_ms ++ (if approved then approved_mark else declined_mark)

-- `member.endswith(suffix)`
unfoldable pub ends_with : Text → Text → Bool
ends_with suffix [] = same [] suffix
ends_with suffix (c ∷ s) =
    let rest = ends_with suffix s in if same (c ∷ s) suffix then true else rest

-- `members[:-1]`
unfoldable pub but_last : List Text → List Text
but_last [] = []
but_last (m ∷ []) = []
but_last (m ∷ n ∷ ms) = m ∷ but_last (n ∷ ms)

-- The loop: declines are counted until something else comes.
unfoldable pub declines_first : List Text → ℕ
declines_first [] = 0
declines_first (m ∷ ms) =
    let rest = declines_first ms in if ends_with declined_mark m then suc rest else 0

unfoldable pub trailing_declines : List Text → ℕ
unfolding declines_first but_last
trailing_declines ms = declines_first (reverse (but_last ms))

-- What one attempt is about.
pub record Attempt : Type 0 where
  pub user_id : ℕ
  pub ip : Option Text
  pub card_fingerprint : Text
  pub amount : ℕ

abbrev pub members_in : List Answer → List Text
members_in [] = []
members_in (members ms ∷ as') = ms
members_in (number _ ∷ as') = []
members_in (nil ∷ as') = []
members_in (text _ ∷ as') = []

-- `if risk_flag`: a text that is not empty.
abbrev pub is_set : List Answer → Bool
is_set [] = false
is_set (text [] ∷ as') = false
is_set (text (c ∷ v) ∷ as') = true
is_set (members _ ∷ as') = false
is_set (number _ ∷ as') = false
is_set (nil ∷ as') = false

-- The event of a burst of declines that ends in an approval.
abbrev pub burst_event : ℕ → SecurityEvent
burst_event user_id = record {
  event_type = SecurityEventType.carding_suspected;
  severity = Severity.high;
  actor_user_id = some user_id;
}

-- "card_validated"
abbrev pub card_validated : Text
card_validated =
    b'c' ∷ b'a' ∷ b'r' ∷ b'd' ∷ b'_' ∷ b'v' ∷ b'a' ∷ b'l' ∷ b'i' ∷ b'd' ∷ b'a' ∷ b't' ∷ b'e' ∷ b'd'
    ∷ []

-- Steps in a `try` block.
abbrev pub Try : Type 0 → Type 0 → Type 0
Try R A = R → Option A × R

module _ {R : Type 0} where
  abbrev pub pure : {A : Type 0} → A → Try R A
  pure a r = (some a, r)

  infixl 5 ◌>>=◌
  abbrev pub ◌>>=◌ : {A B : Type 0} → Try R A → (A → Try R B) → Try R B
  ◌>>=◌ m f r = let (a, r') = m r in elim a [ none ↦ (none, r') | some x ↦ f x r' ]

module _ {R : Type 0} (redis : Redis R) where
  unfoldable pub touch : ℕ → Text → Text → ℕ → Try R ℕ
  touch now key m window_seconds = do
    results ← redis.execute now (
        Command.zremrangebyscore key 0 (now - window_seconds * 1000)
        ∷ Command.zadd key m now
        ∷ Command.zcard key
        ∷ Command.expire key (window_seconds + 1)
        ∷ [])
    pure (number_at results 2)

  unfoldable pub count : ℕ → Text → ℕ → Try R ℕ
  count now key window_seconds = do
    results ←
        redis.execute now
          (Command.zremrangebyscore key 0 (now - window_seconds * 1000) ∷ Command.zcard key ∷ [])
    pure (number_at results 1)

  unfoldable pub members_of : ℕ → Text → ℕ → Try R (List Text)
  members_of now key window_seconds = do
    trimmed ← redis.execute now (Command.zremrangebyscore key 0 (now - window_seconds * 1000) ∷ [])
    results ← redis.execute now (Command.zrange key ∷ [])
    pure (members_in results)

  -- The `try` block of `assess_payment_attempt`; `clock i` is the i-th reading.
  unfoldable pub observe : (ℕ → ℕ) → Text → Text → Attempt → Try R Observed
  observe clock drawn drawn' a = do
    distinct_cards ←
        touch (clock 0) (k_distinct_cards a.user_id) a.card_fingerprint w_distinct_cards
    card_accounts ←
        touch (clock 1) (k_card_accounts a.card_fingerprint) (decimal a.user_id)
          w_card_across_accounts
    rapid_bookings ← touch (clock 2) (k_bookings a.user_id) drawn w_rapid_bookings
    declines_user ← count (clock 3) (k_declines_user a.user_id) w_declines
    declines_ip ←
        (if has_ip a.ip then count (clock 4) (k_declines_ip (ip_text a.ip)) w_declines else pure 0)
    small_count ←
        (if leb a.amount small_amount_ceiling
          then touch (clock 5) (k_small a.user_id) drawn' w_small_amounts
          else count (clock 5) (k_small a.user_id) w_small_amounts)
    flag ← redis.execute (clock 6) (Command.get (k_risk a.user_id) ∷ [])
    pure (record {
      distinct_cards = distinct_cards;
      card_accounts = card_accounts;
      rapid_bookings = rapid_bookings;
      declines_user = declines_user;
      declines_ip = declines_ip;
      small_count = small_count;
      risk_flag = is_set flag;
    })

  -- Without Redis the attempt is allowed, with no event.
  abbrev pub assess : ℕ → Option Observed → Assessment × Option SecurityEvent
  assess user_id none = (no_assessment, none)
  assess user_id (some o) = (judge o, assessment_event user_id (judge o))

  unfoldable pub assess_payment_attempt :
      (ℕ → ℕ) → Text → Text → Attempt → R → (Assessment × Option SecurityEvent) × R
  assess_payment_attempt clock drawn drawn' a r =
      let (o, r') = observe clock drawn drawn' a r in (assess a.user_id o, r')

  unfoldable pub record_decline : (ℕ → ℕ) → Text → Text → Attempt → Try R (Option SecurityEvent)
  record_decline clock drawn drawn' a = do
    by_user ← touch (clock 2) (k_declines_user a.user_id) drawn w_declines
    by_ip ←
        (if has_ip a.ip
          then touch (clock 3) (k_declines_ip (ip_text a.ip)) drawn' w_declines
          else pure 0)
    pure none

  unfoldable pub record_approval : (ℕ → ℕ) → Attempt → Try R (Option SecurityEvent)
  record_approval clock a = do
    ms ← members_of (clock 2) (k_outcomes a.user_id) w_outcome_sequence
    (if leb t_decline_burst (trailing_declines ms)
        then (do
          flagged ←
              redis.execute (clock 3)
                (Command.set (k_risk a.user_id) card_validated w_risk_flag ∷ [])
          pure (some (burst_event a.user_id)))
        else pure none)

  -- `record_outcome`; the clock is read for the member's name, and again for its score.
  unfoldable pub record_outcome :
      (ℕ → ℕ) → Text → Text → Attempt → Bool → Try R (Option SecurityEvent)
  record_outcome clock drawn drawn' a approved = do
    n ←
        touch (clock 1) (k_outcomes a.user_id) (outcome_member (clock 0) approved)
          w_outcome_sequence
    (if approved then record_approval clock a else record_decline clock drawn drawn' a)

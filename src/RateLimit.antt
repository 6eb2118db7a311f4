-- ===== src/RateLimit.antt =====
-- app/security/ratelimit.py: the sliding-window limiter. Redis is a parameter; the clock and the drawn half of a member's name are
-- arguments. The security event of a refusal is left out.
pub mod Sliding
mod Tests
use concurrent_flight_bookin.Prelude.{
  ℕ, zero, suc, ◌+◌, ◌-◌, ◌*◌, Bool, Option, none, some, List, [], ◌∷◌, ◌++◌, Text, ltb,
  if◌then◌else◌,
}
use concurrent_flight_bookin.Errors.{Exc, AppError}
use concurrent_flight_bookin.Config.{Settings}
use concurrent_flight_bookin.Redis.{Redis, Command, Answer, number_at}
use concurrent_flight_bookin.Redis.Decimal.{decimal}

pub record Limit : Type 0 where
  pub name : Text
  pub max_requests : ℕ
  pub window_seconds : ℕ

pub data Bucket : Type 0 where
  login register refresh hold booking search global : Bucket

-- LIMITS
unfoldable pub limits : Bucket → Limit
limits Bucket.login = record {
  name = b'l' ∷ b'o' ∷ b'g' ∷ b'i' ∷ b'n' ∷ [];
  max_requests = 10;
  window_seconds = 300;
}
limits Bucket.register = record {
  name = b'r' ∷ b'e' ∷ b'g' ∷ b'i' ∷ b's' ∷ b't' ∷ b'e' ∷ b'r' ∷ [];
  max_requests = 10;
  window_seconds = 3600;
}
limits Bucket.refresh = record {
  name = b'r' ∷ b'e' ∷ b'f' ∷ b'r' ∷ b'e' ∷ b's' ∷ b'h' ∷ [];
  max_requests = 30;
  window_seconds = 300;
}
limits Bucket.hold = record {
  name = b'h' ∷ b'o' ∷ b'l' ∷ b'd' ∷ [];
  max_requests = 30;
  window_seconds = 60;
}
limits Bucket.booking = record {
  name = b'b' ∷ b'o' ∷ b'o' ∷ b'k' ∷ b'i' ∷ b'n' ∷ b'g' ∷ [];
  max_requests = 10;
  window_seconds = 60;
}
limits Bucket.search = record {
  name = b's' ∷ b'e' ∷ b'a' ∷ b'r' ∷ b'c' ∷ b'h' ∷ [];
  max_requests = 120;
  window_seconds = 60;
}
limits Bucket.global = record {
  name = b'g' ∷ b'l' ∷ b'o' ∷ b'b' ∷ b'a' ∷ b'l' ∷ [];
  max_requests = 600;
  window_seconds = 60;
}

-- f"rl:{limit.name}:{subject}"
abbrev pub limit_key : Limit → Text → Text
limit_key limit subject = b'r' ∷ b'l' ∷ b':' ∷ (limit.name ++ (b':' ∷ subject))

-- f"{now_ms}-{uuid.uuid4().hex[:8]}"
abbrev pub request_member : ℕ → Text → Text
request_member now_ms drawn = decimal now_ms ++ (b'-' ∷ drawn)

-- `now_ms - limit.window_seconds * 1000`; the clock counts from 1970, so that this does not fall below 0.
abbrev pub cutoff : Limit → ℕ → ℕ
cutoff limit now_ms = now_ms - limit.window_seconds * 1000

abbrev pub limit_pipeline : Limit → Text → ℕ → Text → List Command
limit_pipeline limit key now_ms drawn =
    Command.zremrangebyscore key 0 (cutoff limit now_ms)
    ∷ Command.zadd key (request_member now_ms drawn) now_ms
    ∷ Command.zcard key
    ∷ Command.expire key (limit.window_seconds + 1)
    ∷ []

abbrev pub over_limit : Limit → Option (List Answer) → Option Exc
over_limit limit none = none
over_limit limit (some results) =
    if ltb limit.max_requests (number_at results 2)
    then some (Exc.app AppError.rate_limited)
    else none

abbrev pub subject_ip : Option Text → Text
subject_ip none = b'i' ∷ b'p' ∷ b':' ∷ b'u' ∷ b'n' ∷ b'k' ∷ b'n' ∷ b'o' ∷ b'w' ∷ b'n' ∷ []
subject_ip (some ip) = b'i' ∷ b'p' ∷ b':' ∷ ip

abbrev pub subject_user : Text → Text
subject_user user_id = b'u' ∷ b's' ∷ b'e' ∷ b'r' ∷ b':' ∷ user_id

module _ {R : Type 0} (redis : Redis R) where
  -- What is raised, if anything.
  unfoldable pub check_limit : Settings → Limit → Text → ℕ → Text → R → Option Exc × R
  check_limit settings limit subject now_ms drawn r =
      let (results, r') =
        redis.execute now_ms (limit_pipeline limit (limit_key limit subject) now_ms drawn) r in
      if settings.rate_limit_enabled then (over_limit limit results, r') else (none, r)

  -- The check of the account, unless the address is refused already.
  abbrev pub check_user :
      Settings → Limit → Option Text → ℕ → Text → Option Exc × R → Option Exc × R
  check_user settings limit user_id now_ms drawn (some e, r) = (some e, r)
  check_user settings limit none now_ms drawn (none, r) = (none, r)
  check_user settings limit (some u) now_ms drawn (none, r) =
      check_limit settings limit (subject_user u) now_ms drawn r

  -- The dependency `rate_limit(bucket)`.
  unfoldable pub rate_limit :
      Settings → Bucket → Option Text → Option Text → ℕ → Text → Text → R → Option Exc × R
  unfolding check_limit
  rate_limit settings bucket ip user_id now_ms drawn drawn' r =
      check_user settings (limits bucket) user_id now_ms drawn'
        (check_limit settings (limits bucket) (subject_ip ip) now_ms drawn r)

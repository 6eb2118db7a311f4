-- ===== src/Config.antt =====
-- The settings of app/config.py that the modelled services read, with their defaults, and time spans.
use concurrent_flight_bookin.Prelude.{ℕ, ◌*◌, Bool, true, Text, [], ◌∷◌}

pub record Settings : Type 0 where
  pub access_token_ttl_seconds : ℕ
  pub refresh_token_ttl_seconds : ℕ
  pub login_max_failures : ℕ
  pub login_lockout_seconds : ℕ
  pub hold_ttl_seconds : ℕ
  pub max_active_holds_per_user : ℕ
  pub rate_limit_enabled : Bool
  pub idempotency_ttl_seconds : ℕ
  pub dashboard_enabled : Bool
  pub dashboard_user : Text
  pub dashboard_password : Text

abbrev pub default_settings : Settings
default_settings = record {
  access_token_ttl_seconds = 600;
  refresh_token_ttl_seconds = 1209600;
  login_max_failures = 5;
  login_lockout_seconds = 900;
  hold_ttl_seconds = 600;
  max_active_holds_per_user = 6;
  rate_limit_enabled = true;
  idempotency_ttl_seconds = 24 * 3600;
  dashboard_enabled = true;
  dashboard_user = b'd' ∷ b'a' ∷ b's' ∷ b'h' ∷ [];
  dashboard_password =
      b'd' ∷ b'a' ∷ b's' ∷ b'h' ∷ b'-' ∷ b'd' ∷ b'e' ∷ b'v' ∷ b'-' ∷ b'p' ∷ b'a' ∷ b's' ∷ b's'
      ∷ b'w' ∷ b'o' ∷ b'r' ∷ b'd' ∷ [];
}

-- `timedelta(seconds=n)`, in microseconds.
abbrev pub seconds : ℕ → ℕ
seconds n = n * 1000000

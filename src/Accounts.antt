-- ===== src/Accounts.antt =====
-- app/api/auth.py: registration, login with its lockout, refresh and logout, with the parts of app/security/hashing.py that they
-- call. Argon2 is a parameter: `hash` makes a stored hash, `verify` checks a password against one (false on its
-- exceptions). Tokens' raw texts, ids and hashes are drawn, and enter as arguments; a raw token enters as its hash.
pub mod Access
pub mod Lockout
pub mod Sessions
mod Tests
use mathlib.Core.List.{reverse}
use concurrent_flight_bookin.Prelude.{
  ℕ, ◌+◌, ◌-◌, Bool, true, false, not, ◌&&◌, ◌||◌, Option, none, some, List, [], ◌∷◌, map, Text,
  ◌==◌, leb, same, if◌then◌else◌, is_null, is_gt, first, update_where,
}
use concurrent_flight_bookin.Errors.{AppError}
use concurrent_flight_bookin.Config.{Settings, seconds}
use concurrent_flight_bookin.Domain.Enums.{SecurityEventType, Severity}
use concurrent_flight_bookin.Domain.Models.{User, RefreshToken, SecurityEvent}
use concurrent_flight_bookin.Tokens.{
  Rotation, rotated, denied, has_hash, revoke_family, rotate_refresh_token,
}

-- The password hasher.
pub record Hasher : Type 0 where
  pub hash : Text → Text
  pub verify : Text → Text → Bool

-- The tables that these routes write.
pub record Accounts : Type 0 where
  pub users : List User
  pub tokens : List RefreshToken
  pub events : List SecurityEvent

-- What one request draws: ids, and the hash of its refresh token.
pub record AuthDraws : Type 0 where
  pub user_id : ℕ
  pub token_id : ℕ
  pub family_id : ℕ
  pub token_hash : Text

-- The refresh token that is answered, by its hash, for the account that the access token names; or what is raised.
pub data Auth : Type 0 where
  signed_in : User → Text → Auth
  refused : AppError → Auth

-- `email.strip().lower()`, for ASCII.
abbrev pub is_space : ℕ → Bool
is_space c = c == 32 || (leb 9 c && leb c 13)

unfoldable pub drop_spaces : Text → Text
drop_spaces [] = []
drop_spaces (c ∷ s) = let rest = drop_spaces s in if is_space c then rest else c ∷ s

abbrev pub lower_char : ℕ → ℕ
lower_char c = if leb b'A' c && leb c b'Z' then c + 32 else c

unfoldable pub normalize_email : Text → Text
unfolding drop_spaces
normalize_email email = map lower_char (reverse (drop_spaces (reverse (drop_spaces email))))

abbrev pub verify_password : Hasher → Text → Option Text → Bool
verify_password hasher password none = false
verify_password hasher password (some h) = hasher.verify h password

abbrev pub has_email : Text → User → Bool
has_email email u = same u.email email

abbrev pub event : SecurityEventType → Severity → Option ℕ → SecurityEvent
event t s actor = record { event_type = t; severity = s; actor_user_id = actor }

-- `issue_refresh_token`, with a family of its own.
abbrev pub first_token : Settings → ℕ → AuthDraws → User → RefreshToken
first_token settings now draws user = record {
  id = draws.token_id;
  family_id = draws.family_id;
  user_id = user.id;
  token_hash = draws.token_hash;
  parent_id = none;
  used_at = none;
  revoked_at = none;
  expires_at = now + seconds settings.refresh_token_ttl_seconds;
}

-- The tokens and the event of a sign-in.
abbrev pub sign_in :
    Settings → ℕ → AuthDraws → SecurityEventType → User → Accounts → Auth × Accounts
sign_in settings now draws t user a = (
  signed_in user draws.token_hash,
  record a {
    tokens = first_token settings now draws user ∷ a.tokens;
    events = event t Severity.info (some user.id) ∷ a.events;
  },
)

abbrev pub save_user : User → Accounts → Accounts
save_user u a = record a { users = update_where (λ x. x.id == u.id) (λ _. u) a.users }

abbrev pub log_event : SecurityEvent → Accounts → Accounts
log_event e a = record a { events = e ∷ a.events }

-- One more failure; at the limit the account is locked and the count starts anew.
unfoldable pub failed_once : Settings → ℕ → User → User
failed_once settings now u =
    if leb settings.login_max_failures (u.failed_login_count + 1)
    then record u {
      locked_until = some (now + seconds settings.login_lockout_seconds);
      failed_login_count = 0;
    }
    else record u { failed_login_count = u.failed_login_count + 1 }

abbrev pub failure_event : Settings → User → SecurityEvent
failure_event settings u =
    if leb settings.login_max_failures (u.failed_login_count + 1)
    then event SecurityEventType.account_locked Severity.high (some u.id)
    else event SecurityEventType.login_failed Severity.low (some u.id)

abbrev pub unlocked : User → User
unlocked u = record u { failed_login_count = 0; locked_until = none }

abbrev pub new_user : Hasher → AuthDraws → Text → Text → User
new_user hasher draws email password = record {
  id = draws.user_id;
  email = normalize_email email;
  password_hash = hasher.hash password;
  is_admin = false;
  is_active = true;
  failed_login_count = 0;
  locked_until = none;
}

module _ (settings : Settings) (hasher : Hasher) where
  -- A full name is no part of the model.
  unfoldable pub register : ℕ → AuthDraws → Text → Text → Accounts → Auth × Accounts
  register now draws email password a =
      let user : User = new_user hasher draws email password in
      elim (first (has_email (normalize_email email)) a.users) [
        | some _ ↦ (refused AppError.email_already_registered, a)
        | none ↦
            sign_in settings now draws SecurityEventType.registered user
              (record a { users = user ∷ a.users })
      ]

  -- The account that was found, as one step from the read of its row to the commit; the code takes no lock on the row.
  unfoldable pub login_user : ℕ → AuthDraws → Text → User → Accounts → Auth × Accounts
  unfolding failed_once
  login_user now draws password u a =
      if is_gt u.locked_until now
      then (
        refused AppError.account_locked,
        log_event (event SecurityEventType.login_failed Severity.medium (some u.id)) a,
      )
      else if verify_password hasher password (some u.password_hash)
      then sign_in settings now draws SecurityEventType.login_succeeded (unlocked u)
          (save_user (unlocked u) a)
      else (
        refused AppError.invalid_credentials,
        log_event (failure_event settings u) (save_user (failed_once settings now u) a),
      )

  unfoldable pub login : ℕ → AuthDraws → Text → Text → Accounts → Auth × Accounts
  unfolding login_user
  login now draws email password a = elim (first (has_email (normalize_email email)) a.users) [
    | none ↦ (
      refused AppError.invalid_credentials,
      log_event (event SecurityEventType.login_failed Severity.low none) a,
    )
    | some u ↦ login_user now draws password u a
  ]

  abbrev pub answer_rotation : Rotation → Auth
  answer_rotation (rotated u h) = signed_in u h
  answer_rotation (denied e) = refused e

  -- The events of a rotation are left out.
  unfoldable pub refresh_tokens : ℕ → AuthDraws → Text → Accounts → Auth × Accounts
  unfolding rotate_refresh_token
  refresh_tokens now draws token_hash a =
      let (r, tokens') =
        rotate_refresh_token settings now draws.token_id draws.token_hash a.users token_hash
          a.tokens in
      (answer_rotation r, record a { tokens = tokens' })

  unfoldable pub logout : ℕ → Text → Accounts → Accounts
  unfolding revoke_family
  logout now token_hash a = elim (first (has_hash token_hash) a.tokens) [
    | none ↦ a
    | some row ↦ record a { tokens = revoke_family now row.family_id a.tokens }
  ]

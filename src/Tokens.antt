-- ===== src/Tokens.antt =====
-- The refresh tokens of app/security/tokens.py: families, rotation and reuse detection. A raw token enters as its hash; the
-- id and the hash of a new token, and the clock, are arguments. Security events are left out.
pub mod Reuse
mod Tests
use concurrent_flight_bookin.Prelude.{
  ℕ, ◌+◌, Bool, true, false, not, ◌&&◌, Option, none, some, List, [], ◌∷◌, Text, ◌==◌, leb, same,
  if◌then◌else◌, is_null, first, update_where,
}
use concurrent_flight_bookin.Errors.{Exc, AppError}
use concurrent_flight_bookin.Config.{Settings, seconds}
use concurrent_flight_bookin.Domain.Models.{User, RefreshToken}

-- What `rotate_refresh_token` returns or raises.
pub data Rotation : Type 0 where
  rotated : User → Text → Rotation
  denied : AppError → Rotation

abbrev pub has_hash : Text → RefreshToken → Bool
has_hash token_hash t = same t.token_hash token_hash

abbrev pub live_in : ℕ → RefreshToken → Bool
live_in family_id t = t.family_id == family_id && is_null t.revoked_at

abbrev pub revoked : ℕ → RefreshToken → RefreshToken
revoked now t = record t { revoked_at = some now }

-- The UPDATE of `revoke_family`.
unfoldable pub revoke_family : ℕ → ℕ → List RefreshToken → List RefreshToken
revoke_family now family_id tokens = update_where (live_in family_id) (revoked now) tokens

-- The child that a rotation issues.
abbrev pub child_of : Settings → ℕ → ℕ → Text → RefreshToken → RefreshToken
child_of settings now id token_hash row = record {
  id = id;
  family_id = row.family_id;
  user_id = row.user_id;
  token_hash = token_hash;
  parent_id = some row.id;
  used_at = none;
  revoked_at = none;
  expires_at = now + seconds settings.refresh_token_ttl_seconds;
}

abbrev pub used : ℕ → RefreshToken → RefreshToken
used now t = record t { used_at = some now }

-- The account of the token, if it exists and is active.
unfoldable pub active_user : ℕ → List User → Option User
active_user user_id users = elim (first (λ u. u.id == user_id) users) [
  | none ↦ none
  | some u ↦ if u.is_active then some u else none
]

-- The checks on the row that was found, in their order.
unfoldable pub rotate_row :
    Settings
    → ℕ
    → ℕ
    → Text
    → List User
    → RefreshToken
    → List RefreshToken
    → Rotation × List RefreshToken
unfolding revoke_family active_user
rotate_row settings now id new_hash users row tokens =
    if not (is_null row.revoked_at)
    then (denied AppError.invalid_token, tokens)
    else if not (is_null row.used_at)
    then (denied AppError.token_reuse_detected, revoke_family now row.family_id tokens)
    else if leb row.expires_at now
    then (denied AppError.invalid_token, tokens)
    else elim (active_user row.user_id users) [
      | none ↦ (denied AppError.invalid_token, tokens)
      | some u ↦ (
        rotated u new_hash,
        child_of settings now id new_hash row
            ∷ update_where (λ t. t.id == row.id) (used now) tokens,
      )
    ]

unfoldable pub rotate_refresh_token :
    Settings → ℕ → ℕ → Text → List User → Text → List RefreshToken → Rotation × List RefreshToken
unfolding rotate_row
rotate_refresh_token settings now id new_hash users token_hash tokens =
    elim (first (has_hash token_hash) tokens) [
      | none ↦ (denied AppError.invalid_token, tokens)
      | some row ↦ rotate_row settings now id new_hash users row tokens
    ]

-- ===== src/Accounts/Sessions.antt =====
-- How sessions begin and end: registration and login, logout, and what the answers of login give away.
use concurrent_flight_bookin.Prelude.{
  ℕ, ◌≡◌, ◌↔◌, false, none, some, List, [], ◌∷◌, Text, arith, is_gt, is_null, first,
}
use concurrent_flight_bookin.Errors.{AppError}
use concurrent_flight_bookin.Config.{Settings}
use concurrent_flight_bookin.Domain.Models.{User, RefreshToken}
use concurrent_flight_bookin.Tokens.{has_hash, revoke_family, rotate_refresh_token}
use concurrent_flight_bookin.Accounts.{
  Hasher, Accounts, AuthDraws, refused, has_email, login, login_user, logout, refresh_tokens,
  normalize_email,
}

found_revoked :
    (now f : ℕ) (h : Text) (tokens : List RefreshToken) (t : RefreshToken)
    → first (has_hash h) (revoke_family now f tokens) ≡ some t
    → t.family_id ≡ f
    → is_null t.revoked_at ≡ false
unfolding revoke_family
found_revoked now f h [] t e i = cc
found_revoked now f h (x ∷ tokens) t e i = ground (arith, found_revoked now f h tokens t)

-- After a logout with a token, every token of its family that is presented, the one itself and its rotated siblings alike, at
-- any time, is answered by InvalidToken, and the refusal changes no token and no account.
pub refresh-logout :
    (settings : Settings) (hasher : Hasher) (now later : ℕ) (draws : AuthDraws) (h other : Text)
    (a : Accounts) (row t : RefreshToken)
    → first (has_hash h) a.tokens ≡ some row
    → let out = logout settings hasher now h a in
      first (has_hash other) out.tokens ≡ some t
      → t.family_id ≡ row.family_id
      → let (r, a') = refresh_tokens settings hasher later draws other out in
        (r ≡ refused AppError.invalid_token) × (a'.tokens ≡ out.tokens) × (a'.users ≡ a.users)
unfolding logout refresh_tokens rotate_refresh_token
refresh-logout settings hasher now later draws h other a row t found again family =
    ground (arith, found_revoked now row.family_id other a.tokens t)

-- A login with a wrong password is answered as one with an unknown address is exactly while the account is not locked: the
-- answer to a locked account tells that the account exists.
pub login_alike :
    (settings : Settings) (hasher : Hasher) (now : ℕ) (draws : AuthDraws)
    (email unknown password : Text) (a : Accounts) (u : User)
    → first (has_email (normalize_email email)) a.users ≡ some u
    → hasher.verify u.password_hash password ≡ false
    → first (has_email (normalize_email unknown)) a.users ≡ none
    → ((login settings hasher now draws email password a).0
        ≡ (login settings hasher now draws unknown password a).0)
      ↔ (is_gt u.locked_until now ≡ false)
unfolding login login_user
login_alike settings hasher now draws email unknown password a u found wrong missing = ground arith

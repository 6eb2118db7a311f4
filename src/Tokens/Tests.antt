-- ===== src/Tokens/Tests.antt =====
-- A concrete family: one token of one account, rotated and then replayed.
use concurrent_flight_bookin.Prelude.{◌≡◌, refl, true, false, none, [], ◌∷◌, count_where, same}
use concurrent_flight_bookin.Errors.{AppError}
use concurrent_flight_bookin.Config.{default_settings}
use concurrent_flight_bookin.Domain.Models.{User, RefreshToken}
use concurrent_flight_bookin.Tokens.{denied, live_in, rotate_refresh_token}
use concurrent_flight_bookin.Tokens.Reuse.{rotate_twice}

abbrev account : User
account = record {
  id = 4;
  email = [];
  password_hash = [];
  is_admin = false;
  is_active = true;
  failed_login_count = 0;
  locked_until = none;
}

abbrev token : RefreshToken
token = record {
  id = 1;
  family_id = 9;
  user_id = 4;
  token_hash = b'h' ∷ [];
  parent_id = none;
  used_at = none;
  revoked_at = none;
  expires_at = 5000;
}

rotate_twice_example :
    let after =
      (rotate_refresh_token default_settings 100 2
        (b'n' ∷ [])
        (account ∷ [])
        (b'h' ∷ [])
        (token ∷ [])).1 in
    let (r, tokens') =
      rotate_refresh_token default_settings 200 3 (b'm' ∷ []) (account ∷ []) (b'h' ∷ []) after in
    (r ≡ denied AppError.token_reuse_detected) × (count_where (live_in 9) tokens' ≡ 0)
unfolding rotate_refresh_token same
rotate_twice_example =
    rotate_twice default_settings 100 200 2 3 (b'n' ∷ []) (b'm' ∷ []) (b'h' ∷ []) (account ∷ [])
      (token ∷ []) token account refl refl refl

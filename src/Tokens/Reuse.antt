-- ===== src/Tokens/Reuse.antt =====
-- A token is good for one rotation; a second one ends its family.
use concurrent_flight_bookin.Prelude.{
  ℕ, ◌≡◌, refl, false, some, List, [], ◌∷◌, Text, ◌==◌, arith, same, first, count_where,
  update_where,
}
use concurrent_flight_bookin.Errors.{AppError}
use concurrent_flight_bookin.Config.{Settings}
use concurrent_flight_bookin.Domain.Models.{User, RefreshToken}
use concurrent_flight_bookin.Tokens.{
  rotated, denied, has_hash, live_in, used, revoke_family, child_of, rotate_refresh_token,
}

-- The row that a rotation marks is found again, marked.
first-used :
    (now : ℕ) (h : Text) (tokens : List RefreshToken) (row : RefreshToken)
    → first (has_hash h) tokens ≡ some row
    → first (has_hash h) (update_where (λ t. t.id == row.id) (used now) tokens)
      ≡ some (used now row)
first-used now h [] row e = cc
first-used now h (t ∷ tokens) row e = ground (arith, first-used now h tokens row)

dead :
    (now family_id : ℕ) (tokens : List RefreshToken)
    → count_where (live_in family_id) (revoke_family now family_id tokens) ≡ 0
unfolding revoke_family
dead now family_id [] = refl
dead now family_id (t ∷ tokens) = ground (arith, dead now family_id tokens)

-- When a token that is found under a hash has been exchanged, presenting that hash again, at any time, is answered by
-- TokenReuseDetected, and no token of the family, the new one included, is left unrevoked.
pub rotate_twice :
    (settings : Settings) (now later id id' : ℕ) (new_hash new_hash' h : Text) (users : List User)
    (tokens : List RefreshToken) (row : RefreshToken) (u : User)
    → first (has_hash h) tokens ≡ some row
    → (rotate_refresh_token settings now id new_hash users h tokens).0 ≡ rotated u new_hash
    → same new_hash h ≡ false
    → let after = (rotate_refresh_token settings now id new_hash users h tokens).1 in
      let (r, tokens') = rotate_refresh_token settings later id' new_hash' users h after in
      (r ≡ denied AppError.token_reuse_detected) × (count_where (live_in row.family_id) tokens' ≡ 0)
unfolding rotate_refresh_token
rotate_twice settings now later id id' new_hash new_hash' h users tokens row u found e fresh =
    ground (
      arith,
      first-used now h tokens row found,
      dead later row.family_id (
          child_of settings now id new_hash row
          ∷ update_where (λ t. t.id == row.id) (used now) tokens),
    )

-- ===== src/Accounts/Tests.antt =====
-- One account, its sessions, and guesses at its password.
use concurrent_flight_bookin.Prelude.{
  ℕ, ◌+◌, ◌≤◌, ◌<◌, ◌≡◌, ◌↔◌, refl, true, false, Bool, none, some, [], ◌∷◌, Text, arith, same,
  Option, zero, suc, take, drop, length, ◌++◌, ◌==◌, leb, ap, is_gt, if◌then◌else◌,
}
use concurrent_flight_bookin.Errors.{AppError}
use concurrent_flight_bookin.Config.{default_settings}
use concurrent_flight_bookin.Domain.Models.{User, RefreshToken}
use concurrent_flight_bookin.Accounts.{
  Hasher, Accounts, AuthDraws, refused, new_user, login, logout, refresh_tokens, normalize_email,
}
use concurrent_flight_bookin.Accounts.Access
use concurrent_flight_bookin.Accounts.Access.{
  Jwt, IsJwt, Claims, Decoded, create_access_token, current_user, timestamp, issuer, audience,
  access_typ, current_user-create_access_token,
}
use concurrent_flight_bookin.Accounts.Lockout.{Guess, checked, checked-le}
use concurrent_flight_bookin.Accounts.Sessions.{refresh-logout, login_alike}

-- A hasher that stores the text itself.
abbrev plain : Hasher
plain = record { hash = λ p. p; verify = λ h p. same h p }

abbrev draws : AuthDraws
draws = record { user_id = 4; token_id = 6; family_id = 9; token_hash = b'h' ∷ [] }

abbrev email : Text
email = b'a' ∷ b'@' ∷ b'b' ∷ []

abbrev account : User
account = new_user plain draws email (b'p' ∷ [])

abbrev token : RefreshToken
token = record {
  id = 1;
  family_id = 9;
  user_id = 4;
  token_hash = b'h' ∷ [];
  parent_id = none;
  used_at = none;
  revoked_at = none;
  expires_at = 5000;
}

abbrev accounts : Accounts
accounts = record { users = account ∷ []; tokens = token ∷ []; events = [] }

abbrev guess : ℕ → Guess
guess at = record { at = at; draws = draws; password = b'q' ∷ [] }

checked-le_example :
    checked default_settings plain email (guess 100 ∷ guess 200 ∷ []) accounts + 0 ≤ 5
unfolding same normalize_email
checked-le_example =
    checked-le default_settings plain email 100 account (guess 100 ∷ guess 200 ∷ []) accounts refl
      (omega arith)
      (
        record { from = omega arith; before = omega arith; wrong = refl },
        (record { from = omega arith; before = omega arith; wrong = refl }, tt),
      )

refresh-logout_example :
    let out = logout default_settings plain 100 (b'h' ∷ []) accounts in
    let (r, a') = refresh_tokens default_settings plain 200 draws (b'h' ∷ []) out in
    (r ≡ refused AppError.invalid_token) × (a'.tokens ≡ out.tokens) × (a'.users ≡ accounts.users)
unfolding logout same
refresh-logout_example =
    refresh-logout default_settings plain 100 200 draws (b'h' ∷ []) (b'h' ∷ []) accounts token
      (record token { revoked_at = some 100 }) refl refl refl

login_alike_example :
    ((login default_settings plain 100 draws email (b'q' ∷ []) accounts).0
      ≡ (login default_settings plain 100 draws (b'x' ∷ []) (b'q' ∷ []) accounts).0)
    ↔ (is_gt account.locked_until 100 ≡ false)
unfolding same normalize_email
login_alike_example =
    login_alike default_settings plain 100 draws email (b'x' ∷ []) (b'q' ∷ []) accounts account refl
      refl refl

abbrev nobody : Accounts
nobody = record { users = []; tokens = []; events = [] }

-- The account after wrong passwords and a lock that has run out.
abbrev tried : User
tried = record account { failed_login_count = 2; locked_until = some 150 }

abbrev in_between : Accounts
in_between = record nobody { users = tried ∷ [] }

-- A codec that writes the claims out, with no secret; issuer and audience are its own.
abbrev sub_code : Option ℕ → ℕ
sub_code none = 0
sub_code (some n) = suc n

abbrev sub_of : ℕ → Option ℕ
sub_of zero = none
sub_of (suc n) = some n

abbrev bit : Bool → ℕ
bit true = 1
bit false = 0

abbrev read_claims : Text → Option Claims
read_claims (sub ∷ admin ∷ jti ∷ iat ∷ exp ∷ n ∷ rest) = some (record {
  sub = sub_of sub;
  email = take n rest;
  admin_scope = admin == 1;
  typ = drop n rest;
  jti = jti;
  iat = iat;
  exp = exp;
  iss = issuer;
  aud = audience;
})
read_claims _ = none

abbrev codec : Jwt
codec = record {
  encode = λ c.
      sub_code c.sub
      ∷ bit c.admin_scope
      ∷ c.jti
      ∷ c.iat
      ∷ c.exp
      ∷ length c.email
      ∷ (c.email ++ c.typ);
  decode = λ now t. elim (read_claims t) [
    | none ↦ Decoded.invalid
    | some c ↦ if leb c.exp now then Decoded.expired else Decoded.valid c
  ];
}

take-append : (xs ys : Text) → take (length xs) (xs ++ ys) ≡ xs
take-append [] ys = refl
take-append (x ∷ xs) ys = ap (λ l. x ∷ l) (take-append xs ys)

drop-append : (xs ys : Text) → drop (length xs) (xs ++ ys) ≡ ys
drop-append [] ys = refl
drop-append (x ∷ xs) ys = drop-append xs ys

sub_of-sub_code : (o : Option ℕ) → sub_of (sub_code o) ≡ o
sub_of-sub_code none = refl
sub_of-sub_code (some n) = refl

bit_back : (b : Bool) → (bit b == 1) ≡ b
bit_back true = refl
bit_back false = refl

codec-IsJwt : IsJwt codec
codec-IsJwt = record {
  honours = λ c now iss aud issued live. ground (
    arith,
    take-append c.email c.typ,
    drop-append c.email c.typ,
    sub_of-sub_code c.sub,
    bit_back c.admin_scope,
  );
  expires = λ c now iss aud over. ground arith;
}

current_user-create_access_token_example :
    let (token, ttl) = create_access_token default_settings codec 7000000 1 account in
    (timestamp 9000000 < timestamp 7000000 + ttl
      → current_user codec 9000000 (some token) (account ∷ [])
        ≡ (if true then Access.ok account else Access.refused AppError.invalid_token))
    × (timestamp 7000000 + ttl ≤ timestamp 9000000
        → current_user codec 9000000 (some token) (account ∷ [])
          ≡ Access.refused AppError.invalid_token)
unfolding create_access_token
current_user-create_access_token_example =
    current_user-create_access_token default_settings codec 7000000 9000000 1 account account
      (account ∷ []) codec-IsJwt (omega arith) refl refl

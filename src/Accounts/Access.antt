-- ===== src/Accounts/Access.antt =====
-- The access tokens of app/security/tokens.py and the dependencies of app/deps.py that read them. PyJWT is a parameter: `Jwt`
-- encodes claims under the secret and decodes a token at a time, in seconds.
use Prim.Native.Nat.{◌/◌}
use concurrent_flight_bookin.Prelude.{
  ℕ, ◌+◌, ◌≤◌, ◌<◌, ◌≡◌, refl, Bool, true, Option, none, some, List, [], ◌∷◌, Text, arith, ◌==◌,
  same, same_refl, if◌then◌else◌, first,
}
use concurrent_flight_bookin.Errors.{AppError}
use concurrent_flight_bookin.Config.{Settings, seconds}
use concurrent_flight_bookin.Domain.Models.{User}

-- The claims; `sub` is none where the claim is no UUID.
pub record Claims : Type 0 where
  pub sub : Option ℕ
  pub email : Text
  pub admin_scope : Bool
  pub typ : Text
  pub jti : ℕ
  pub iat : ℕ
  pub exp : ℕ
  pub iss : Text
  pub aud : Text

pub data Decoded : Type 0 where
  valid : Claims → Decoded
  expired invalid : Decoded

pub record Jwt : Type 0 where
  pub encode : Claims → Text
  pub decode : ℕ → Text → Decoded

-- "access", "skylock" and "skylock-api".
abbrev pub access_typ : Text
access_typ = b'a' ∷ b'c' ∷ b'c' ∷ b'e' ∷ b's' ∷ b's' ∷ []

abbrev pub issuer : Text
issuer = b's' ∷ b'k' ∷ b'y' ∷ b'l' ∷ b'o' ∷ b'c' ∷ b'k' ∷ []

abbrev pub audience : Text
audience = b's' ∷ b'k' ∷ b'y' ∷ b'l' ∷ b'o' ∷ b'c' ∷ b'k' ∷ b'-' ∷ b'a' ∷ b'p' ∷ b'i' ∷ []

-- A token of ours is read back until it expires, and is refused as expired from then on.
pub record IsJwt (jwt : Jwt) : Type 0 where
  pub honours :
      (c : Claims) (now : ℕ)
      → c.iss ≡ issuer
      → c.aud ≡ audience
      → c.iat ≤ now
      → now < c.exp
      → jwt.decode now (jwt.encode c) ≡ valid c
  pub expires :
      (c : Claims) (now : ℕ)
      → c.iss ≡ issuer
      → c.aud ≡ audience
      → c.exp ≤ now
      → jwt.decode now (jwt.encode c) ≡ expired

pub data Checked (A : Type 0) : Type 0 where
  ok : A → Checked A
  refused : AppError → Checked A

-- `int(t.timestamp())`
abbrev pub timestamp : ℕ → ℕ
timestamp t = t / 1000000

abbrev pub claims_for : Settings → ℕ → ℕ → User → Claims
claims_for settings now jti u = record {
  sub = some u.id;
  email = u.email;
  admin_scope = u.is_admin;
  typ = access_typ;
  jti = jti;
  iat = timestamp now;
  exp = timestamp (now + seconds settings.access_token_ttl_seconds);
  iss = issuer;
  aud = audience;
}

unfoldable pub create_access_token : Settings → Jwt → ℕ → ℕ → User → Text × ℕ
create_access_token settings jwt now jti u =
    (jwt.encode (claims_for settings now jti u), settings.access_token_ttl_seconds)

unfoldable pub decode_access_token : Jwt → ℕ → Text → Checked Claims
decode_access_token jwt now token = elim (jwt.decode (timestamp now) token) [
  | expired ↦ refused AppError.invalid_token
  | invalid ↦ refused AppError.invalid_token
  | valid c ↦ if same c.typ access_typ then ok c else refused AppError.invalid_token
]

-- `credentials is None or not credentials.credentials`
abbrev pub bearer : Option Text → Option Text
bearer none = none
bearer (some []) = none
bearer (some (c ∷ t)) = some (c ∷ t)

-- The account that the claims name.
abbrev pub user_of : List User → Checked Claims → Checked User
user_of users (refused e) = refused e
user_of users (ok c) = elim c.sub [
  | none ↦ refused AppError.invalid_token
  | some id ↦ elim (first (λ u. u.id == id) users) [
    | none ↦ refused AppError.invalid_token
    | some u ↦ if u.is_active then ok u else refused AppError.invalid_token
  ]
]

unfoldable pub current_user : Jwt → ℕ → Option Text → List User → Checked User
current_user jwt now credentials users = elim (bearer credentials) [
  | none ↦ refused AppError.invalid_token
  | some token ↦ user_of users (decode_access_token jwt now token)
]

unfoldable pub require_admin : User → Checked User
require_admin u = if u.is_admin then ok u else refused AppError.forbidden

same_typ : same access_typ access_typ ≡ true
same_typ = same_refl access_typ

decode-ok :
    (jwt : Jwt) (now : ℕ) (token : Text) (c : Claims)
    → jwt.decode (timestamp now) token ≡ valid c
    → c.typ ≡ access_typ
    → decode_access_token jwt now token ≡ ok c
unfolding decode_access_token
decode-ok jwt now token c e t = rw (e, decode_access_token) (rw t (rw same_typ refl))

decode-expired :
    (jwt : Jwt) (now : ℕ) (token : Text)
    → jwt.decode (timestamp now) token ≡ expired
    → decode_access_token jwt now token ≡ refused AppError.invalid_token
unfolding decode_access_token
decode-expired jwt now token e = rw (e, decode_access_token) refl

-- An access token is good for exactly its time to live: presented before it expires it is answered with the account as it stands in
-- the table, if that is still active, and with InvalidToken if not; from its expiry on with InvalidToken.
pub current_user-create_access_token :
    (settings : Settings) (jwt : Jwt) (now later jti : ℕ) (u stored : User) (users : List User)
    → IsJwt jwt
    → now ≤ later
    → first (λ x. x.id == u.id) users ≡ some stored
    → let (token, ttl) = create_access_token settings jwt now jti u in
      bearer (some token) ≡ some token
      → (timestamp later < timestamp now + ttl
          → current_user jwt later (some token) users
            ≡ (if stored.is_active then ok stored else refused AppError.invalid_token))
        × (timestamp now + ttl ≤ timestamp later
            → current_user jwt later (some token) users ≡ refused AppError.invalid_token)
unfolding create_access_token current_user
current_user-create_access_token settings jwt now later jti u stored users good after known full =
    let c : Claims = claims_for settings now jti u in
    let token : Text = jwt.encode c in
    (
      λ live.
          rw
            (
              full,
              decode-ok jwt later token c
                  (good.honours c (timestamp later) refl refl (omega arith) (omega arith)) refl,
              known,
              user_of,
            )
            refl,
      λ over.
          rw
            (
              full,
              decode-expired jwt later token
                  (good.expires c (timestamp later) refl refl (omega arith)),
            )
            refl,
    )

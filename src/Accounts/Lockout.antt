-- ===== src/Accounts/Lockout.antt =====
-- The lockout bounds the guesses at a password.
use concurrent_flight_bookin.Prelude.{
  ℕ, ◌+◌, ◌≤◌, ◌<◌, ◌≡◌, refl, inl, inr, Bool, true, false, some, List, [], ◌∷◌, Text, arith, leb,
  ◌==◌, if◌then◌else◌, Bool-cases, is_gt, first, update_where, first-holds, lt→ltb, ◌⊎◌, All,
}
use concurrent_flight_bookin.Errors.{AppError}
use concurrent_flight_bookin.Config.{Settings, seconds}
use concurrent_flight_bookin.Domain.Models.{User}
use concurrent_flight_bookin.Accounts.{
  Hasher, Accounts, Auth, AuthDraws, signed_in, refused, has_email, failed_once, login,
  normalize_email,
}

-- One try at an account: when, with what draws, and with which password.
pub record Guess : Type 0 where
  pub at : ℕ
  pub draws : AuthDraws
  pub password : Text

abbrev pub is_invalid : AppError → Bool
is_invalid AppError.invalid_credentials = true
is_invalid _ = false

-- The password was checked, and was wrong.
abbrev pub was_checked : Auth → ℕ
was_checked (refused e) = if is_invalid e then 1 else 0
was_checked (signed_in u h) = 0

-- The row that is saved is found again.
first-saved :
    (email : Text) (u u' : User) (users : List User)
    → first (has_email email) users ≡ some u
    → u'.id ≡ u.id
    → u'.email ≡ u.email
    → first (has_email email) (update_where (λ x. x.id == u'.id) (λ _. u') users) ≡ some u'
first-saved email u u' [] found i e = cc
first-saved email u u' (x ∷ users) found i e =
    ground (arith, first-holds (has_email email) (x ∷ users) u found, first-saved email u u' users)

-- A wrong password, at a time in an interval no longer than a lockout.
pub record IsGuess (settings : Settings) (hasher : Hasher) (h : Text) (start : ℕ) (g : Guess)
    : Type 0 where
  pub from : start ≤ g.at
  pub before : g.at < start + seconds settings.login_lockout_seconds
  pub wrong : hasher.verify h g.password ≡ false

module _ (settings : Settings) (hasher : Hasher) (email : Text) where
  -- How many of the tries have their password checked.
  pub checked : List Guess → Accounts → ℕ
  checked [] a = 0
  checked (g ∷ gs) a =
      let (r, a') = login settings hasher g.at g.draws email g.password a in
      was_checked r + checked gs a'

  abbrev FoundAs : User → Accounts → Type 0
  FoundAs u a = first (has_email (normalize_email email)) a.users ≡ some u

  -- A wrong guess on a locked account is not checked, and leaves the account as it is.
  guess_locked :
      (g : Guess) (u : User) (a : Accounts)
      → FoundAs u a
      → is_gt u.locked_until g.at ≡ true
      → let (r, a') = login settings hasher g.at g.draws email g.password a in
        (was_checked r ≡ 0) × (a'.users ≡ a.users)
  unfolding login
  guess_locked g u a found locked = ground arith

  -- A wrong guess on an account that is not locked is checked, and counted.
  guess_open :
      (g : Guess) (u : User) (a : Accounts)
      → FoundAs u a
      → is_gt u.locked_until g.at ≡ false
      → hasher.verify u.password_hash g.password ≡ false
      → let (r, a') = login settings hasher g.at g.draws email g.password a in
        (was_checked r ≡ 1) × (FoundAs (failed_once settings g.at u) a')
  unfolding login failed_once
  guess_open g u a found open' wrong =
      ground
        (arith, first-saved (normalize_email email) u (failed_once settings g.at u) a.users found)

  checked-locked :
      (start until : ℕ) (u : User) (gs : List Guess) (a : Accounts)
      → FoundAs u a
      → u.locked_until ≡ some until
      → start + seconds settings.login_lockout_seconds ≤ until
      → All (IsGuess settings hasher u.password_hash start) gs
      → checked gs a ≡ 0
  unfolding checked
  checked-locked start until u [] a found l late h = refl
  checked-locked start until u (g ∷ gs) a found l late h =
      let (r, a') = login settings hasher g.at g.draws email g.password a in
      let (none_checked, kept) =
        guess_locked g u a found (rw l (lt→ltb _ _ (omega (arith, h.0.before)))) in
      let rest = checked-locked start until u gs a' (rw kept found) l late h.1 in omega arith

  failed_once_cases :
      (now : ℕ) (u : User)
      → ((failed_once settings now u).locked_until
          ≡ some (now + seconds settings.login_lockout_seconds))
        ⊎ (((failed_once settings now u).failed_login_count ≡ u.failed_login_count + 1)
            × (u.failed_login_count + 1 < settings.login_max_failures))
  unfolding failed_once
  failed_once_cases now u =
      elim (Bool-cases (leb settings.login_max_failures (u.failed_login_count + 1))) [
        | inl e ↦ inl (rw e refl)
        | inr e ↦ inr (rw e refl, ground arith)
      ]

  password_hash-failed_once :
      (now : ℕ) (u : User) → (failed_once settings now u).password_hash ≡ u.password_hash
  unfolding failed_once
  password_hash-failed_once now u = ground arith

  -- When the logins on an account come one after another, each one answered before the next reads the account: in any
  -- stretch of time no longer than a lockout, however many wrong passwords are tried, no more of them are checked than
  -- `login_max_failures` less the failures that the account has already counted.
  pub checked-le :
      (start : ℕ) (u : User) (gs : List Guess) (a : Accounts)
      → first (has_email (normalize_email email)) a.users ≡ some u
      → u.failed_login_count < settings.login_max_failures
      → All (IsGuess settings hasher u.password_hash start) gs
      → checked gs a + u.failed_login_count ≤ settings.login_max_failures
  unfolding checked
  checked-le start u [] a found few h = omega arith
  checked-le start u (g ∷ gs) a found few h =
      let (r, a') = login settings hasher g.at g.draws email g.password a in
      elim (Bool-cases (is_gt u.locked_until g.at)) [
        | inl locked ↦
            let (none_checked, kept) = guess_locked g u a found locked in
            let rest = checked-le start u gs a' (rw kept found) few h.1 in omega arith
        | inr open' ↦
            let (one_checked, found') = guess_open g u a found open' h.0.wrong in
            let u' : User = failed_once settings g.at u in
            let wrong_too : All (IsGuess settings hasher u'.password_hash start) gs =
              rw (password_hash-failed_once g.at u) h.1 in
            elim (failed_once_cases g.at u) [
              | inl l ↦
                  let rest =
                    checked-locked start (g.at + seconds settings.login_lockout_seconds) u' gs a'
                      found' l (omega (arith, h.0.from)) wrong_too in
                  omega arith
              | inr (counted, few') ↦
                  let rest = checked-le start u' gs a' found' (rw counted few') wrong_too in
                  omega arith
            ]
      ]

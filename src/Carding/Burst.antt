-- ===== src/Carding/Burst.antt =====
-- The attempt that follows a burst of declines which ended in an approval: the risk flag is read.
use concurrent_flight_bookin.Prelude.{
  ℕ, ◌≡◌, ◌≢◌, refl, ap, ◌∙◌, Bool, true, false, Option, some, List, [], ◌∷◌, Text, arith, same,
  if◌then◌else◌, leb,
}
use concurrent_flight_bookin.Domain.Enums.{Decision}
use concurrent_flight_bookin.Redis.{Redis, IsUp, Store, Cell, Command, Answer, live, interpret}
use concurrent_flight_bookin.Redis.Touch.{touch_other, touch_pipeline}
use concurrent_flight_bookin.Carding.{Observed, decision, judge, small_amount_ceiling}
use concurrent_flight_bookin.Carding.Windows.{
  Attempt, Try, pure, ◌>>=◌, touch, count, observe, assess_payment_attempt, k_risk, card_validated,
  is_set, has_ip,
}

-- A flagged account is never simply allowed, whatever the counts are.
judge_flagged : (o : Observed) → o.risk_flag ≡ true → decision (judge o) ≢ Decision.allow
unfolding judge
judge_flagged o h = ground arith

abbrev observed : ℕ → ℕ → ℕ → ℕ → ℕ → ℕ → List Answer → Observed
observed cards accounts rapid by_user by_ip small flag = record {
  distinct_cards = cards;
  card_accounts = accounts;
  rapid_bookings = rapid;
  declines_user = by_user;
  declines_ip = by_ip;
  small_count = small;
  risk_flag = is_set flag;
}

pub bind_some :
    {R A B : Type 0} (m : Try R A) (f : A → Try R B) (r : R) (a : A)
    → (m r).0 ≡ some a
    → (m >>= f) r ≡ f a (m r).1
bind_some m f r a e = rw (e, ◌>>=◌) refl

module _ {R : Type 0} (redis : Redis R) (view : R → Store) (up : IsUp redis view) where
  -- A step that ends well and leaves what one key holds.
  record Keeps {A : Type 0} (k : Text) (m : Try R A) : Type 0 where
    apply : (r : R) → (a : A) × ((m r).0 ≡ some a) × (view (m r).1 k ≡ view r k)

  Keeps-pure : {A : Type 0} (k : Text) (a : A) → Keeps k (pure a)
  Keeps-pure k a = record { apply = λ r. (a, refl, refl) }

  Keeps-bind :
      {A B : Type 0} (k : Text) (m : Try R A) (f : A → Try R B)
      → Keeps k m
      → ((a : A) → Keeps k (f a))
      → Keeps k (m >>= f)
  Keeps-bind {A} {B} k m f km kf = record {
    apply = λ r.
        let (a, e, kept) = km.apply r in
        let (b, e', kept') = (kf a).apply (m r).1 in
        let steps = bind_some m f r a e in
        (
          b,
          ap (λ (x : Option B × R). x.0) steps ∙ e',
          ap (λ (x : Option B × R). view x.1 k) steps ∙ (kept' ∙ kept),
        );
  }

  Keeps-if :
      {A : Type 0} (k : Text) (b : Bool) (m n : Try R A)
      → Keeps k m
      → Keeps k n
      → Keeps k (if b then m else n)
  Keeps-if k true m n km kn = km
  Keeps-if k false m n km kn = kn

  -- A pipeline is answered, and a key that none of its commands writes stays as it is.
  execute-Keeps :
      (k : Text) (now : ℕ) (cs : List Command)
      → ((store : Store) → (interpret now cs store).1 k ≡ store k)
      → Keeps k (redis.execute now cs)
  execute-Keeps k now cs other = record {
    apply = λ r. (
      (interpret now cs (view r)).0,
      up.answers now cs r,
      ap (λ (s : Store). s k) (up.effect now cs r) ∙ other (view r),
    );
  }

  touch-Keeps :
      (k key m : Text) (now w : ℕ) → same k key ≡ false → Keeps k (touch redis now key m w)
  unfolding touch
  touch-Keeps k key m now w other =
      Keeps-bind k _ _
        (execute-Keeps k now (touch_pipeline key m now w)
          (λ store. touch_other key m now w store k other))
        (λ as'. Keeps-pure k _)

  count-Keeps : (k key : Text) (now w : ℕ) → same k key ≡ false → Keeps k (count redis now key w)
  unfolding count interpret
  count-Keeps k key now w other =
      Keeps-bind k _ _ (execute-Keeps k now _ (λ store. rw other refl)) (λ as'. Keeps-pure k _)

  -- A step that, while a key holds `c`, ends with a result that meets `P`.
  record Ends {A : Type 0} (k : Text) (c : Cell) (P : A → Type 0) (m : Try R A) : Type 0 where
    apply : (r : R) → view r k ≡ c → (a : A) × ((m r).0 ≡ some a) × P a

  Ends-bind :
      {A B : Type 0} (k : Text) (c : Cell) (P : B → Type 0) (m : Try R A) (f : A → Try R B)
      → Keeps k m
      → ((a : A) → Ends k c P (f a))
      → Ends k c P (m >>= f)
  Ends-bind {A} {B} k c P m f km kf = record {
    apply = λ r holds.
        let (a, e, kept) = km.apply r in
        let (b, e', good) = (kf a).apply (m r).1 (kept ∙ holds) in
        (b, ap (λ (x : Option B × R). x.0) (bind_some m f r a e) ∙ e', good);
  }

  flag-Ends :
      (a : Attempt) (now : ℕ) (c : Cell) (cards accounts rapid by_user by_ip small : ℕ)
      → (live now c).value ≡ some card_validated
      → Ends
          (k_risk a.user_id)
          c
          (λ o. o.risk_flag ≡ true)
          (redis.execute now (Command.get (k_risk a.user_id) ∷ []) >>= λ flag.
            pure (observed cards accounts rapid by_user by_ip small flag))
  unfolding interpret
  flag-Ends a now c cards accounts rapid by_user by_ip small flagged = record {
    apply = λ r holds.
        let cs : List Command = Command.get (k_risk a.user_id) ∷ [] in
        let seen : is_set (interpret now cs (view r)).0 ≡ true = rw holds (rw flagged refl) in
        (
          observed cards accounts rapid by_user by_ip small (interpret now cs (view r)).0,
          ap (λ (x : Option Observed × R). x.0)
              (bind_some (redis.execute now cs)
                (λ flag. pure (observed cards accounts rapid by_user by_ip small flag)) r _
                (up.answers now cs r)),
          seen,
        );
  }

  -- The windows of an attempt are kept under other keys than the risk flag.
  observe_flag :
      (clock : ℕ → ℕ) (drawn drawn' : Text) (a : Attempt) (c : Cell)
      → (live (clock 6) c).value ≡ some card_validated
      → Ends (k_risk a.user_id) c (λ o. o.risk_flag ≡ true) (observe redis clock drawn drawn' a)
  unfolding observe same interpret
  observe_flag clock drawn drawn' a c flagged =
      let k : Text = k_risk a.user_id in
      Ends-bind k c _ _ _ (touch-Keeps k _ _ _ _ refl) λ cards.
        Ends-bind k c _ _ _ (touch-Keeps k _ _ _ _ refl) λ accounts.
          Ends-bind k c _ _ _ (touch-Keeps k _ _ _ _ refl) λ rapid.
            Ends-bind k c _ _ _ (count-Keeps k _ _ _ refl) λ by_user.
              Ends-bind k c _ _ _
                (Keeps-if k (has_ip a.ip) _ _ (count-Keeps k _ _ _ refl) (Keeps-pure k 0))
                λ by_ip.
                  Ends-bind k c _ _ _
                    (Keeps-if k (leb a.amount small_amount_ceiling) _ _ (touch-Keeps k _ _ _ _ refl)
                      (count-Keeps k _ _ _ refl))
                    λ small.
                      flag-Ends a (clock 6) c cards accounts rapid by_user by_ip small flagged

  -- While Redis is up, an attempt on an account whose risk flag is set and has not run out is never simply allowed, however
  -- few cards, bookings and declines the windows have seen.
  pub assess_flagged :
      (clock : ℕ → ℕ) (drawn drawn' : Text) (a : Attempt) (r : R)
      → (live (clock 6) (view r (k_risk a.user_id))).value ≡ some card_validated
      → decision (assess_payment_attempt redis clock drawn drawn' a r).0.0 ≢ Decision.allow
  unfolding assess_payment_attempt
  assess_flagged clock drawn drawn' a r flagged =
      let (o, e, hot) =
        (observe_flag clock drawn drawn' a (view r (k_risk a.user_id)) flagged).apply r refl in
      rw e (judge_flagged o hot)

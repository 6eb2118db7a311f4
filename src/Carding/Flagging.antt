-- ===== src/Carding/Flagging.antt =====
-- A burst of declines that ends in an approval: the risk flag is set.
use mathlib.Core.List.{reverse, map-append}
use concurrent_flight_bookin.Prelude.{
  ℕ, ◌+◌, ◌-◌, ◌*◌, ◌≤◌, ◌<◌, ◌≡◌, ◌≢◌, refl, ap, ◌∙◌, Bool, true, false, Option, none, some, List,
  [], ◌∷◌, ◌++◌, map, Text, arith, same_refl, le→leb, if◌then◌else◌, ◌&&◌, leb, All, delete_none,
  delete_where, count_where,
}
use concurrent_flight_bookin.Domain.Enums.{Decision}
use concurrent_flight_bookin.Domain.Models.{SecurityEvent}
use concurrent_flight_bookin.Redis.{
  Redis, IsUp, Store, Cell, Entry, Command, live, interpret, is_over, place, is_member, in_range,
  removed, number_at,
}
use concurrent_flight_bookin.Redis.Touch.{touched, touch_cell, touch_pipeline, kept_entries}
use concurrent_flight_bookin.Carding.{decision, w_risk_flag, w_outcome_sequence, t_decline_burst}
use concurrent_flight_bookin.Carding.Windows.{
  Attempt, Try, pure, ◌>>=◌, touch, members_of, members_in, record_outcome, record_approval,
  assess_payment_attempt, k_risk, k_outcomes, outcome_member, card_validated, burst_event, but_last,
  trailing_declines, declines_first,
}
use concurrent_flight_bookin.Carding.Burst.{bind_some, assess_flagged}

place_last :
    (e : Entry) (es : List Entry) → All (λ f. f.score < e.score) es → place e es ≡ es ++ e ∷ []
unfolding place
place_last e [] h = refl
place_last e (f ∷ fs) h = ground (arith, place_last e fs h.1)

delete-append :
    (q : Entry → Bool) (es : List Entry) (e : Entry)
    → q e ≡ false
    → delete_where q (es ++ e ∷ []) ≡ delete_where q es ++ e ∷ []
delete-append q [] e h = ground arith
delete-append q (f ∷ fs) e h = ground (arith, delete-append q fs e)

but_last-append : (ms : List Text) (m : Text) → but_last (ms ++ m ∷ []) ≡ ms
unfolding but_last
but_last-append [] m = refl
but_last-append (n ∷ []) m = refl
but_last-append (n ∷ o ∷ ms) m = ap (λ l. n ∷ l) (but_last-append (o ∷ ms) m)

abbrev pub names : List Entry → List Text
names es = map (λ e. e.member) es

-- The declines before the member that comes last.
trailing-append :
    (es : List Entry) (e : Entry)
    → trailing_declines (names (es ++ e ∷ [])) ≡ declines_first (reverse (names es))
unfolding trailing_declines
trailing-append es e =
    ap (λ ms. declines_first (reverse ms))
      (ap but_last (map-append (λ x. x.member) es (e ∷ [])) ∙ but_last-append (names es) e.member)

not_over : (t t' w : ℕ) → t' < t + w * 1000 → is_over t' (some (t + (w + 1) * 1000)) ≡ false
not_over t t' w h = ground arith

in_window : (t t' w : ℕ) → 0 < t → t' < t + w * 1000 → (leb 0 t && leb t (t' - w * 1000)) ≡ false
in_window t t' w pos h = ground arith

-- A later look at a key that was touched: the new member stands last.
touched_later :
    (m : Text) (t t' w : ℕ) (c : Cell)
    → All (λ f. f.score < t) (kept_entries t w c.entries)
    → count_where (is_member m) (kept_entries t w c.entries) ≡ 0
    → 0 < t
    → t' < t + w * 1000
    → kept_entries t' w (live t' (touched m t w c)).entries
      ≡ kept_entries t' w (kept_entries t w c.entries) ++ record { member = m; score = t } ∷ []
touched_later m t t' w c earlier fresh pos soon =
    let es : List Entry = kept_entries t w c.entries in
    rw
      (
        not_over t t' w soon,
        delete_none (is_member m) es fresh,
        place_last (record { member = m; score = t }) es earlier,
      )
      (delete-append (in_range 0 (t' - w * 1000)) es (record { member = m; score = t })
        (in_window t t' w pos soon))

-- A key that was trimmed is found again as it was left.
trim_twice :
    (now w : ℕ) (c : Cell)
    → (live now (removed 0 (now - w * 1000) (live now c))).entries
      ≡ kept_entries now w (live now c).entries
trim_twice now w c = ground arith

module _ {R : Type 0} (redis : Redis R) (view : R → Store) (up : IsUp redis view) where
  touch_view :
      (now : ℕ) (key m : Text) (w : ℕ) (r : R)
      → (n : ℕ) × ((touch redis now key m w r).0 ≡ some n)
        × (view (touch redis now key m w r).1 key ≡ touched m now w (live now (view r key)))
  unfolding touch
  touch_view now key m w r =
      let cs : List Command = touch_pipeline key m now w in
      let st =
        bind_some (redis.execute now cs) (λ results. pure (number_at results 2)) r _
          (up.answers now cs r) in
      (
        number_at (interpret now cs (view r)).0 2,
        ap (λ (x : Option ℕ × R). x.0) st,
        ap (λ (x : Option ℕ × R). view x.1 key) st
            ∙ (ap (λ (s : Store). s key) (up.effect now cs r)
                ∙ (touch_cell key m now w (view r)).0),
      )

  members_view :
      (now : ℕ) (key : Text) (w : ℕ) (r : R)
      → (members_of redis now key w r).0
        ≡ some (names (kept_entries now w (live now (view r key)).entries))
  unfolding members_of interpret
  members_view now key w r =
      let trim : List Command = Command.zremrangebyscore key 0 (now - w * 1000) ∷ [] in
      let r' : R = (redis.execute now trim r).1 in
      let list : List Command = Command.zrange key ∷ [] in
      let trimmed : view r' key ≡ removed 0 (now - w * 1000) (live now (view r key)) =
        ap (λ (s : Store). s key) (up.effect now trim r) ∙ rw (same_refl key) refl in
      let again : (live now (view r' key)).entries
          ≡ kept_entries now w (live now (view r key)).entries =
        rw trimmed (trim_twice now w (view r key)) in
      ap (λ (x : Option (List Text) × R). x.0)
        (bind_some (redis.execute now trim)
            (λ trimmed'. (redis.execute now list >>= λ results. pure (members_in results))) r _
            (up.answers now trim r)
          ∙ bind_some (redis.execute now list) (λ results. pure (members_in results)) r' _
              (up.answers now list r'))
      ∙ ap (λ es. some (names es)) again

  -- What the risk key holds once it is set.
  abbrev flag_cell : ℕ → Cell
  flag_cell now = record {
    entries = [];
    value = some card_validated;
    until = some (now + w_risk_flag * 1000);
  }

  still_set :
      (now set_at : ℕ)
      → now < set_at + w_risk_flag * 1000
      → (live now (flag_cell set_at)).value ≡ some card_validated
  still_set now set_at h = ground arith

  -- The approval's second half, on the members that it reads.
  approval_flags :
      (clock : ℕ → ℕ) (a : Attempt) (r : R) (ms : List Text)
      → (members_of redis (clock 2) (k_outcomes a.user_id) w_outcome_sequence r).0 ≡ some ms
      → t_decline_burst ≤ trailing_declines ms
      → ((record_approval redis clock a r).0 ≡ some (some (burst_event a.user_id)))
        × (view (record_approval redis clock a r).1 (k_risk a.user_id) ≡ flag_cell (clock 3))
  unfolding record_approval interpret
  approval_flags clock a r ms e enough =
      let k : Text = k_risk a.user_id in
      let cs : List Command = Command.set k card_validated w_risk_flag ∷ [] in
      let read : Try R (List Text) =
        members_of redis (clock 2) (k_outcomes a.user_id) w_outcome_sequence in
      let flag : Try R (Option SecurityEvent) =
        (redis.execute (clock 3) cs >>= λ flagged. pure (some (burst_event a.user_id))) in
      let st : record_approval redis clock a r ≡ flag (read r).1 =
        bind_some read
          (λ ms'. if leb t_decline_burst (trailing_declines ms') then flag else pure none) r ms e
        ∙ rw (le→leb _ _ enough) refl in
      let done' =
        bind_some (redis.execute (clock 3) cs) (λ flagged. pure (some (burst_event a.user_id)))
          (read r).1 _ (up.answers (clock 3) cs (read r).1) in
      (
        ap (λ (x : Option (Option SecurityEvent) × R). x.0) (st ∙ done'),
        ap (λ (x : Option (Option SecurityEvent) × R). view x.1 k) (st ∙ done')
            ∙ (ap (λ (s : Store). s k) (up.effect (clock 3) cs (read r).1) ∙ rw (same_refl k) refl),
      )

  -- The outcomes that are in the window when the outcome is added.
  abbrev pub outcomes_at : ℕ → Attempt → R → List Entry
  outcomes_at now a r =
      kept_entries now w_outcome_sequence (live now (view r (k_outcomes a.user_id))).entries

  -- What an approval finds: declines of earlier milliseconds, at least a burst of them last, all in its window.
  pub record AfterBurst (clock : ℕ → ℕ) (a : Attempt) (r : R) : Type 0 where
    pub earlier : All (λ f. f.score < clock 1) (outcomes_at (clock 1) a r)
    pub new_name :
        count_where (is_member (outcome_member (clock 0) true)) (outcomes_at (clock 1) a r) ≡ 0
    pub burst :
        t_decline_burst
        ≤ declines_first (
            reverse (names (kept_entries (clock 2) w_outcome_sequence (outcomes_at (clock 1) a r))))
    pub running : 0 < clock 1
    pub in_order : clock 1 ≤ clock 2
    pub at_once : clock 2 < clock 1 + w_outcome_sequence * 1000

  -- The members that the approval reads are those of the window, and its own last.
  members_read :
      (clock : ℕ → ℕ) (a : Attempt) (r r' : R)
      → AfterBurst clock a r
      → view r' (k_outcomes a.user_id)
        ≡ touched
            (outcome_member (clock 0) true)
            (clock 1)
            w_outcome_sequence
            (live (clock 1) (view r (k_outcomes a.user_id)))
      → (ms : List Text) × ((members_of redis
            (clock 2)
            (k_outcomes a.user_id)
            w_outcome_sequence
            r').0
          ≡ some ms)
        × (t_decline_burst ≤ trailing_declines ms)
  members_read clock a r r' h touched' =
      let m : Text = outcome_member (clock 0) true in
      let es : List Entry = kept_entries (clock 2) w_outcome_sequence (outcomes_at (clock 1) a r) in
      let found =
        members_view (clock 2) (k_outcomes a.user_id) w_outcome_sequence r'
        ∙ ap
            (λ c.
              some (names (kept_entries (clock 2) w_outcome_sequence (live (clock 2) c).entries)))
            touched'
        ∙ ap (λ l. some (names l))
            (touched_later m (clock 1) (clock 2) w_outcome_sequence
              (live (clock 1) (view r (k_outcomes a.user_id))) h.earlier h.new_name h.running
              h.at_once) in
      (
        names (es ++ record { member = m; score = clock 1 } ∷ []),
        found,
        rw (trailing-append es (record { member = m; score = clock 1 })) h.burst,
      )

  -- While Redis is up: when an account's approval comes after a burst of declines (at least three last in its window, in
  -- earlier milliseconds), `record_outcome` reports it and flags the account; and until the flag runs out, half an hour
  -- later, no attempt on the account is simply allowed, the first one or any later one, whatever Redis holds by then, as
  -- long as the cell of the flag is still as `record_outcome` left it.
  pub burst-attempt :
      (clock later : ℕ → ℕ) (drawn drawn' : Text) (a b : Attempt) (r r₂ : R)
      → AfterBurst clock a r
      → b.user_id ≡ a.user_id
      → view r₂ (k_risk b.user_id)
        ≡ view (record_outcome redis clock drawn drawn' a true r).1 (k_risk b.user_id)
      → later 6 < clock 3 + w_risk_flag * 1000
      → let (e, r') = record_outcome redis clock drawn drawn' a true r in
        (e ≡ some (some (burst_event a.user_id)))
        × (decision (assess_payment_attempt redis later drawn drawn' b r₂).0.0 ≢ Decision.allow)
  unfolding record_outcome
  burst-attempt clock later drawn drawn' a b r r₂ h who still soon =
      let m : Text = outcome_member (clock 0) true in
      let k : Text = k_outcomes a.user_id in
      let first : Try R ℕ = touch redis (clock 1) k m w_outcome_sequence in
      let (n, touched', cell) = touch_view (clock 1) k m w_outcome_sequence r in
      let (ms, read, enough) = members_read clock a r (first r).1 h cell in
      let (reported, flagged) = approval_flags clock a (first r).1 ms read enough in
      let st : record_outcome redis clock drawn drawn' a true r
          ≡ record_approval redis clock a (first r).1 =
        bind_some first (λ _. record_approval redis clock a) r n touched' in
      let hot : (live (later 6) (view r₂ (k_risk b.user_id))).value ≡ some card_validated =
        rw
          (
            still,
            who,
            ap (λ (x : Option (Option SecurityEvent) × R). view x.1 (k_risk a.user_id)) st,
            flagged,
          )
          (still_set (later 6) (clock 3) soon) in
      (
        ap (λ (x : Option (Option SecurityEvent) × R). x.0) st ∙ reported,
        assess_flagged redis view up later drawn drawn' b r₂ hot,
      )

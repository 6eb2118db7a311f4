-- ===== src/RateLimit/Sliding.antt =====
-- What the limiter decides: for one subject, whose key is fresh, a request is refused exactly when more than `max_requests`
-- requests, refused ones and itself included, fall in the window that ends with it.
use concurrent_flight_bookin.Prelude.{
  ℕ, suc, ◌+◌, ◌*◌, ◌≤◌, ◌<◌, ◌≡◌, refl, ◌∙◌, Bool, true, false, Option, none, some, List, [], ◌∷◌,
  Text, arith, ltb, if◌then◌else◌, length, count_where, delete_where, Bool-cases, Option-cases, ap,
  sym, inl, inr, All, All-map, delete_none, count-delete_where, count-delete_where_le,
}
use concurrent_flight_bookin.Errors.{Exc, AppError}
use concurrent_flight_bookin.Config.{Settings}
use concurrent_flight_bookin.Redis.{
  Redis, IsUp, Store, Cell, Entry, Command, live, place, is_member, in_range, empty_cell, is_over,
}
use concurrent_flight_bookin.Redis.Touch.{touched, touch_cell}
use concurrent_flight_bookin.RateLimit.{
  Limit, limit_key, request_member, cutoff, limit_pipeline, check_limit,
}

pub count-place :
    (p : Entry → Bool) (e : Entry) (es : List Entry)
    → count_where p (place e es) ≡ count_where p (e ∷ es)
unfolding place
count-place p e [] = refl
count-place p e (f ∷ fs) = ground (arith, count-place p e fs)

-- A request: when it came, and what was drawn for its member.
pub record Visit : Type 0 where
  pub at : ℕ
  pub drawn : Text

abbrev pub entry_of : Visit → Entry
entry_of v = record { member = request_member v.at v.drawn; score = v.at }

-- The window that ends at `now`.
abbrev pub in_window : Limit → ℕ → Entry → Bool
in_window limit now e = ltb (cutoff limit now) e.score

-- What the limiter is to decide, by the log of all requests so far, the newest first.
abbrev pub verdict : Limit → List Entry → ℕ → Option Exc
verdict limit log now =
    if ltb limit.max_requests (count_where (in_window limit now) log)
    then some (Exc.app AppError.rate_limited)
    else none

abbrev pub after : Limit → Visit → Cell → Cell
after limit v c = touched (request_member v.at v.drawn) v.at limit.window_seconds c

-- What the key's entries keep of the log of all requests of its subject: all that is in the window.
record IsRecent (limit : Limit) (now : ℕ) (log : List Entry) (es : List Entry) : Type 0 where
  fewer : (p : Entry → Bool) → count_where p es ≤ count_where p log
  recent :
      (p : Entry → Bool)
      → ((e : Entry) → p e ≡ true → in_window limit now e ≡ true)
      → count_where p es ≡ count_where p log
  past : All (λ e. e.score ≤ now) log

-- The key outlives the window.
abbrev Lasting : Limit → ℕ → Cell → Type 0
Lasting limit last c = (u : ℕ) → c.until ≡ some u → last + limit.window_seconds * 1000 < u

-- A later window holds nothing of a log that ended a window ago.
old-none :
    (limit : Limit) (last now : ℕ) (p : Entry → Bool) (log : List Entry)
    → last + limit.window_seconds * 1000 < now
    → ((e : Entry) → p e ≡ true → in_window limit now e ≡ true)
    → All (λ e. e.score ≤ last) log
    → count_where p log ≡ 0
old-none limit last now p [] gap inside past = refl
old-none limit last now p (e ∷ log) gap inside past =
    ground (arith, inside e, old-none limit last now p log gap inside past.1)

over_gap :
    (limit : Limit) (last now : ℕ) (c : Cell)
    → Lasting limit last c
    → is_over now c.until ≡ true
    → last + limit.window_seconds * 1000 < now
over_gap limit last now c lasts over = elim (Option-cases c.until) [
  | inl e ↦ cc (ap (is_over now) e)
  | inr (u, e) ↦ ground (arith, lasts u)
]

in_window_before :
    (limit : Limit) (last now : ℕ) (e : Entry)
    → last ≤ now
    → in_window limit now e ≡ true
    → in_window limit last e ≡ true
in_window_before limit last now e later h = ground arith

-- What a command finds is as good as what is stored, at a later time.
live-IsRecent :
    (limit : Limit) (last now : ℕ) (log : List Entry) (c : Cell)
    → last ≤ now
    → IsRecent limit last log c.entries
    → Lasting limit last c
    → IsRecent limit now log (live now c).entries
live-IsRecent limit last now log c later h lasts = elim (Bool-cases (is_over now c.until)) [
  | inl over ↦ rw over (record {
    fewer = λ p. omega arith;
    recent = λ p inside.
        sym (old-none limit last now p log (over_gap limit last now c lasts over) inside h.past);
    past = All-map _ _ log (λ e b. omega arith) h.past;
  })
  | inr still ↦ rw still (record {
    fewer = h.fewer;
    recent = λ p inside. h.recent p (λ e b. in_window_before limit last now e later (inside e b));
    past = All-map _ _ log (λ e b. omega arith) h.past;
  })
]

not_in_range :
    (limit : Limit) (now : ℕ) (e : Entry)
    → in_window limit now e ≡ true
    → in_range 0 (cutoff limit now) e ≡ false
not_in_range limit now e h = ground arith

-- What the pipeline keeps is in the window.
length-kept :
    (limit : Limit) (now : ℕ) (es : List Entry)
    → let kept = delete_where (in_range 0 (cutoff limit now)) es in
      length kept ≡ count_where (in_window limit now) kept
length-kept limit now [] = refl
length-kept limit now (e ∷ es) = ground (arith, length-kept limit now es)

length-place : (e : Entry) (es : List Entry) → length (place e es) ≡ suc (length es)
unfolding place
length-place e [] = refl
length-place e (f ∷ fs) = ground (arith, length-place e fs)

-- One more request, under a name that is new.
module _ (limit : Limit) (v : Visit) (log : List Entry) (c : Cell)
    (fresh : count_where (is_member (request_member v.at v.drawn)) log ≡ 0)
    (h : IsRecent limit v.at log c.entries) where
  abbrev kept : List Entry
  kept = delete_where (in_range 0 (cutoff limit v.at)) c.entries

  after_entries : (after limit v c).entries ≡ place (entry_of v) kept
  after_entries =
      let m : (Entry → Bool) = is_member (request_member v.at v.drawn) in
      rw
        (delete_none m kept (
          omega
            (arith, count-delete_where_le m (in_range 0 (cutoff limit v.at)) c.entries, h.fewer m)))
        refl

  after-IsRecent : IsRecent limit v.at (entry_of v ∷ log) (after limit v c).entries
  after-IsRecent =
      let q : (Entry → Bool) = in_range 0 (cutoff limit v.at) in
      rw after_entries (record {
        fewer = λ p.
            rw (count-place p (entry_of v) kept)
              (ground (arith, count-delete_where_le p q c.entries, h.fewer p));
        recent = λ p inside.
            rw
              (
                count-place p (entry_of v) kept,
                count-delete_where p q c.entries (λ e b. not_in_range limit v.at e (inside e b)),
                h.recent p inside,
              )
              refl;
        past = (omega arith, h.past);
      })

  -- The count that the pipeline answers is that of the requests in the window.
  after_count :
      0 < limit.window_seconds
      → limit.window_seconds * 1000 ≤ v.at
      → length (after limit v c).entries ≡ count_where (in_window limit v.at) (entry_of v ∷ log)
  after_count wide running =
      let counted = after-IsRecent.recent (in_window limit v.at) (λ e b. b) in
      rw
        (
          ← counted,
          after_entries,
          length-place (entry_of v) kept,
          length-kept limit v.at c.entries,
          count-place (in_window limit v.at) (entry_of v) kept,
        )
        (ground arith)

after-Lasting : (limit : Limit) (v : Visit) (c : Cell) → Lasting limit v.at (after limit v c)
after-Lasting limit v c u e = ground arith

-- The verdicts on requests that come one after another, the last log first.
abbrev pub verdicts : Limit → List Entry → List Visit → List (Option Exc)
verdicts limit log [] = []
verdicts limit log (v ∷ vs) =
    verdict limit (entry_of v ∷ log) v.at ∷ verdicts limit (entry_of v ∷ log) vs

-- Requests whose times do not fall, after the first window of the clock, and whose members have names of their own.
abbrev pub Orderly : Limit → ℕ → List Entry → List Visit → Type 0
Orderly limit last log [] = Unit
Orderly limit last log (v ∷ vs) =
    (last ≤ v.at)
    × (limit.window_seconds * 1000 ≤ v.at)
    × (count_where (is_member (request_member v.at v.drawn)) log ≡ 0)
    × Orderly limit v.at (entry_of v ∷ log) vs

module _ {R : Type 0} (redis : Redis R) where
  -- One subject's requests under one limit, in their order.
  pub check_all : Settings → Limit → Text → List Visit → R → List (Option Exc)
  check_all settings limit subject [] r = []
  check_all settings limit subject (v ∷ vs) r =
      let (e, r') = check_limit redis settings limit subject v.at v.drawn r in
      e ∷ check_all settings limit subject vs r'

module _ {R : Type 0} (redis : Redis R) (view : R → Store) (up : IsUp redis view)
    (settings : Settings) (enabled : settings.rate_limit_enabled ≡ true) (limit : Limit)
    (wide : 0 < limit.window_seconds) (subject : Text) where
  abbrev held : R → Cell
  held r = view r (limit_key limit subject)

  step :
      (v : Visit) (r : R)
      → let (e, r') = check_limit redis settings limit subject v.at v.drawn r in
        let c = after limit v (live v.at (held r)) in
        (held r' ≡ c)
        × (e ≡ (
            if ltb limit.max_requests (length c.entries)
            then some (Exc.app AppError.rate_limited)
            else none))
  unfolding check_limit
  step v r =
      let key : Text = limit_key limit subject in
      let cs : List Command = limit_pipeline limit key v.at v.drawn in
      let sent = touch_cell key (request_member v.at v.drawn) v.at limit.window_seconds (view r) in
      rw (enabled, up.answers v.at cs r)
        (ap (λ (s : Store). s key) (up.effect v.at cs r) ∙ sent.0, rw sent.1 refl)

  logged-verdicts :
      (last : ℕ) (log : List Entry) (vs : List Visit) (r : R)
      → Orderly limit last log vs
      → IsRecent limit last log (held r).entries
      → Lasting limit last (held r)
      → check_all redis settings limit subject vs r ≡ verdicts limit log vs
  unfolding check_all
  logged-verdicts last log [] r h good lasts = refl
  logged-verdicts last log (v ∷ vs) r h good lasts =
      let r' : R = (check_limit redis settings limit subject v.at v.drawn r).1 in
      let found = live-IsRecent limit last v.at log (held r) h.0 good lasts in
      let kept = after-IsRecent limit v log (live v.at (held r)) h.2 found in
      let (moved, answer) = step v r in
      let decided : (check_limit redis settings limit subject v.at v.drawn r).0
          ≡ verdict limit (entry_of v ∷ log) v.at =
        answer
        ∙ ap (λ n. if ltb limit.max_requests n then some (Exc.app AppError.rate_limited) else none)
            (after_count limit v log (live v.at (held r)) h.2 found wide h.1) in
      let rest : check_all redis settings limit subject vs r'
          ≡ verdicts limit (entry_of v ∷ log) vs =
        logged-verdicts v.at (entry_of v ∷ log) vs r' h.3 (rw moved kept)
          (rw moved (after-Lasting limit v (live v.at (held r)))) in
      cc

  -- While Redis is up and the limiter is enabled, from a key that holds nothing, the requests of one subject are answered
  -- exactly as their log decides: a request raises RateLimited when more than `max_requests` requests of the subject,
  -- those that were refused and itself included, came after the time that lies `window_seconds` before it, and else it
  -- goes through; neither the trimming of the set nor the expiry of its key changes an answer.
  pub check_all-verdicts :
      (vs : List Visit) (r : R)
      → Orderly limit 0 [] vs
      → view r (limit_key limit subject) ≡ empty_cell
      → check_all redis settings limit subject vs r ≡ verdicts limit [] vs
  check_all-verdicts vs r h e =
      logged-verdicts 0 [] vs r h
        (rw e (record { fewer = λ p. omega arith; recent = λ p inside. refl; past = tt }))
        (rw e (λ u gone. cc))

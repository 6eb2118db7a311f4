-- ===== src/Redis.antt =====
-- The Redis that app/redis_client.py connects to, as app/security uses it. The server is not of the repository: `execute`, a
-- pipeline of commands (MULTI/EXEC), is a parameter, and `IsUp` says that it is reachable and does what its documentation
-- says of these commands. Times are in milliseconds; the server and the service read one clock.

pub mod Decimal
pub mod Touch
use concurrent_flight_bookin.Prelude.{
  refl, arith, same_refl, zero, suc, ℕ, ◌+◌, ◌*◌, ◌≡◌, Bool, true, false, not, ◌&&◌, ◌||◌, Option,
  none, some, List, [], ◌∷◌, map, Text, ◌==◌, ltb, leb, same, if◌then◌else◌, length, count_where,
  delete_where,
}

-- A member of a sorted set.
pub record Entry : Type 0 where
  pub member : Text
  pub score : ℕ

pub data Command : Type 0 where
  zremrangebyscore : Text → ℕ → ℕ → Command
  zadd : Text → Text → ℕ → Command
  zcard : Text → Command
  zrange : Text → Command
  expire : Text → ℕ → Command
  get : Text → Command
  set : Text → Text → ℕ → Command

pub data Answer : Type 0 where
  number : ℕ → Answer
  members : List Text → Answer
  nil : Answer
  text : Text → Answer

-- What a key holds, and the time from which it is gone, if it has one.
pub record Cell : Type 0 where
  pub entries : List Entry
  pub value : Option Text
  pub until : Option ℕ

abbrev pub Store : Type 0
Store = Text → Cell

abbrev pub empty_cell : Cell
empty_cell = record { entries = []; value = none; until = none }

abbrev pub is_over : ℕ → Option ℕ → Bool
is_over at none = false
is_over at (some u) = leb u at

-- The key as a command finds it.
abbrev pub live : ℕ → Cell → Cell
live at c = if is_over at c.until then empty_cell else c

-- Members are ordered by score, and by their bytes where scores are equal.
unfoldable pub text_lt : Text → Text → Bool
text_lt s [] = false
text_lt [] (b ∷ t) = true
text_lt (a ∷ s) (b ∷ t) = ltb a b || (a == b && text_lt s t)

abbrev pub entry_lt : Entry → Entry → Bool
entry_lt e f = ltb e.score f.score || (e.score == f.score && text_lt e.member f.member)

unfoldable pub place : Entry → List Entry → List Entry
place e [] = e ∷ []
place e (f ∷ fs) = let rest = place e fs in if entry_lt e f then e ∷ f ∷ fs else f ∷ rest

abbrev pub in_range : ℕ → ℕ → Entry → Bool
in_range lo hi e = leb lo e.score && leb e.score hi

abbrev pub is_member : Text → Entry → Bool
is_member m e = same e.member m

abbrev pub put : Text → Cell → Store → Store
put key c store k = if same k key then c else store k

-- A set that becomes empty loses its key and its expiry; here it keeps the expiry, which no command can tell, since every
-- pipeline that adds a member sets the expiry again.
abbrev pub removed : ℕ → ℕ → Cell → Cell
removed lo hi c = record c { entries = delete_where (in_range lo hi) c.entries }

abbrev pub added : Text → ℕ → Cell → Cell
added m score c = record c {
  entries = place (record { member = m; score = score }) (delete_where (is_member m) c.entries);
}

abbrev pub value_answer : Option Text → Answer
value_answer none = nil
value_answer (some v) = text v

-- The documented effect of a command at a time.
unfoldable pub interpret_one : ℕ → Command → Store → Answer × Store
interpret_one at (zremrangebyscore key lo hi) store =
    let c = live at (store key) in
    (number (count_where (in_range lo hi) c.entries), put key (removed lo hi c) store)
interpret_one at (zadd key m score) store =
    let c = live at (store key) in
    (
      number (if count_where (is_member m) c.entries == 0 then 1 else 0),
      put key (added m score c) store,
    )
interpret_one at (zcard key) store = (number (length (live at (store key)).entries), store)
interpret_one at (zrange key) store =
    (members (map (λ e. e.member) (live at (store key)).entries), store)
interpret_one at (expire key seconds) store =
    let c = live at (store key) in
    (number 1, put key (record c { until = some (at + seconds * 1000) }) store)
interpret_one at (get key) store = (value_answer (live at (store key)).value, store)
interpret_one at (set key v seconds) store = (
  text (b'O' ∷ b'K' ∷ []),
  put key (record { entries = []; value = some v; until = some (at + seconds * 1000) }) store,
)

unfoldable pub interpret : ℕ → List Command → Store → List Answer × Store
unfolding interpret_one
interpret at [] store = ([], store)
interpret at (c ∷ cs) store =
    let (a, store') = interpret_one at c store in
    let (as', store'') = interpret at cs store' in (a ∷ as', store'')

-- A client: `none` is an exception of the pipeline.
pub record Redis (R : Type 0) : Type 0 where
  pub execute : ℕ → List Command → R → Option (List Answer) × R

-- The server is reachable, and does what is documented; `view` is what it stores.
pub record IsUp {R : Type 0} (redis : Redis R) (view : R → Store) : Type 0 where
  pub answers :
      (at : ℕ) (cs : List Command) (r : R)
      → (redis.execute at cs r).0 ≡ some (interpret at cs (view r)).0
  pub effect :
      (at : ℕ) (cs : List Command) (r : R)
      → view (redis.execute at cs r).1 ≡ (interpret at cs (view r)).1

-- `int(results[i])`
abbrev pub number_at : List Answer → ℕ → ℕ
number_at [] i = 0
number_at (number n ∷ as') zero = n
number_at (members _ ∷ as') zero = 0
number_at (nil ∷ as') zero = 0
number_at (text _ ∷ as') zero = 0
number_at (a ∷ as') (suc i) = number_at as' i

-- A server that meets the hypotheses.
abbrev pub reference_redis : Redis Store
reference_redis = record {
  execute = λ at cs r. let (as', r') = interpret at cs r in (some as', r');
}

pub reference_redis-IsUp : IsUp reference_redis (λ r. r)
reference_redis-IsUp = record { answers = λ at cs r. refl; effect = λ at cs r. refl }

-- A key that a command has found is found again as it was.
pub live_twice : (at : ℕ) (c : Cell) → live at (live at c) ≡ live at c
live_twice at c = ground arith

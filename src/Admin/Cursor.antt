-- ===== src/Admin/Cursor.antt =====
-- Reading the log by its cursor, while it grows.
use concurrent_flight_bookin.Prelude.{
  ℕ, zero, suc, ◌+◌, ◌<◌, ◌≡◌, ◌≢◌, refl, sym, ap, ◌∙◌, inl, inr, Bool, true, false, ◌&&◌, Option,
  none, some, List, [], ◌∷◌, ◌++◌, arith, ltb, if◌then◌else◌, length, take, drop, select, All,
  All-map, Bool-cases, Option-cases, take-drop, take_all, ltb-le, length-drop,
}
use concurrent_flight_bookin.Admin.{
  LoggedEvent, EventQuery, matches, cursor_filter, last_id, list_security_events,
}

-- Newest first, by a serial id that starts at 1.
abbrev pub IsDescending : List LoggedEvent → Type 0
IsDescending [] = Unit
IsDescending (r ∷ rs) = (0 < r.id) × All (λ s. s.id < r.id) rs × IsDescending rs

-- Rows past a page: those below the id of its last row.
last_of_take :
    (P : ℕ → Type 0) (n : ℕ) (rs : List LoggedEvent) (c : ℕ)
    → All (λ r. P r.id) rs
    → last_id (take n rs) ≡ some c
    → P c
last_of_take P zero rs c h e = cc
last_of_take P (suc n) [] c h e = cc
last_of_take P (suc zero) (r ∷ rs) c h e = let i : r.id ≡ c = ground arith in rw i at h.0
last_of_take P (suc (suc n)) (r ∷ []) c h e = let i : r.id ≡ c = ground arith in rw i at h.0
last_of_take P (suc (suc n)) (r ∷ s ∷ rs) c h e = last_of_take P (suc n) (s ∷ rs) c h.1 e

select_every :
    (p : LoggedEvent → Bool) (rs : List LoggedEvent) → All (λ r. p r ≡ true) rs → select p rs ≡ rs
select_every p [] h = refl
select_every p (r ∷ rs) h = ground (arith, select_every p rs h.1)

select_past :
    (n : ℕ) (rs : List LoggedEvent) (c : ℕ)
    → IsDescending rs
    → last_id (take n rs) ≡ some c
    → select (λ r. ltb r.id c) rs ≡ drop n rs
select_past zero rs c h e = cc
select_past (suc n) [] c h e = cc
select_past (suc zero) (r ∷ rs) c h e =
    let i : r.id ≡ c = ground arith in
    let rest =
      select_every (λ s. ltb s.id c) rs
        (All-map (λ (s : LoggedEvent). s.id < r.id) _ rs (λ s k. ground arith) h.1) in
    ground (arith, rest)
select_past (suc (suc n)) (r ∷ []) c h e = ground arith
select_past (suc (suc n)) (r ∷ s ∷ rs) c h e =
    let older : c < r.id = last_of_take (λ i. i < r.id) (suc n) (s ∷ rs) c h.1 e in
    let rest = select_past (suc n) (s ∷ rs) c h.2 e in ground (arith, rest)

select-select :
    (p q : LoggedEvent → Bool) (rs : List LoggedEvent)
    → select p (select q rs) ≡ select (λ r. q r && p r) rs
select-select p q [] = refl
select-select p q (r ∷ rs) = ground (arith, select-select p q rs)

select_same :
    (p q : LoggedEvent → Bool) (rs : List LoggedEvent)
    → ((r : LoggedEvent) → p r ≡ q r)
    → select p rs ≡ select q rs
select_same p q [] h = refl
select_same p q (r ∷ rs) h = ground (arith, h r, select_same p q rs h)

All-of_select :
    (P : LoggedEvent → Type 0) (q : LoggedEvent → Bool) (rs : List LoggedEvent)
    → All P rs
    → All P (select q rs)
All-of_select P q [] h = tt
All-of_select P q (r ∷ rs) h = ground (arith, All-of_select P q rs h.1)

select-IsDescending :
    (q : LoggedEvent → Bool) (rs : List LoggedEvent) → IsDescending rs → IsDescending (select q rs)
select-IsDescending q [] h = tt
select-IsDescending q (r ∷ rs) h = elim (Bool-cases (q r)) [
  | inl kept ↦
      rw kept (h.0, All-of_select (λ s. s.id < r.id) q rs h.1, select-IsDescending q rs h.2)
  | inr dropped ↦ rw dropped (select-IsDescending q rs h.2)
]

select-append :
    (p : LoggedEvent → Bool) (rs ts : List LoggedEvent)
    → All (λ r. p r ≡ false) rs
    → select p (rs ++ ts) ≡ select p ts
select-append p [] ts h = refl
select-append p (r ∷ rs) ts h = ground (arith, select-append p rs ts h.1)

-- New rows are above each old one.
appended-above :
    (rs ts : List LoggedEvent) → IsDescending (rs ++ ts) → All (λ t. All (λ r. t.id < r.id) rs) ts
appended-above [] ts h = All_tt ts
  where
    All_tt : (xs : List LoggedEvent) → All (λ t. Unit {0}) xs
    All_tt [] = tt
    All_tt (x ∷ xs) = (tt, All_tt xs)
appended-above (r ∷ rs) ts h = both ts (below ts rs h.1) (appended-above rs ts h.2)
  where
    below :
        (xs ys : List LoggedEvent) → All (λ s. s.id < r.id) (ys ++ xs) → All (λ s. s.id < r.id) xs
    below xs [] k = k
    below xs (y ∷ ys) k = below xs ys k.1

    both :
        (xs : List LoggedEvent)
        → All (λ s. s.id < r.id) xs
        → All (λ t. All (λ r'. t.id < r'.id) rs) xs
        → All (λ t. All (λ r'. t.id < r'.id) (r ∷ rs)) xs
    both [] a b = tt
    both (x ∷ xs) a b = ((a.0, b.0), both xs a.1 b.1)

-- A page is read with one row more, that tells whether there is another page.
take-take-suc : (n : ℕ) (rs : List LoggedEvent) → take n (take (suc n) rs) ≡ take n rs
take-take-suc zero rs = refl
take-take-suc (suc n) [] = refl
take-take-suc (suc n) (r ∷ rs) = ap (λ l. r ∷ l) (take-take-suc n rs)

length-take-suc :
    (n : ℕ) (rs : List LoggedEvent) → ltb n (length (take (suc n) rs)) ≡ ltb n (length rs)
length-take-suc zero [] = refl
length-take-suc zero (r ∷ rs) = ground arith
length-take-suc (suc n) [] = refl
length-take-suc (suc n) (r ∷ rs) = ground (arith, length-take-suc n rs)

last_id-take : (n : ℕ) (rs : List LoggedEvent) → 0 < n → 0 < length rs → last_id (take n rs) ≢ none
last_id-take zero rs h k e = absurd (omega arith)
last_id-take (suc n) [] h k e = absurd (omega arith)
last_id-take (suc zero) (r ∷ rs) h k e = cc
last_id-take (suc (suc n)) (r ∷ []) h k e = cc
last_id-take (suc (suc n)) (r ∷ s ∷ rs) h k e =
    last_id-take (suc n) (s ∷ rs) (omega arith) (omega arith) e

-- The next cursor alone decides: what it lets pass, the one before let pass.
next_filter :
    (m : Bool) (cursor : Option ℕ) (c i : ℕ)
    → 0 < c
    → cursor_filter cursor c ≡ true
    → (m && cursor_filter (some c) i) ≡ ((m && cursor_filter cursor i) && ltb i c)
next_filter m none c i positive reached = ground arith
next_filter m (some d) c i positive reached = ground arith

newer_filter : (m : Bool) (c i : ℕ) → 0 < c → c < i → (m && cursor_filter (some c) i) ≡ false
newer_filter m c i positive h = ground arith

module _ (q : EventQuery) (limit : ℕ) (tables appended : ℕ → List LoggedEvent) where
  -- A client that goes on with the cursor it is given; `tables k` is the log as the k-th query reads it.
  pub read_log : ℕ → ℕ → Option ℕ → List LoggedEvent
  read_log zero k cursor = []
  read_log (suc fuel) k cursor =
      let p = list_security_events q cursor limit (tables k) in
      let rest = read_log fuel (suc k) p.next_cursor in
      if p.has_more then p.items ++ rest else p.items

  -- What a query at that moment would show without a limit.
  abbrev left : ℕ → Option ℕ → List LoggedEvent
  left k cursor = select (λ r. matches q r && cursor_filter cursor r.id) (tables k)

  abbrev pub Grows : Type 0
  Grows = (k : ℕ) → (tables (suc k) ≡ appended k ++ tables k) × IsDescending (tables k)

  left-next :
      (k : ℕ) (cursor : Option ℕ) (c : ℕ)
      → Grows
      → last_id (take limit (left k cursor)) ≡ some c
      → left (suc k) (some c) ≡ drop limit (left k cursor)
  left-next k cursor c grows e =
      let shown : LoggedEvent → Bool = λ r. matches q r && cursor_filter cursor r.id in
      let positive : 0 < c =
        last_of_take (λ i. 0 < i) limit (left k cursor) c
          (All-of_select (λ r. 0 < r.id) shown (tables k) (All-positive (tables k) (grows k).1))
          e in
      let reached : cursor_filter cursor c ≡ true =
        last_of_take (λ i. cursor_filter cursor i ≡ true) limit (left k cursor) c
          (All-shown cursor (tables k)) e in
      let above : All (λ r. c < r.id) (appended k) =
        last_of_take (λ i. All (λ r. i < r.id) (appended k)) limit (left k cursor) c
          (All-of_select (λ t. All (λ r. t.id < r.id) (appended k)) shown (tables k)
            (appended-above (appended k) (tables k) (rw (← (grows k).0) (grows (suc k)).1)))
          e in
      rw ((grows k).0) (
        select-append (λ r. matches q r && cursor_filter (some c) r.id) (appended k) (tables k)
          (All-map (λ r. c < r.id) _ (appended k)
            (λ r h. newer_filter (matches q r) c r.id positive h) above)
        ∙ select_same _ _ (tables k) (λ r. next_filter (matches q r) cursor c r.id positive reached)
        ∙ sym (select-select (λ r. ltb r.id c) shown (tables k))
        ∙ select_past limit (left k cursor) c (select-IsDescending shown (tables k) (grows k).1) e)
    where
      All-positive : (rs : List LoggedEvent) → IsDescending rs → All (λ r. 0 < r.id) rs
      All-positive [] h = tt
      All-positive (r ∷ rs) h = (h.0, All-positive rs h.2)

      All-shown :
          (cur : Option ℕ) (rs : List LoggedEvent)
          → All
              (λ r. cursor_filter cur r.id ≡ true)
              (select (λ r. matches q r && cursor_filter cur r.id) rs)
      All-shown cur [] = tt
      All-shown cur (r ∷ rs) = ground (arith, All-shown cur rs)

  read_log-left :
      (fuel k : ℕ) (cursor : Option ℕ)
      → Grows
      → 0 < limit
      → length (left k cursor) < fuel
      → read_log fuel k cursor ≡ left k cursor
  unfolding read_log list_security_events
  read_log-left zero k cursor grows some_rows enough = absurd (omega arith)
  read_log-left (suc fuel) k cursor grows some_rows enough =
      let rows : List LoggedEvent = left k cursor in
      let one_more : limit + 1 ≡ suc limit = omega arith in
      let more_of = length-take-suc limit rows in
      let items = take-take-suc limit rows in
      elim (Bool-cases (ltb limit (length rows))) [
        | inr last ↦ rw (one_more, more_of, last, items) (take_all limit rows (ltb-le _ _ last))
        | inl more ↦ elim (Option-cases (last_id (take limit rows))) [
          | inl missing ↦ absurd (last_id-take limit rows some_rows (ground arith) missing)
          | inr (c, e) ↦
              (let next : left (suc k) (some c) ≡ drop limit rows = left-next k cursor c grows e in
                let rest : read_log fuel (suc k) (some c) ≡ drop limit rows =
                  read_log-left fuel (suc k) (some c) grows some_rows
                    (rw next (ground (arith, length-drop limit rows)))
                  ∙ next in
                rw (one_more, more_of, more, items, e, rest) (take-drop limit rows))
        ]
      ]

  -- A client that reads the log by its cursor until there is no more gets each event that matched when it began exactly
  -- once, newest first, and no other, however many events are logged between its queries. Ids are serial and start at 1,
  -- and a page has room for a row.
  pub read_log-select :
      (fuel : ℕ)
      → Grows
      → 0 < limit
      → length (select (matches q) (tables 0)) < fuel
      → read_log fuel 0 none ≡ select (matches q) (tables 0)
  read_log-select fuel grows some_rows enough =
      let whole : left 0 none ≡ select (matches q) (tables 0) =
        select_same _ (matches q) (tables 0) (λ r. ground arith) in
      read_log-left fuel 0 none grows some_rows (rw whole enough) ∙ whole

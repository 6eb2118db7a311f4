-- ===== src/Saga/Locking/Progress.antt =====
-- How transactions that wait for the rows of others move on.
use concurrent_flight_bookin.Prelude.{
  ℕ, zero, suc, ◌+◌, ◌<◌, ◌≤◌, ◌≡◌, refl, ◌⊎◌, inl, inr, true, false, List, [], ◌∷◌, ◌++◌, arith,
  All, All-map, Bool-cases, length, map, leb,
}
use concurrent_flight_bookin.Domain.Models.{SeatInventory}
use concurrent_flight_bookin.Saga.Ticketing.{elem}
use concurrent_flight_bookin.Saga.Oversell.{DistinctIds}
use concurrent_flight_bookin.Saga.Locking.{
  LockQuery, Locker, starting, is_locked, turn_of, turn, turns, IsDone,
}
use concurrent_flight_bookin.Saga.Locking.Order.{IsOrdered, starting-IsOrdered, turns-IsOrdered}

abbrev commits : List ℕ → ℕ
commits [] = 0
commits (h ∷ held) = 1

-- What is left to do: each lock, and the commit.
abbrev work : Locker → ℕ
work t = length t.wanted + length t.wanted + commits t.held

abbrev total : List Locker → ℕ
total [] = 0
total (t ∷ ts) = work t + total ts

-- Waiting, at most for row `x`; or done.
abbrev Below : ℕ → List ℕ → List ℕ → Type 0
Below x held [] = held ≡ []
Below x held (y ∷ rest) = y ≤ x

abbrev IsBelow : ℕ → Locker → Type 0
IsBelow x t = Below x t.held t.wanted

-- Everyone that is not done waits, and `x` is the last of the rows waited for.
abbrev Stuck : List Locker → List Locker → Type 0
Stuck all ts = (x : ℕ) × (is_locked x all ≡ true) × All (IsBelow x) ts

abbrev Moves : List Locker → List Locker → Type 0
Moves all ts = (i : ℕ) × (total (turn_of i all ts) < total ts)

weaker_bound : (x y : ℕ) → x ≤ y → (t : Locker) → IsBelow x t → IsBelow y t
weaker_bound x y le t = up t.held t.wanted
  where
    up : (held wanted : List ℕ) → Below x held wanted → Below y held wanted
    up held [] h = h
    up held (z ∷ rest) h = omega (arith, h, le)

idle : (x : ℕ) (ts : List Locker) → total ts ≡ 0 → All (IsBelow x) ts
idle x [] h = tt
idle x (t ∷ ts) h = (none_left t.held t.wanted (omega arith), idle x ts (omega arith))
  where
    none_left :
        (held wanted : List ℕ)
        → length wanted + length wanted + commits held ≡ 0
        → Below x held wanted
    none_left [] [] k = refl
    none_left (a ∷ held) [] k = absurd (omega arith)
    none_left held (y ∷ rest) k = absurd (omega arith)

none_or_some : (n : ℕ) → (n ≡ 0) ⊎ (0 < n)
none_or_some zero = inl refl
none_or_some (suc n) = inr (omega arith)

le_cases : (a b : ℕ) → (a ≤ b) ⊎ (b ≤ a)
le_cases a b = elim (Bool-cases (leb a b)) [
  | inl e ↦ inl (ground arith)
  | inr e ↦ inr (ground arith)
]

-- One more transaction, before others of which one moves or all are stuck.
one_more :
    (all ts : List Locker) (held wanted : List ℕ)
    → (0 < total ts → Moves all ts ⊎ Stuck all ts)
    → 0 < total (record { held = held; wanted = wanted } ∷ ts)
    → Moves all (record { held = held; wanted = wanted } ∷ ts)
      ⊎ Stuck all (record { held = held; wanted = wanted } ∷ ts)
one_more all ts [] [] others h = elim (others (omega (arith, h))) [
  | inl m ↦ inl (suc m.0, omega (arith, m.1))
  | inr s ↦ inr (s.0, s.1, (refl, s.2))
]
one_more all ts (a ∷ held) [] others h = inl (0, omega arith)
one_more all ts held (x ∷ rest) others h = elim (Bool-cases (is_locked x all)) [
  | inr free ↦ inl (0, rw free (omega arith))
  | inl waits ↦ elim (none_or_some (total ts)) [
    | inl over ↦ inr (x, waits, (omega arith, idle x ts over))
    | inr more ↦ elim (others more) [
      | inl m ↦ inl (suc m.0, omega (arith, m.1))
      | inr s ↦ elim (le_cases x s.0) [
        | inl le ↦ inr (s.0, s.1, (le, s.2))
        | inr ge ↦ inr (
          x,
          waits,
          (omega arith, All-map (IsBelow s.0) (IsBelow x) ts (weaker_bound s.0 x ge) s.2),
        )
      ]
    ]
  ]
]

one_advances : (all ts : List Locker) → 0 < total ts → Moves all ts ⊎ Stuck all ts
one_advances all [] h = absurd (omega (arith, h))
one_advances all (t ∷ ts) h = one_more all ts t.held t.wanted (one_advances all ts) h

-- No one that waits for `x` at most holds it.
not_held :
    (x : ℕ) (held wanted : List ℕ)
    → All (λ h. All (λ y. h < y) wanted) held
    → Below x held wanted
    → elem x held ≡ false
not_held x held [] o b = rw b refl
not_held x [] (y ∷ rest) o b = refl
not_held x (h ∷ held) (y ∷ rest) o b =
    let less : h < y = o.0.0 in
    let rest_free : elem x held ≡ false = not_held x held (y ∷ rest) o.1 b in ground arith

unlocked :
    (x : ℕ) (ts : List Locker) → All IsOrdered ts → All (IsBelow x) ts → is_locked x ts ≡ false
unlocked x [] o b = refl
unlocked x (t ∷ ts) o b = rw (not_held x t.held t.wanted o.0.1 b.0) (unlocked x ts o.1 b.1)

progress : (ts : List Locker) → All IsOrdered ts → 0 < total ts → Moves ts ts
progress ts o h = elim (one_advances ts ts h) [
  | inl m ↦ m
  | inr s ↦ absurd (let free = unlocked s.0 ts o s.2 in let locked = s.1 in cc)
]

finish :
    (n : ℕ) (ts : List Locker)
    → total ts ≤ n
    → All IsOrdered ts
    → (is : List ℕ) × (total (turns is ts) ≡ 0)
unfolding turns
finish zero ts le o = ([], omega arith)
finish (suc n) ts le o = elim (none_or_some (total ts)) [
  | inl over ↦ ([], over)
  | inr more ↦
      (let m = progress ts o more in
        let rest =
          finish n (turn m.0 ts) (omega (arith, m.1))
            (unfold turns in turns-IsOrdered (m.0 ∷ []) ts o) in
        (m.0 ∷ rest.0, rest.1))
]

turns-append : (is js : List ℕ) (ts : List Locker) → turns (is ++ js) ts ≡ turns js (turns is ts)
unfolding turns
turns-append [] js ts = refl
turns-append (i ∷ is) js ts = turns-append is js (turn i ts)

idle-IsDone : (ts : List Locker) → total ts ≡ 0 → All IsDone ts
idle-IsDone [] h = tt
idle-IsDone (t ∷ ts) h =
    (done_of t.held t.wanted (omega (arith, h)), idle-IsDone ts (omega (arith, h)))
  where
    done_of :
        (held wanted : List ℕ)
        → length wanted + length wanted + commits held ≡ 0
        → (held ≡ []) × (wanted ≡ [])
    done_of [] [] k = (refl, refl)
    done_of (a ∷ held) [] k = absurd (omega (arith, k))
    done_of held (y ∷ rest) k = absurd (omega (arith, k))

map-starting-IsOrdered :
    (qs : List (LockQuery × List SeatInventory))
    → All (λ q. DistinctIds q.1) qs
    → All IsOrdered (map starting qs)
map-starting-IsOrdered [] h = tt
map-starting-IsOrdered (q ∷ qs) h = (starting-IsOrdered q.0 q.1 h.0, map-starting-IsOrdered qs h.1)

-- No deadlock. However far transactions have come that lock rows of seats by these three statements, each by one of
-- them and on a table with distinct ids, and in whatever order they have taken turns: there are further turns after
-- which every one has got all its locks, has committed and holds none. A turn takes the next lock if nobody holds it,
-- waits if somebody does, and commits when no lock is left to take.
pub turns-IsDone :
    (qs : List (LockQuery × List SeatInventory)) (is : List ℕ)
    → All (λ q. DistinctIds q.1) qs
    → (rest : List ℕ) × All IsDone (turns (is ++ rest) (map starting qs))
turns-IsDone qs is distinct =
    let now = turns is (map starting qs) in
    let ordered = turns-IsOrdered is (map starting qs) (map-starting-IsOrdered qs distinct) in
    let last = finish (total now) now (omega arith) ordered in
    (last.0, rw (turns-append is last.0 (map starting qs)) (idle-IsDone (turns last.0 now) last.1))

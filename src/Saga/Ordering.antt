-- ===== src/Saga/Ordering.antt =====
-- The sorts of the saga reorder the rows, and what ORDER BY id leaves.
use concurrent_flight_bookin.Prelude.{
  ℕ, ◌<◌, ◌≤◌, ◌≡◌, refl, inl, inr, Bool, List, [], ◌∷◌, arith, count_where, leb, ◌==◌, All,
  All-map, Bool-cases,
}
use concurrent_flight_bookin.Domain.Models.{SeatInventory}
use concurrent_flight_bookin.Saga.Begin.{order_by_row, insert_by_row}
use concurrent_flight_bookin.Saga.Ticketing.{order_by_id, insert_by_id}

count-insert_by_row :
    (p : SeatInventory → Bool) (s : SeatInventory) (ss : List SeatInventory)
    → count_where p (insert_by_row s ss) ≡ count_where p (s ∷ ss)
unfolding insert_by_row
count-insert_by_row p s [] = refl
count-insert_by_row p s (t ∷ ts) = ground (arith, count-insert_by_row p s ts)

pub count-order_by_row :
    (p : SeatInventory → Bool) (ss : List SeatInventory)
    → count_where p (order_by_row ss) ≡ count_where p ss
unfolding order_by_row
count-order_by_row p [] = refl
count-order_by_row p (s ∷ ss) =
    ground (arith, count-insert_by_row p s (order_by_row ss), count-order_by_row p ss)

count-insert_by_id :
    (p : SeatInventory → Bool) (s : SeatInventory) (ss : List SeatInventory)
    → count_where p (insert_by_id s ss) ≡ count_where p (s ∷ ss)
unfolding insert_by_id
count-insert_by_id p s [] = refl
count-insert_by_id p s (t ∷ ts) = ground (arith, count-insert_by_id p s ts)

pub count-order_by_id :
    (p : SeatInventory → Bool) (ss : List SeatInventory)
    → count_where p (order_by_id ss) ≡ count_where p ss
unfolding order_by_id
count-order_by_id p [] = refl
count-order_by_id p (s ∷ ss) =
    ground (arith, count-insert_by_id p s (order_by_id ss), count-order_by_id p ss)

abbrev pub ids : List SeatInventory → List ℕ
ids [] = []
ids (s ∷ ss) = let rest = ids ss in s.id ∷ rest

abbrev pub Ascending : List ℕ → Type 0
Ascending [] = Unit
Ascending (x ∷ xs) = All (λ y. x < y) xs × Ascending xs

above-insert_by_id :
    (x : ℕ) (s : SeatInventory) (ss : List SeatInventory)
    → x < s.id
    → All (λ y. x < y) (ids ss)
    → All (λ y. x < y) (ids (insert_by_id s ss))
unfolding insert_by_id
above-insert_by_id x s [] h k = (h, tt)
above-insert_by_id x s (t ∷ ts) h k = elim (Bool-cases (leb s.id t.id)) [
  | inl before ↦ rw before (h, k)
  | inr after ↦ rw after (k.0, above-insert_by_id x s ts h k.1)
]

insert_by_id-Ascending :
    (s : SeatInventory) (ss : List SeatInventory)
    → count_where (λ t. t.id == s.id) ss ≡ 0
    → Ascending (ids ss)
    → Ascending (ids (insert_by_id s ss))
unfolding insert_by_id
insert_by_id-Ascending s [] h k = (tt, tt)
insert_by_id-Ascending s (t ∷ ts) h k = elim (Bool-cases (leb s.id t.id)) [
  | inl before ↦
      (let less : s.id < t.id = ground arith in
        rw before (
          (less, All-map (λ y. t.id < y) (λ y. s.id < y) (ids ts) (λ y m. omega (arith, m)) k.0),
          k,
        ))
  | inr after ↦ rw after (
    above-insert_by_id t.id s ts (ground arith) k.0,
    insert_by_id-Ascending s ts (ground arith) k.1,
  )
]

-- `ORDER BY id` over a primary key is strictly ascending.
pub order_by_id-Ascending :
    (ss : List SeatInventory)
    → ((x : ℕ) → count_where (λ s. s.id == x) ss ≤ 1)
    → Ascending (ids (order_by_id ss))
unfolding order_by_id
order_by_id-Ascending [] distinct = tt
order_by_id-Ascending (s ∷ ss) distinct =
    insert_by_id-Ascending s (order_by_id ss)
      (ground (arith, distinct s.id, count-order_by_id (λ t. t.id == s.id) ss))
      (order_by_id-Ascending ss (λ x. ground (arith, distinct x)))

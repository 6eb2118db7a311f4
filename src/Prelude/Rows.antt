-- ===== src/Prelude/Rows.antt =====
-- Tables as lists of rows: the statements that the services issue, and their laws.
use Prim.Native.Nat.{ℕ, zero, suc, ◌+◌, ◌-◌, ◌≤◌, ◌<◌}
use native.Mathlib.Nat.{zero-add, suc-add}
use mathlib.Core.Logic.{◌≢◌}
use mathlib.Core.Path.{◌≡◌, refl, sym, ap, ◌∙◌}
use mathlib.Core.Bool.{Bool, true, false, ◌&&◌}
use mathlib.Core.Option.{Option, none, some}
use mathlib.Core.List.{List, [], ◌∷◌, ◌++◌, map}
use native.Mathlib.Omega.{arith}
use concurrent_flight_bookin.Prelude.Tests.{if◌then◌else◌}

module _ {ℓ} {A : Type ℓ} where
  abbrev pub length : List A → ℕ
  length [] = 0
  length (x ∷ xs) = suc (length xs)

  -- `LIMIT n` and `OFFSET n`
  abbrev pub take : ℕ → List A → List A
  take zero xs = []
  take (suc n) [] = []
  take (suc n) (x ∷ xs) = x ∷ take n xs

  abbrev pub drop : ℕ → List A → List A
  drop zero xs = xs
  drop (suc n) [] = []
  drop (suc n) (x ∷ xs) = drop n xs

  -- `SELECT ... WHERE p`
  abbrev pub select : (A → Bool) → List A → List A
  select p [] = []
  select p (x ∷ xs) = let rest = select p xs in if p x then x ∷ rest else rest

  -- The first row that matches, as `scalar_one_or_none` on a unique key.
  abbrev pub first : (A → Bool) → List A → Option A
  first p [] = none
  first p (x ∷ xs) = let rest = first p xs in if p x then some x else rest

  -- `SELECT count(*) ... WHERE p`
  abbrev pub count_where : (A → Bool) → List A → ℕ
  count_where p [] = 0
  count_where p (x ∷ xs) = let rest = count_where p xs in if p x then suc rest else rest

  -- `UPDATE ... SET f WHERE p`; the rows it touches are those that `count_where p` counts.
  abbrev pub update_where : (A → Bool) → (A → A) → List A → List A
  update_where p f [] = []
  update_where p f (x ∷ xs) = (if p x then f x else x) ∷ update_where p f xs

  -- `DELETE ... WHERE p`
  abbrev pub delete_where : (A → Bool) → List A → List A
  delete_where p [] = []
  delete_where p (x ∷ xs) = let rest = delete_where p xs in if p x then rest else x ∷ rest

  -- A property of every row.
  abbrev pub All {κ} : (A → Type κ) → List A → Type κ
  All P [] = Unit
  All P (x ∷ xs) = P x × All P xs

  pub All-update_where {κ} :
      (P : A → Type κ) (p : A → Bool) (f : A → A) (xs : List A)
      → ((x : A) → p x ≡ true → P x → P (f x))
      → All P xs
      → All P (update_where p f xs)
  All-update_where P p f [] keep h = tt
  All-update_where P p f (x ∷ xs) keep h =
      ground (arith, keep x, All-update_where P p f xs keep h.1)

  pub All-append {κ} : (P : A → Type κ) (xs ys : List A) → All P xs → All P ys → All P (xs ++ ys)
  All-append P [] ys h k = k
  All-append P (x ∷ xs) ys h k = (h.0, All-append P xs ys h.1 k)

  pub length-update_where :
      (p : A → Bool) (f : A → A) (xs : List A) → length (update_where p f xs) ≡ length xs
  length-update_where p f [] = refl
  length-update_where p f (x ∷ xs) = ap suc (length-update_where p f xs)

  pub first-count : (p : A → Bool) (xs : List A) → first p xs ≡ none → count_where p xs ≡ 0
  first-count p [] h = refl
  first-count p (x ∷ xs) h = ground (arith, first-count p xs)

  pub first-found :
      (p : A → Bool) (xs : List A) (x : A) → first p xs ≡ some x → 0 < count_where p xs
  first-found p [] x h = cc
  first-found p (y ∷ xs) x h = ground (arith, first-found p xs x)

  pub first-holds : (p : A → Bool) (xs : List A) (x : A) → first p xs ≡ some x → p x ≡ true
  first-holds p [] x h = cc
  first-holds p (y ∷ xs) x h = ground (arith, first-holds p xs x)

  -- An update of rows outside a selection, that moves none into it, leaves the selection as it is.
  pub select-update_where :
      (q p : A → Bool) (f : A → A) (xs : List A)
      → ((x : A) → p x ≡ true → (q x ≡ false) × (q (f x) ≡ false))
      → select q (update_where p f xs) ≡ select q xs
  select-update_where q p f [] apart = refl
  select-update_where q p f (x ∷ xs) apart =
      ground (arith, apart x, select-update_where q p f xs apart)

  -- An update that changes no row's answer to `q` changes no count of `q`.
  pub count-update_where :
      (q p : A → Bool) (f : A → A) (xs : List A)
      → ((x : A) → p x ≡ true → q (f x) ≡ q x)
      → count_where q (update_where p f xs) ≡ count_where q xs
  count-update_where q p f [] same_answer = refl
  count-update_where q p f (x ∷ xs) same_answer =
      ground (arith, same_answer x, count-update_where q p f xs same_answer)

  -- An UPDATE that no row meets, and one that takes every row it meets out of its reach.
  pub update_none :
      (p : A → Bool) (f : A → A) (xs : List A) → count_where p xs ≡ 0 → update_where p f xs ≡ xs
  update_none p f [] h = refl
  update_none p f (x ∷ xs) h = ground (arith, update_none p f xs)

  pub count-updated :
      (p : A → Bool) (f : A → A) (xs : List A)
      → ((x : A) → p (f x) ≡ false)
      → count_where p (update_where p f xs) ≡ 0
  count-updated p f [] out = refl
  count-updated p f (x ∷ xs) out = ground (arith, out x, count-updated p f xs out)

  -- Where no row meets `k`, none meets a stronger test.
  pub first-none :
      (k q : A → Bool) (xs : List A)
      → ((x : A) → q x ≡ true → k x ≡ true)
      → count_where k xs ≡ 0
      → first q xs ≡ none
  first-none k q [] stronger h = refl
  first-none k q (x ∷ xs) stronger h = ground (arith, stronger x, first-none k q xs stronger)

  -- On a key that one row has at most, an update of that row decides what a later test finds.
  pub first-update_where :
      (k p q : A → Bool) (f : A → A) (xs : List A)
      → ((x : A) → p x ≡ true → k x ≡ true)
      → ((x : A) → q x ≡ true → k x ≡ true)
      → ((x : A) → k (f x) ≡ k x)
      → ((x : A) → q (f x) ≡ false)
      → count_where k xs ≤ 1
      → first p xs ≢ none
      → first q (update_where p f xs) ≡ none
  first-update_where k p q f [] pk qk kf qf h found = refl
  first-update_where k p q f (x ∷ xs) pk qk kf qf h found = ground (
    arith,
    pk x,
    qk x,
    qf x,
    first-none k p xs pk,
    first-none k q (update_where p f xs) qk,
    count-update_where k p f xs (λ y e. kf y),
    first-update_where k p q f xs pk qk kf qf,
  )

  pub All-map {κ μ} :
      (P : A → Type κ) (Q : A → Type μ) (xs : List A) → ((x : A) → P x → Q x) → All P xs → All Q xs
  All-map P Q [] imp h = tt
  All-map P Q (x ∷ xs) imp h = (imp x h.0, All-map P Q xs imp h.1)

  -- Counting is by the rows and the test alone.
  pub count-select :
      (p q : A → Bool) (xs : List A)
      → count_where p (select q xs) ≡ count_where (λ x. p x && q x) xs
  count-select p q [] = refl
  count-select p q (x ∷ xs) = ground (arith, count-select p q xs)

  pub count_same :
      (p q : A → Bool) (xs : List A) → ((x : A) → p x ≡ q x) → count_where p xs ≡ count_where q xs
  count_same p q [] same_answer = refl
  count_same p q (x ∷ xs) same_answer = ground (arith, same_answer x, count_same p q xs same_answer)

  pub count_mono :
      (p q : A → Bool) (xs : List A)
      → ((x : A) → p x ≡ true → q x ≡ true)
      → count_where p xs ≤ count_where q xs
  count_mono p q [] stronger = omega arith
  count_mono p q (x ∷ xs) stronger = ground (arith, stronger x, count_mono p q xs stronger)

  pub length-count : (xs : List A) → length xs ≡ count_where (λ _. true) xs
  length-count [] = refl
  length-count (x ∷ xs) = ap suc (length-count xs)

  -- A DELETE that no row meets.
  pub delete_none : (p : A → Bool) (xs : List A) → count_where p xs ≡ 0 → delete_where p xs ≡ xs
  delete_none p [] h = refl
  delete_none p (x ∷ xs) h = ground (arith, delete_none p xs)

  pub count-delete_where_le :
      (p q : A → Bool) (xs : List A) → count_where p (delete_where q xs) ≤ count_where p xs
  count-delete_where_le p q [] = omega arith
  count-delete_where_le p q (x ∷ xs) = ground (arith, count-delete_where_le p q xs)

  -- A DELETE of rows that a test does not count leaves its count.
  pub count-delete_where :
      (p q : A → Bool) (xs : List A)
      → ((x : A) → p x ≡ true → q x ≡ false)
      → count_where p (delete_where q xs) ≡ count_where p xs
  count-delete_where p q [] apart = refl
  count-delete_where p q (x ∷ xs) apart = ground (arith, apart x, count-delete_where p q xs apart)

  pub drop-nil : (n : ℕ) → drop n [] ≡ []
  drop-nil zero = refl
  drop-nil (suc n) = refl

  pub drop-drop : (m n : ℕ) (xs : List A) → drop m (drop n xs) ≡ drop (n + m) xs
  drop-drop m zero xs = rw zero-add refl
  drop-drop m (suc n) [] = drop-nil m ∙ sym (drop-nil (suc n + m))
  drop-drop m (suc n) (x ∷ xs) = rw suc-add (drop-drop m n xs)

  pub take-drop : (n : ℕ) (xs : List A) → take n xs ++ drop n xs ≡ xs
  take-drop zero xs = refl
  take-drop (suc n) [] = refl
  take-drop (suc n) (x ∷ xs) = ap (λ l. x ∷ l) (take-drop n xs)

  pub take_all : (n : ℕ) (xs : List A) → length xs ≤ n → take n xs ≡ xs
  take_all zero [] h = refl
  take_all zero (x ∷ xs) h = absurd (omega arith)
  take_all (suc n) [] h = refl
  take_all (suc n) (x ∷ xs) h = ap (λ l. x ∷ l) (take_all n xs (omega arith))

  pub length-drop : (n : ℕ) (xs : List A) → length (drop n xs) ≡ length xs - n
  length-drop zero xs = omega arith
  length-drop (suc n) [] = omega arith
  length-drop (suc n) (x ∷ xs) = omega (arith, length-drop n xs)

  pub drop_all : (n : ℕ) (xs : List A) → length xs ≤ n → drop n xs ≡ []
  drop_all zero [] h = refl
  drop_all zero (x ∷ xs) h = absurd (omega arith)
  drop_all (suc n) [] h = refl
  drop_all (suc n) (x ∷ xs) h = drop_all n xs (omega arith)

pub count-map {ℓ κ} :
    {A : Type ℓ} {B : Type κ} (p : B → Bool) (f : A → B) (xs : List A)
    → count_where p (map f xs) ≡ count_where (λ x. p (f x)) xs
count-map p f [] = refl
count-map p f (x ∷ xs) = ground (arith, count-map p f xs)

pub length-map {ℓ κ} :
    {A : Type ℓ} {B : Type κ} (f : A → B) (xs : List A) → length (map f xs) ≡ length xs
length-map f [] = refl
length-map f (x ∷ xs) = ap suc (length-map f xs)

pub All-of_map {ℓ κ μ} :
    {A : Type ℓ} {B : Type κ} (f : A → B) (P : B → Type μ) (xs : List A)
    → All (λ x. P (f x)) xs
    → All P (map f xs)
All-of_map f P [] h = tt
All-of_map f P (x ∷ xs) h = (h.0, All-of_map f P xs h.1)

pub All-select {ℓ} : {A : Type ℓ} (p : A → Bool) (xs : List A) → All (λ x. p x ≡ true) (select p xs)
All-select p [] = tt
All-select p (x ∷ xs) = ground (arith, All-select p xs)

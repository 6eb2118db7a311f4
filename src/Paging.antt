-- ===== src/Paging.antt =====
-- app/schemas/common.py, Page, and a client that reads a listing page by page.
use concurrent_flight_bookin.Prelude.{
  ℕ, zero, suc, ◌+◌, ◌*◌, ◌<◌, ◌≤◌, ◌≡◌, refl, sym, Option, none, some, ap, ◌∙◌, inl, inr, Bool,
  List, [], ◌++◌, arith, ltb, Bool-cases, if◌then◌else◌, length, take, drop, drop-drop, take-drop,
  take_all, length-drop, drop_all, ltb-le,
}

pub record Page (A : Type 0) : Type 0 where
  pub items : List A
  pub page : ℕ
  pub page_size : ℕ
  pub total : ℕ
  pub has_more : Bool

module _ {A : Type 0} (fetch : ℕ → Page A) where
  -- A client that asks for the next page while there is more.
  unfoldable pub read_pages : ℕ → ℕ → List A
  read_pages zero page = []
  read_pages (suc fuel) page =
      let rest = read_pages fuel (page + 1) in
      if (fetch page).has_more then (fetch page).items ++ rest else (fetch page).items

  module _ (page_size : ℕ) (rows : List A) where
    -- Pages of that size of those rows.
    abbrev pub Serves : Type 0
    Serves =
        (k : ℕ)
        → ((fetch (suc k)).items ≡ take page_size (drop (k * page_size) rows))
          × ((fetch (suc k)).has_more ≡ ltb (suc k * page_size) (length rows))

    read_pages-drop :
        (fuel k : ℕ)
        → Serves
        → 0 < page_size
        → length rows < fuel + k * page_size
        → read_pages fuel (suc k) ≡ drop (k * page_size) rows
    unfolding read_pages
    read_pages-drop zero k serves some_rows enough =
        sym (drop_all (k * page_size) rows (omega arith))
    read_pages-drop (suc fuel) k serves some_rows enough =
        let o : ℕ = k * page_size in
        let after : suc k * page_size ≡ o + page_size = grind arith in
        let next : suc k + 1 ≡ suc (suc k) = omega arith in
        let rest : read_pages fuel (suc (suc k)) ≡ drop (o + page_size) rows =
          read_pages-drop fuel (suc k) serves some_rows (rw after (omega arith))
          ∙ ap (λ n. drop n rows) after in
        elim (Bool-cases (ltb (suc k * page_size) (length rows))) [
          | inl more ↦
              rw ((serves k).1, more, (serves k).0, next, rest, ← drop-drop page_size o rows)
                (take-drop page_size (drop o rows))
          | inr last ↦
              rw ((serves k).1, last, (serves k).0)
                (take_all page_size (drop o rows)
                  (rw (length-drop o rows) (omega (arith, after, ltb-le _ _ last))))
        ]

    pub read_pages-rows :
        (fuel : ℕ) → Serves → 0 < page_size → length rows < fuel → read_pages fuel 1 ≡ rows
    read_pages-rows fuel serves some_rows enough =
        let none_before : 0 * page_size ≡ 0 = omega arith in
        read_pages-drop fuel 0 serves some_rows (omega arith) ∙ ap (λ n. drop n rows) none_before

abbrev prepend : {A : Type 0} → List A → Option (List A) → Option (List A)
prepend items none = none
prepend items (some rest) = some (items ++ rest)

-- The same client of a listing that may refuse a page, here with 422 for a page number out of bounds; then it has nothing.
unfoldable pub read_served : {A : Type 0} → (ℕ → Option (Page A)) → ℕ → ℕ → Option (List A)
read_served fetch zero page = some []
read_served fetch (suc fuel) page = elim (fetch page) [
  | none ↦ none
  | some p ↦
      if p.has_more then prepend p.items (read_served fetch fuel (page + 1)) else some p.items
]

-- If the first pages are served, reading no more than those is reading them.
pub read_served-read_pages :
    {A : Type 0} (fetch : ℕ → Option (Page A)) (pages : ℕ → Page A) (last fuel k : ℕ)
    → ((j : ℕ) → j < last → fetch (suc j) ≡ some (pages (suc j)))
    → fuel + k ≤ last
    → read_served fetch fuel (suc k) ≡ some (read_pages pages fuel (suc k))
unfolding read_served read_pages
read_served-read_pages fetch pages last zero k served within = refl
read_served-read_pages fetch pages last (suc fuel) k served within =
    let next : suc k + 1 ≡ suc (suc k) = omega arith in
    let rest = read_served-read_pages fetch pages last fuel (suc k) served (omega arith) in
    rw (served k (omega arith), read_served)
      (elim (Bool-cases (pages (suc k)).has_more) [
        | inl more ↦ rw more (rw (next, rest) refl)
        | inr done' ↦ rw done' refl
      ])

-- ===== src/Bookings/Pages.antt =====
-- GET /bookings: the caller's bookings, a page at a time.
use concurrent_flight_bookin.Prelude.{
  ℕ, suc, ◌-◌, ◌*◌, ◌<◌, ◌≤◌, ◌≡◌, refl, ap, ◌∙◌, Bool, ◌&&◌, Option, none, some, List, arith, ◌==◌,
  ltb, leb, length, select, take, drop, if◌then◌else◌,
}
use concurrent_flight_bookin.Domain.Models.{Booking}
use concurrent_flight_bookin.Paging.{Page, read_served, read_served-read_pages, read_pages-rows}

abbrev pub own : ℕ → List Booking → List Booking
own user_id bookings = select (λ b. b.user_id == user_id) bookings

-- The rows of the table stand newest first, as ORDER BY created_at DESC has them; the order of rows that were created at the
-- same time is taken to be the same in every query. What `Query(ge=..., le=...)` refuses is answered 422.
abbrev pub in_bounds : ℕ → ℕ → Bool
in_bounds page page_size = leb 1 page && leb page 1000 && leb 1 page_size && leb page_size 100

abbrev pub page_of : ℕ → ℕ → ℕ → List Booking → Page Booking
page_of user_id page page_size bookings = record {
  items = take page_size (drop ((page - 1) * page_size) (own user_id bookings));
  page = page;
  page_size = page_size;
  total = length (own user_id bookings);
  has_more = ltb (page * page_size) (length (own user_id bookings));
}

unfoldable pub list_bookings : ℕ → ℕ → ℕ → List Booking → Option (Page Booking)
list_bookings user_id page page_size bookings =
    if in_bounds page page_size then some (page_of user_id page page_size bookings) else none

module _ (user_id page_size : ℕ) (bookings : List Booking) where
  abbrev pub read_on : ℕ → ℕ → Option (List Booking)
  read_on = read_served (λ page. list_bookings user_id page page_size bookings)

  served :
      (j : ℕ)
      → 0 < page_size
      → page_size ≤ 100
      → j < 1000
      → list_bookings user_id (suc j) page_size bookings
        ≡ some (page_of user_id (suc j) page_size bookings)
  unfolding list_bookings
  served j some_rows few_rows early = ground arith

  -- A client that asks for page 1 and then for the next page as long as `has_more` says so reads each booking of a user who
  -- has fewer than a thousand exactly once, newest first, and no one else's, for each size of a page from 1 to 100; no
  -- page that it asks for is refused. No booking is made between its requests, and bookings that
  -- were made at the same time keep their order.
  pub read_on-own :
      0 < page_size
      → page_size ≤ 100
      → length (own user_id bookings) < 1000
      → read_on 1000 1 ≡ some (own user_id bookings)
  read_on-own some_rows few_rows few =
      read_served-read_pages (λ page. list_bookings user_id page page_size bookings)
        (λ page. page_of user_id page page_size bookings) 1000 1000 0
        (λ j early. served j some_rows few_rows early) (omega arith)
      ∙ ap some (
          read_pages-rows (λ page. page_of user_id page page_size bookings) page_size
            (own user_id bookings) 1000
            (λ k. (
              ap (λ n. take page_size (drop (n * page_size) (own user_id bookings))) (omega arith),
              refl,
            ))
            some_rows few)

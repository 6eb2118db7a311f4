-- ===== src/Dashboard/Agreement.antt =====
-- The pages show what the tables and the other routes show.
use concurrent_flight_bookin.Prelude.{
  ℕ, zero, suc, ◌+◌, ◌≡◌, ◌↔◌, refl, sym, ap, ◌∙◌, true, ◌&&◌, Option, none, some, List, [], ◌∷◌,
  Text, arith, leb, if◌then◌else◌, length, take, select, count_where, length-map, length-count, All,
  same-eq, same_refl,
}
use concurrent_flight_bookin.Config.{Settings}
use concurrent_flight_bookin.Domain.Models.{Db, SeatInventory, User}
use concurrent_flight_bookin.Holds.{hold_is_live}
use concurrent_flight_bookin.HoldRoutes.{order_by_expiry}
use concurrent_flight_bookin.HoldRoutes.Listing.{count-order_by_expiry}
use concurrent_flight_bookin.Admin.{LoggedEvent, list_security_events, text_filter, matches}
use concurrent_flight_bookin.Dashboard.{
  dashboard_auth, allowed, stats, active_holds, has_flight, hold_row, security_events,
}

abbrev pub min : ℕ → ℕ → ℕ
min a b = if leb a b then a else b

length-take : (n : ℕ) {A : Type 0} (xs : List A) → length (take n xs) ≡ min n (length xs)
length-take zero xs = ground arith
length-take (suc n) [] = ground arith
length-take (suc n) (x ∷ xs) = ground (arith, length-take n xs)

take-take_more : (n : ℕ) (rs : List LoggedEvent) → take n (take (n + 1) rs) ≡ take n rs
take-take_more n rs = (let e : n + 1 ≡ suc n = omega arith in rw e (take-take-suc n rs))
  where
    take-take-suc : (k : ℕ) (xs : List LoggedEvent) → take k (take (suc k) xs) ≡ take k xs
    take-take-suc zero xs = refl
    take-take-suc (suc k) [] = refl
    take-take-suc (suc k) (x ∷ xs) = ap (λ l. x ∷ l) (take-take-suc k xs)

-- Every seat has its flight, as the foreign key of `seat_inventory` demands.
abbrev pub HasFlights : Db → Type 0
HasFlights db = All (λ s. has_flight db.flights s ≡ true) db.seats

count_joined :
    (now : ℕ) (db : Db) (seats : List SeatInventory)
    → All (λ s. has_flight db.flights s ≡ true) seats
    → count_where (λ _. true) (select (λ s. hold_is_live now s && has_flight db.flights s) seats)
      ≡ count_where (hold_is_live now) seats
count_joined now db [] h = refl
count_joined now db (s ∷ seats) h = ground (arith, h.0, count_joined now db seats h.1)

select_filter :
    (severity : Option Text) (table : List LoggedEvent)
    → select (λ r. text_filter severity r.severity) table
      ≡ select
          (λ r. matches (record { event_type = none; severity = severity; since = none }) r && true)
          table
select_filter severity [] = refl
select_filter severity (r ∷ table) = ground (arith, select_filter severity table)

-- The page of holds has a line for each live hold that the overview counts, up to its limit; and the security feed is the
-- first page of the administrators' log with the same severity and limit. Every seat has its flight.
pub active_holds-stats :
    (now read_at limit : ℕ) (users : List User) (severity : Option Text) (db : Db)
    (table : List LoggedEvent)
    → HasFlights db
    → (length (active_holds now read_at limit users db)
        ≡ min limit (stats now db table).active_holds)
      × (security_events limit severity table
          ≡ (list_security_events
              (record { event_type = none; severity = severity; since = none })
              none
              limit
              table).items)
unfolding active_holds stats security_events list_security_events
active_holds-stats now read_at limit users severity db table h =
    let rows : List SeatInventory =
      select (λ s. hold_is_live now s && has_flight db.flights s) db.seats in
    (
      length-map (hold_row read_at db.flights users) (take limit (order_by_expiry rows))
          ∙ length-take limit (order_by_expiry rows)
          ∙ ap (min limit) (
              length-count (order_by_expiry rows)
              ∙ count-order_by_expiry (λ _. true) rows
              ∙ count_joined now db db.seats h),
      ap (take limit) (select_filter severity table) ∙ sym (take-take_more limit _),
    )

-- The dashboard opens exactly if it is enabled and the request has the operator's name and password; then it goes by
-- that name.
dashboard_auth-allowed :
    (settings : Settings) (credentials : Option (Text × Text)) (username : Text)
    → (dashboard_auth settings credentials ≡ allowed username) ↔ (
        (settings.dashboard_enabled ≡ true)
        × (credentials ≡ some (settings.dashboard_user, settings.dashboard_password))
        × (username ≡ settings.dashboard_user))
unfolding dashboard_auth
dashboard_auth-allowed settings none username = (λ h. ground arith, λ h. cc)
dashboard_auth-allowed settings (some (u, p)) username = (
  λ h. ground (arith, same-eq u settings.dashboard_user, same-eq p settings.dashboard_password),
  λ h. ground (arith, same_refl settings.dashboard_user, same_refl settings.dashboard_password),
)

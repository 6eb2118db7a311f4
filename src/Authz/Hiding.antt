-- ===== src/Authz/Hiding.antt =====
-- The owned queries tell nothing of the rows of other users.
use concurrent_flight_bookin.Prelude.{
  sym, ℕ, ◌≡◌, refl, ap, Bool, true, none, some, List, [], ◌∷◌, Text, arith, ◌==◌, is_eq, first,
  select, if◌then◌else◌,
}
use concurrent_flight_bookin.Domain.Models.{Booking, SeatInventory}
use concurrent_flight_bookin.Authz.{
  or_deny, is_booking_ref, owned_booking, owned_hold, is_owned_booking, is_owned_hold,
}

first-select {ℓ} :
    {A : Type ℓ} (p q : A → Bool) (xs : List A)
    → ((x : A) → p x ≡ true → q x ≡ true)
    → first p (select q xs) ≡ first p xs
first-select p q [] within = refl
first-select p q (x ∷ xs) within = ground (arith, within x, first-select p q xs within)

own_booking :
    (user_id : ℕ) (ref : Text) (b : Booking)
    → is_owned_booking user_id ref b ≡ true
    → (b.user_id == user_id) ≡ true
own_booking user_id ref b h = ground arith

own_hold :
    (user_id hold_id : ℕ) (s : SeatInventory)
    → is_owned_hold user_id hold_id s ≡ true
    → is_eq s.held_by_user_id user_id ≡ true
own_hold user_id hold_id s h = ground arith

-- What a user is answered about a booking or a hold, a denial and its log entry included, is what would be answered if no
-- other user had any: the answer is a function of the user's own rows, so that it cannot tell a row that is someone
-- else's from one that does not exist.
pub owned-own :
    (user_id hold_id : ℕ) (ref : Text) (bookings : List Booking) (seats : List SeatInventory)
    → (owned_booking user_id ref bookings
        ≡ owned_booking user_id ref (select (λ b. b.user_id == user_id) bookings))
      × (owned_hold user_id hold_id seats
          ≡ owned_hold user_id hold_id (select (λ s. is_eq s.held_by_user_id user_id) seats))
unfolding owned_booking owned_hold
owned-own user_id hold_id ref bookings seats = (
  ap (λ row. if is_booking_ref ref then some (or_deny user_id row) else none)
      (sym (first-select (is_owned_booking user_id ref) _ bookings (own_booking user_id ref))),
  ap (or_deny user_id)
      (sym (first-select (is_owned_hold user_id hold_id) _ seats (own_hold user_id hold_id))),
)

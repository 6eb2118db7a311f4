-- ===== src/Authz/Finding.antt =====
-- A booking is found under the record locator that was drawn for it.
use concurrent_flight_bookin.Prelude.{
  ℕ, zero, suc, ◌+◌, ◌≡◌, refl, ap, Bool, true, false, some, List, [], ◌∷◌, Text, arith, same,
  same_refl, first, ==_refl, leb, count_where,
}
use concurrent_flight_bookin.Domain.Models.{Booking}
use concurrent_flight_bookin.Domain.Pnr.{
  IsChoice, has_char, joined, generate_pnr, pnr_alphabet, pnr_length,
}
use concurrent_flight_bookin.Holds.{upper}
use concurrent_flight_bookin.Authz.{
  owned_booking, is_owned_booking, or_deny, found, all_in, is_booking_ref,
}

-- The first row of a wider test is the first of a narrower one that it meets.
first-narrower {ℓ} :
    {A : Type ℓ} (p q : A → Bool) (xs : List A) (x : A)
    → ((y : A) → q y ≡ true → p y ≡ true)
    → first p xs ≡ some x
    → q x ≡ true
    → first q xs ≡ some x
first-narrower p q [] x within h k = cc
first-narrower p q (y ∷ xs) x within h k = ground (arith, within y, first-narrower p q xs x within)

count-has_char :
    (p : ℕ → Bool) (c : ℕ) (cs : Text) → has_char c cs ≡ true → count_where p cs ≡ 0 → p c ≡ false
count-has_char p c [] h k = cc
count-has_char p c (d ∷ ds) h k = ground (arith, count-has_char p c ds)

no_lower_case : count_where (leb b'a') pnr_alphabet ≡ 0
no_lower_case = refl

module _ (choice : Text → ℕ → ℕ) (draws : IsChoice choice) where
  upper-joined : (n i : ℕ) → upper (joined choice pnr_alphabet n i) ≡ joined choice pnr_alphabet n i
  unfolding upper
  upper-joined zero i = refl
  upper-joined (suc n) i =
      let c : ℕ = choice pnr_alphabet i in
      let capital : leb b'a' c ≡ false =
        count-has_char (leb b'a') c pnr_alphabet (draws b'2' _ i) no_lower_case in
      rw (capital, upper-joined n (i + 1)) refl

  upper-generate_pnr : upper (generate_pnr choice) ≡ generate_pnr choice
  unfolding generate_pnr
  upper-generate_pnr = upper-joined pnr_length 0

  joined-all_in : (n i : ℕ) → all_in pnr_alphabet (joined choice pnr_alphabet n i) ≡ true
  joined-all_in zero i = refl
  joined-all_in (suc n) i = rw (draws b'2' _ i, joined-all_in n (i + 1)) refl

  generate_pnr-is_booking_ref : is_booking_ref (generate_pnr choice) ≡ true
  unfolding generate_pnr
  generate_pnr-is_booking_ref = joined-all_in pnr_length 0

  -- The owner of a booking finds it under the record locator that was drawn for it, if no other booking before it has that
  -- locator: the locator passes the path's pattern, and looking it up in capitals changes nothing. A choice from a text
  -- that is not empty draws one of its characters.
  pub generate_pnr-owned_booking :
      (booking : Booking) (bookings : List Booking)
      → booking.ref ≡ generate_pnr choice
      → first (λ b. same b.ref (generate_pnr choice)) bookings ≡ some booking
      → owned_booking booking.user_id (generate_pnr choice) bookings ≡ some (found booking)
  unfolding owned_booking
  generate_pnr-owned_booking booking bookings ref known =
      let row : first (is_owned_booking booking.user_id (generate_pnr choice)) bookings
          ≡ some booking =
        first-narrower (λ b. same b.ref (generate_pnr choice))
          (is_owned_booking booking.user_id (generate_pnr choice)) bookings booking
          (λ b h. rw (← upper-generate_pnr) (ground arith)) known
          (rw (upper-generate_pnr, ref)
            (ground (arith, same_refl (generate_pnr choice), ==_refl booking.user_id))) in
      rw (generate_pnr-is_booking_ref, owned_booking)
        (ap (λ x. some (or_deny booking.user_id x)) row)

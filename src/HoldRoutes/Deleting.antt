-- ===== src/HoldRoutes/Deleting.antt =====
-- A hold is given up once, and by its owner.
use concurrent_flight_bookin.Prelude.{
  ℕ, ◌≡◌, ◌≢◌, refl, sym, ap, ◌∙◌, inl, inr, Bool, true, false, Option, none, some, List, arith,
  ltb, ◌==◌, is_eq, first, first-holds, count_where, count-update_where, update_where, Option-cases,
  first-count, count_mono, update_none, count-updated, if◌then◌else◌,
}
use concurrent_flight_bookin.Domain.Models.{SeatInventory}
use concurrent_flight_bookin.Holds.{
  release_hold, releasable, freed, count_active_holds, active_hold,
}
use concurrent_flight_bookin.Authz.{owned_hold, is_owned_hold}
use concurrent_flight_bookin.HoldRoutes.{
  delete_hold, Deletion, no_content, not_owned, no_longer_active, deletion_of,
}

-- The status that a client sees; both refusals look alike.
abbrev pub deletion_status : Deletion → ℕ
deletion_status no_content = 204
deletion_status (not_owned event) = 404
deletion_status no_longer_active = 404

is_eq-some : (o : Option ℕ) (k : ℕ) → is_eq o k ≡ true → o ≡ some k
is_eq-some none k h = cc
is_eq-some (some a) k h = ap some (ground arith)

deletion_of-status :
    (n : ℕ) → deletion_status (deletion_of (ltb 0 n)) ≡ (if n == 0 then 404 else 204)
deletion_of-status n = ground arith

module _ (user_id hold_id : ℕ) where
  -- With no other session between the two statements.
  abbrev delete : List SeatInventory → Deletion × List SeatInventory
  delete seats = delete_hold (λ rows. rows) user_id hold_id seats

  abbrev mine : SeatInventory → Bool
  mine = releasable hold_id (some user_id)

  -- The two statements together are one on the user's own hold.
  delete_as_one :
      (seats : List SeatInventory)
      → (deletion_status (delete seats).0 ≡ (if count_where mine seats == 0 then 404 else 204))
        × ((delete seats).1 ≡ update_where mine freed seats)
  unfolding delete_hold owned_hold release_hold
  delete_as_one seats = elim (Option-cases (first (is_owned_hold user_id hold_id) seats)) [
    | inl missing ↦
        let unheld : count_where mine seats ≡ 0 = ground (
          arith,
          first-count (is_owned_hold user_id hold_id) seats,
          count_mono mine (is_owned_hold user_id hold_id) seats (λ s. ground arith),
        ) in
        rw (missing, delete_hold, owned_hold, unheld)
          (refl, sym (update_none mine freed seats unheld))
    | inr (seat, known) ↦
        let holder : seat.held_by_user_id ≡ some user_id =
          is_eq-some seat.held_by_user_id user_id
            (ground (arith, first-holds (is_owned_hold user_id hold_id) seats seat known)) in
        rw (known, delete_hold, owned_hold, holder)
          (deletion_of-status (count_where mine seats), refl)
  ]

  mine-freed : (s : SeatInventory) → mine (freed s) ≡ false
  mine-freed s = ground arith

  -- A DELETE of a hold answers 204 if the hold is held and the caller's, else 404. After it, whatever it answered, the same
  -- DELETE is answered 404 and changes nothing, and every other user has the same number of live holds as before. No
  -- other session writes between its two statements.
  pub delete_hold-again :
      (seats : List SeatInventory)
      → let (r, after) = delete_hold (λ rows. rows) user_id hold_id seats in
        let (again, at_last) = delete_hold (λ rows. rows) user_id hold_id after in
        (deletion_status r
          ≡ (if count_where (releasable hold_id (some user_id)) seats == 0 then 404 else 204))
        × (deletion_status again ≡ 404)
        × (at_last ≡ after)
        × ((u now : ℕ)
            → u ≢ user_id
            → count_active_holds now u after ≡ count_active_holds now u seats)
  unfolding count_active_holds
  delete_hold-again seats =
      let once = delete_as_one seats in
      let after : List SeatInventory = (delete seats).1 in
      let twice = delete_as_one after in
      let gone : count_where mine after ≡ 0 =
        rw once.1 (count-updated mine freed seats mine-freed) in
      (
        once.0,
        twice.0 ∙ rw gone refl,
        twice.1 ∙ update_none mine freed after gone,
        λ u now other.
            rw once.1
              (count-update_where (active_hold now u) mine freed seats (λ s h. ground arith)),
      )

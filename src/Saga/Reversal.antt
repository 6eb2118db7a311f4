-- ===== src/Saga/Reversal.antt =====
-- What a failed booking leaves behind: the declined payment and the compensated charge.
use mathlib.Core.Path.{subst}
use concurrent_flight_bookin.Prelude.{
  ℕ, ◌≡◌, count-update_where, Bool-cases, refl, List, [], ◌∷◌, Text, arith, count_where, inl, inr,
  true, ◌⊎◌, update_where, All, ◌==◌, Option, map,
}
use concurrent_flight_bookin.Domain.Enums.{SeatStatus, BookingState, AuditEventType}
use concurrent_flight_bookin.Domain.Models.{Booking, Payment, SeatInventory}
use concurrent_flight_bookin.Domain.States.{assert_can_transition}
use concurrent_flight_bookin.Holds.{release_seats_for_booking, belongs_to, live_ticket_of}
use concurrent_flight_bookin.Holds.Release.{cleared, voided}
use concurrent_flight_bookin.Payments.{PaymentGateway, Reply, done, timed_out, refund_refused}
use concurrent_flight_bookin.Saga.Session.{◌>>=◌, World, Outcome, ok, raised}
use concurrent_flight_bookin.Saga.Unwind.{
  compensate, compensation_done, compensation_failed, reverse, after_reversal, fail_payment,
  unpinned, is_captured,
}

pub unpinned_all :
    (b : ℕ) (seats : List SeatInventory)
    → count_where (belongs_to b) (update_where (belongs_to b) unpinned seats) ≡ 0
unpinned_all b [] = refl
unpinned_all b (s ∷ seats) = ground (arith, unpinned_all b seats)

-- Every row under the booking's id is the booking as it is returned.
abbrev pub IsRow : Booking → List Booking → Type 0
IsRow b bookings = All (λ x. (x.id == b.id) ≡ true → x ≡ b) bookings

saved-IsRow :
    (b : Booking) (bookings : List Booking)
    → IsRow b (update_where (λ x. x.id == b.id) (λ _. b) bookings)
saved-IsRow b [] = tt
saved-IsRow b (x ∷ bookings) = elim (Bool-cases (x.id == b.id)) [
  | inl here ↦ rw here (λ e. refl, saved-IsRow b bookings)
  | inr past ↦ rw past (λ e. cc, saved-IsRow b bookings)
]

-- The rows with an id.
abbrev pub rows_of : ℕ → List Booking → ℕ
rows_of booking_id bookings = count_where (λ x. x.id == booking_id) bookings

pub saved-rows_of :
    (i : ℕ) (b : Booking) (bookings : List Booking)
    → rows_of i (update_where (λ x. x.id == b.id) (λ _. b) bookings) ≡ rows_of i bookings
saved-rows_of i b bookings =
    count-update_where (λ x. x.id == i) (λ x. x.id == b.id) (λ _. b) bookings (λ x e. ground arith)

module _ {G : Type 0} (gateway : PaymentGateway G) where
  -- The two ends of a compensation.
  abbrev pub Unwound : ℕ → ℕ → Outcome Booking × World G → Type 0
  Unwound booking_id rows (ok b, w') =
      ((b.state ≡ BookingState.voided) ⊎ (b.state ≡ BookingState.needs_manual_review))
      × (b.id ≡ booking_id)
      × (count_where (belongs_to booking_id) w'.saved.seats ≡ 0)
      × (count_where (live_ticket_of booking_id) w'.saved.tickets ≡ 0)
      × (w'.saved ≡ w'.db)
      × IsRow b w'.saved.bookings
      × (rows_of booking_id w'.saved.bookings ≡ rows)
  Unwound booking_id rows (raised e, w') = ⊥

  done-Unwound :
      (now : ℕ) (booking : Booking) (payment : Payment) (w : World G)
      → booking.state ≡ BookingState.compensating
      → Unwound booking.id
          (rows_of booking.id w.db.bookings)
          (compensation_done gateway now booking payment w)
  unfolding compensation_done release_seats_for_booking assert_can_transition
  done-Unwound now booking payment w h = ground (
    arith,
    cleared booking.id w.db.seats,
    voided now booking.id w.db.tickets,
    saved-rows_of booking.id (record booking { state = BookingState.voided }) w.db.bookings,
    saved-IsRow (record booking { state = BookingState.voided }) w.db.bookings,
  )

  failed-Unwound :
      (now : ℕ) (booking : Booking) (w : World G)
      → Unwound booking.id
          (rows_of booking.id w.db.bookings)
          (compensation_failed gateway now booking w)
  unfolding compensation_failed release_seats_for_booking
  failed-Unwound now booking w = ground (
    arith,
    cleared booking.id w.db.seats,
    voided now booking.id w.db.tickets,
    saved-rows_of booking.id (record booking { state = BookingState.needs_manual_review })
        w.db.bookings,
    saved-IsRow (record booking { state = BookingState.needs_manual_review }) w.db.bookings,
  )

  reversed-Unwound :
      (now : ℕ) (booking : Booking) (payment : Payment) (r : Reply (Unit {0})) (w : World G)
      → booking.state ≡ BookingState.compensating
      → Unwound booking.id
          (rows_of booking.id w.db.bookings)
          (after_reversal gateway now booking payment r w)
  reversed-Unwound now booking payment (done _) w h = done-Unwound now booking payment w h
  reversed-Unwound now booking payment timed_out w h = failed-Unwound now booking w
  reversed-Unwound now booking payment refund_refused w h = failed-Unwound now booking w

  reverse-Unwound :
      (now rows : ℕ) (booking : Booking) (payment : Payment) (w : World G)
      → booking.state ≡ BookingState.compensating
      → rows_of booking.id w.db.bookings ≡ rows
      → Unwound booking.id rows (
          (reverse gateway payment >>= λ reply. after_reversal gateway now booking payment reply) w)
  unfolding reverse
  reverse-Unwound now rows booking payment w h e =
      subst
        (λ n. Unwound booking.id n (
          (reverse gateway payment >>= λ reply. after_reversal gateway now booking payment reply)
            w))
        e
        (elim (Bool-cases (is_captured payment.state)) [
          | inl taken ↦ rw (taken, reverse) (reversed-Unwound now booking payment _ _ h)
          | inr open_ ↦ rw (open_, reverse) (reversed-Unwound now booking payment _ _ h)
        ])

  -- A compensation that starts from an authorized payment always ends committed, whatever the gateway answers: the
  -- booking is VOIDED or NEEDS_MANUAL_REVIEW, as it is returned and in its row, and it has no seat and no live ticket left.
  pub compensate-Unwound :
      (now : ℕ) (booking : Booking) (payment : Payment) (card_token : Text) (w : World G)
      → booking.state ≡ BookingState.payment_authorized
      → Unwound booking.id
          (rows_of booking.id w.db.bookings)
          (compensate gateway now booking payment card_token w)
  unfolding compensate assert_can_transition
  compensate-Unwound now booking payment card_token w h =
      let undoing : Booking = record booking { state = BookingState.compensating } in
      simp h (
        reverse-Unwound now (rows_of booking.id w.db.bookings) undoing payment _ refl
          (ground (arith, saved-rows_of booking.id undoing w.db.bookings)))

-- The hold of a seat: its id, status, holder, hold and expiry.
abbrev pub Hold : Type 0
Hold = ℕ × SeatStatus × Option ℕ × Option ℕ × Option ℕ

abbrev pub hold_of : SeatInventory → Hold
hold_of s = (s.id, s.status, s.held_by_user_id, s.hold_id, s.hold_expires_at)

kept_holds :
    (b : ℕ) (seats : List SeatInventory)
    → map hold_of (update_where (belongs_to b) unpinned seats) ≡ map hold_of seats
kept_holds b [] = refl
kept_holds b (s ∷ seats) = ground (arith, kept_holds b seats)

-- A declined or blocked payment, from PENDING, commits PAYMENT_FAILED in the booking's row; every seat keeps its status,
-- holder, hold and expiry, and none points at the booking any more; no ticket changes.
pub fail_payment_keeps_holds :
    {G : Type 0} (booking : Booking) (event : AuditEventType) (w : World G)
    → booking.state ≡ BookingState.pending
    → let (r, w') = fail_payment booking event w in
      let failed : Booking = record booking { state = BookingState.payment_failed } in
      (r ≡ ok failed)
      × IsRow failed w'.saved.bookings
      × (rows_of booking.id w'.saved.bookings ≡ rows_of booking.id w.db.bookings)
      × (map hold_of w'.saved.seats ≡ map hold_of w.db.seats)
      × (count_where (belongs_to booking.id) w'.saved.seats ≡ 0)
      × (w'.saved.tickets ≡ w.db.tickets)
      × (w'.gateway ≡ w.gateway)
unfolding fail_payment assert_can_transition
fail_payment_keeps_holds booking event w h = ground (
  arith,
  kept_holds booking.id w.db.seats,
  saved-IsRow (record booking { state = BookingState.payment_failed }) w.db.bookings,
  saved-rows_of booking.id (record booking { state = BookingState.payment_failed }) w.db.bookings,
  unpinned_all booking.id w.db.seats,
)

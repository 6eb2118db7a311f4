-- ===== src/Saga/Oversell/Others.antt =====
-- The hold service, the sweep and a cancellation keep tickets and seats in step too.
use concurrent_flight_bookin.Prelude.{
  ℕ, ◌+◌, refl, inl, inr, Bool, Option, none, some, List, [], ◌∷◌, arith, first, Text, ◌&&◌,
}
use concurrent_flight_bookin.Config.{Settings, seconds}
use concurrent_flight_bookin.Domain.Enums.{BookingState, AuditEventType}
use concurrent_flight_bookin.Domain.Models.{Booking, Payment, SeatInventory, Ticket}
use concurrent_flight_bookin.Domain.States.{assert_can_transition}
use concurrent_flight_bookin.Holds.{
  acquire_hold, take_seat, release_hold, sweep_expired_holds, release_seats_for_booking, is_seat,
  takeable, held_for, upper, ttl_or, releasable, freed, sweepable,
}
use concurrent_flight_bookin.Holds.Schema.{Call, acquires, releases, sweeps, step, run_calls}
use concurrent_flight_bookin.Payments.{PaymentGateway}
use concurrent_flight_bookin.Saga.Session.{
  World, Action, ◌>>=◌, ◌>>◌, pure, read, modify, raise_if_some, journal, save_booking, commit,
}
use concurrent_flight_bookin.Saga.Unwind.{
  cancel, refund_booking, flag_for_review, refundable, release_seats, released_count,
}
use concurrent_flight_bookin.Saga.Verified.{guard-cases}
use concurrent_flight_bookin.Saga.Ending.{ended}
use concurrent_flight_bookin.Saga.Oversell.{AllSold, IsSold, BothSold, DistinctIds}
use concurrent_flight_bookin.Saga.Oversell.Tables.{
  DistinctIds-update_where, acquire_hold-AllSold, release_hold-AllSold, sweep-AllSold,
  release_seats-IsSold,
}

SeatsSold : List SeatInventory → List Ticket → Type 0
SeatsSold seats tickets = DistinctIds seats × AllSold seats tickets

acquire_hold-DistinctIds :
    (settings : Settings) (now hold_id user_id flight_id : ℕ) (seat_no : Text) (ttl : Option ℕ)
    (seats : List SeatInventory)
    → DistinctIds seats
    → DistinctIds (acquire_hold settings now hold_id user_id flight_id seat_no ttl seats).1
unfolding acquire_hold take_seat
acquire_hold-DistinctIds settings now hold_id user_id flight_id seat_no ttl seats h x = ground (
  arith,
  h x,
  DistinctIds-update_where (λ s. is_seat flight_id (upper seat_no) s && takeable now s)
      (held_for user_id hold_id (now + seconds (ttl_or ttl settings.hold_ttl_seconds))) seats
      (λ s. refl) h x,
)

step-SeatsSold :
    (settings : Settings) (c : Call) (seats : List SeatInventory) (tickets : List Ticket)
    → SeatsSold seats tickets
    → SeatsSold (step settings c seats) tickets
unfolding SeatsSold step release_hold sweep_expired_holds
step-SeatsSold settings (acquires now hold_id user_id flight_id seat_no ttl) seats tickets h = (
  acquire_hold-DistinctIds settings now hold_id user_id flight_id seat_no ttl seats h.0,
  acquire_hold-AllSold settings now hold_id user_id flight_id seat_no ttl seats tickets h.1,
)
step-SeatsSold settings (releases hold_id user_id) seats tickets h = (
  DistinctIds-update_where (releasable hold_id (some user_id)) freed seats (λ s. refl) h.0,
  release_hold-AllSold hold_id (some user_id) seats tickets h.1,
)
step-SeatsSold settings (sweeps now) seats tickets h = (
  DistinctIds-update_where (sweepable now) freed seats (λ s. refl) h.0,
  sweep-AllSold now seats tickets h.1,
)

run_calls-SeatsSold :
    (settings : Settings) (cs : List Call) (seats : List SeatInventory) (tickets : List Ticket)
    → SeatsSold seats tickets
    → SeatsSold (run_calls settings cs seats) tickets
unfolding run_calls
run_calls-SeatsSold settings [] seats tickets h = h
run_calls-SeatsSold settings (c ∷ cs) seats tickets h =
    run_calls-SeatsSold settings cs (step settings c seats) tickets
      (step-SeatsSold settings c seats tickets h)

module _ {G : Type 0} (gateway : PaymentGateway G) where
  refund_booking-BothSold :
      (booking : Booking) (payment : Option Payment) (w : World G)
      → BothSold w
      → BothSold (refund_booking gateway booking payment w).1
  unfolding refund_booking flag_for_review
  refund_booking-BothSold booking none w h = h
  refund_booking-BothSold booking (some payment) w h = ground arith

  -- The rest of `cancel`.
  abbrev let_go : ℕ → Booking → Bool → Action G (Booking × Bool × ℕ)
  let_go now booking refunded = do
    released ← read (released_count now booking.id)
    modify (release_seats now booking.id)
    raise_if_some (assert_can_transition booking.state BookingState.cancelled)
    modify (
        journal booking.id AuditEventType.booking_cancelled (some booking.state)
          (some BookingState.cancelled))
    let gone = record booking { state = BookingState.cancelled }
    modify (save_booking gone)
    commit
    pure (gone, refunded, released)

  let_go-IsSold :
      (now : ℕ) (booking : Booking) (refunded : Bool) (w : World G)
      → BothSold w
      → IsSold (let_go now booking refunded w).1.saved
  unfolding release_seats_for_booking
  let_go-IsSold now booking refunded w h =
      let after = release_seats-IsSold now booking.id w.db h.0 in
      elim (guard-cases booking.state BookingState.cancelled) [
        | inl passes ↦ rw passes after
        | inr fails ↦ rw fails h.1
      ]

  cancel-IsSold :
      (now : ℕ) (booking : Booking) (w : World G)
      → BothSold w
      → IsSold (cancel gateway now booking w).1.saved
  unfolding cancel
  cancel-IsSold now booking w h =
      let refunded =
        refund_booking-BothSold booking (first (refundable booking.id) w.db.payments) w h in
      ended (λ x. IsSold x.1.saved)
        (refund_booking gateway booking (first (refundable booking.id) w.db.payments) w)
        (let_go now booking) (λ b w' e. let_go-IsSold now booking b w' (rw e at refunded))
        (λ x w' e. (rw e at refunded).1)

  -- Nothing else sells a seat twice: if each live ticket is for a seat that is booked for the ticket's booking, then so it
  -- is after any history of holds, releases and sweeps, and after the cancellation of any booking, however that ends.
  pub run_calls-cancel-IsSold :
      (settings : Settings) (cs : List Call) (now : ℕ) (booking : Booking) (w : World G)
      → BothSold w
      → IsSold (record w.db { seats = run_calls settings cs w.db.seats })
        × IsSold (cancel gateway now booking w).1.saved
  unfolding SeatsSold
  run_calls-cancel-IsSold settings cs now booking w h =
      (run_calls-SeatsSold settings cs w.db.seats w.db.tickets h.0, cancel-IsSold now booking w h)

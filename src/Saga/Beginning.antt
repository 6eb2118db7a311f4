-- ===== src/Saga/Beginning.antt =====
-- Step 1 of the saga: all or nothing, and nothing is charged.
use concurrent_flight_bookin.Prelude.{
  ℕ, ◌+◌, ◌≡◌, arith, length, count_where, some, Text, ◌∷◌, ◌++◌, map, update_where,
}
use concurrent_flight_bookin.Errors.{Exc}
use concurrent_flight_bookin.Domain.Enums.{Decision, BookingState}
use concurrent_flight_bookin.Domain.Models.{Db}
use concurrent_flight_bookin.Payments.{PaymentGateway}
use concurrent_flight_bookin.Saga.Session.{World, Outcome, ok, raised}
use concurrent_flight_bookin.Saga.Begin.{
  Draws, BookingCreate, Begun, begin_booking, lock_seats_for_holds, is_expired, single_flight,
  sum_prices, passenger_rows, order_by_row,
}
use concurrent_flight_bookin.Saga.Ticketing.{elem}
use concurrent_flight_bookin.Saga.{run}

abbrev KeepsOnRaise : {G A : Type 0} → World G → Outcome A × World G → Type 0
KeepsOnRaise w (ok _, w') = w'.gateway ≡ w.gateway
KeepsOnRaise w (raised _, w') = (w'.saved ≡ w.saved) × (w'.gateway ≡ w.gateway)

begin_booking-Keeps :
    {G : Type 0} (draws : Draws) (user_id : ℕ) (payload : BookingCreate) (key : Text) (w : World G)
    → KeepsOnRaise w (begin_booking draws user_id payload key w)
unfolding begin_booking
begin_booking-Keeps draws user_id payload key w = ground arith

-- A run that step 1 refuses raises the same exception, commits nothing and never reaches the gateway, whatever fraud
-- control and other sessions would have done later.
run_refused :
    {G : Type 0} (gateway : PaymentGateway G) (draws : Draws) (user_id : ℕ)
    (payload : BookingCreate) (key fingerprint : Text) (decision : Decision) (others : Db → Db)
    (e : Exc) (w : World G)
    → (begin_booking draws user_id payload key w).0 ≡ raised e
    → let (r, w') = run gateway draws user_id payload key fingerprint decision others w in
      (r ≡ raised e) × (w'.saved ≡ w.saved) × (w'.gateway ≡ w.gateway)
unfolding run
run_refused gateway draws user_id payload key fingerprint decision others e w h =
    ground (arith, begin_booking-Keeps draws user_id payload key w)

-- What a run of step 1 has established, by how it ended.
abbrev pub Checked :
    {G : Type 0} → Draws → ℕ → BookingCreate → World G → Outcome Begun × World G → Type 0
Checked draws user_id payload w (ok begun, w') =
    let seats = lock_seats_for_holds payload.hold_ids user_id w.db.seats in
    (length seats ≡ length payload.hold_ids)
    × (count_where (is_expired draws.checked_at) seats ≡ 0)
    × (single_flight seats ≡ some begun.booking.flight_id)
    × (begun.booking.total_amount ≡ sum_prices seats)
    × (begun.booking.state ≡ BookingState.pending)
    × (begun.booking.user_id ≡ user_id)
    × (w'.saved ≡ w'.db)
    × (w'.gateway ≡ w.gateway)
    × (begun.booking.id ≡ draws.booking_id)
    × (passenger_rows draws.booking_id draws.passenger_id 0 payload.passengers (order_by_row seats)
        ≡ some begun.rows)
    × (w'.db.bookings ≡ begun.booking ∷ w.db.bookings)
    × (w'.db.passengers ≡ begun.rows ++ w.db.passengers)
    × (w'.db.seats
        ≡ update_where (λ s. elem s.id (map (λ t. t.id) (order_by_row seats)))
            (λ s. record s { booking_id = some draws.booking_id; version = s.version + 1 })
            w.db.seats)
    × (w'.db.tickets ≡ w.db.tickets)
    × (w'.db.payments ≡ w.db.payments)
Checked draws user_id payload w (raised e, w') = (w'.saved ≡ w.saved) × (w'.gateway ≡ w.gateway)

pub begin_booking-Checked :
    {G : Type 0} (draws : Draws) (user_id : ℕ) (payload : BookingCreate) (key : Text) (w : World G)
    → Checked draws user_id payload w (begin_booking draws user_id payload key w)
unfolding begin_booking
begin_booking-Checked draws user_id payload key w = ground arith

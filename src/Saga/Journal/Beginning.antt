-- ===== src/Saga/Journal/Beginning.antt =====
-- Step 1, as the journal tells it.
use concurrent_flight_bookin.Prelude.{
  ℕ, List, ◌∷◌, ◌≡◌, refl, inl, none, some, [], Text, arith, ◌==◌, count_where,
}
use concurrent_flight_bookin.Domain.Enums.{BookingState, AuditEventType}
use concurrent_flight_bookin.Domain.Models.{Db, Booking}
use concurrent_flight_bookin.Saga.Session.{World, Outcome, ok, raised, journal}
use concurrent_flight_bookin.Saga.Begin.{Draws, BookingCreate, Begun, begin_booking}
use concurrent_flight_bookin.Saga.Steps.{is_astray}
use concurrent_flight_bookin.Saga.Journal.{WalksTo, Told}
use concurrent_flight_bookin.Saga.Journal.Entries.{note-WalksTo, first-WalksTo}
use concurrent_flight_bookin.Saga.Journal.Tickets.{Journaled}

-- No booking and no entry of a journal has this id yet.
abbrev pub Unused : ℕ → Db → Type 0
Unused b db =
    (count_where (λ x. x.id == b) db.bookings ≡ 0)
    × (count_where (λ r. r.booking_id == b) db.audit ≡ 0)

no_rows-InState :
    (b : ℕ) (states : List BookingState) (bookings : List Booking)
    → count_where (λ x. x.id == b) bookings ≡ 0
    → count_where (is_astray b states) bookings ≡ 0
no_rows-InState b states [] h = refl
no_rows-InState b states (x ∷ bookings) h = ground (arith, no_rows-InState b states bookings)

module _ {G : Type 0} where
  abbrev pub BegunJournaled : Draws → World G → Outcome Begun × World G → Type 0
  BegunJournaled draws w (ok begun, w') =
      (begun.booking.id ≡ draws.booking_id) × Journaled draws.booking_id begun.booking.state w'
  BegunJournaled draws w (raised e, w') = w'.saved ≡ w.saved

  -- What step 1 writes to the bookings and the journal.
  abbrev pub Entered : Draws → World G → Outcome Begun × World G → Type 0
  Entered draws w (ok begun, w') =
      (begun.booking.id ≡ draws.booking_id)
      × (begun.booking.state ≡ BookingState.pending)
      × (w'.saved ≡ w'.db)
      × (w'.db.bookings ≡ begun.booking ∷ w.db.bookings)
      × (w'.db.audit
          ≡ (journal draws.booking_id AuditEventType.seats_locked none none (
              journal draws.booking_id AuditEventType.booking_created none
                (some BookingState.pending) w.db)).audit)
  Entered draws w (raised e, w') = w'.saved ≡ w.saved

  pub begin_booking-Entered :
      (draws : Draws) (user_id : ℕ) (payload : BookingCreate) (key : Text) (w : World G)
      → Entered draws w (begin_booking draws user_id payload key w)
  unfolding begin_booking
  begin_booking-Entered draws user_id payload key w = ground arith

  Entered-Told :
      (draws : Draws) (begun : Begun) (w w' : World G)
      → Unused draws.booking_id w.db
      → Entered draws w (ok begun, w')
      → Told draws.booking_id begun.booking.state w'.db
  Entered-Told draws begun w w' unused e =
      let b = draws.booking_id in
      let walk : WalksTo b BookingState.pending (
          journal b AuditEventType.seats_locked none none
            (journal b AuditEventType.booking_created none (some BookingState.pending) w.db)) =
        note-WalksTo b BookingState.pending AuditEventType.seats_locked
          (journal b AuditEventType.booking_created none (some BookingState.pending) w.db)
          (first-WalksTo b AuditEventType.booking_created w.db unused.1) in
      rw (e.1, e.3, e.4)
        (
          walk,
          ground (
            arith,
            e.1,
            no_rows-InState draws.booking_id (BookingState.pending ∷ []) w.db.bookings unused.0,
          ),
        )

  pub begin_booking-BegunJournaled :
      (draws : Draws) (w : World G) (r : Outcome Begun × World G)
      → Unused draws.booking_id w.db
      → Entered draws w r
      → BegunJournaled draws w r
  begin_booking-BegunJournaled draws w (raised x, w') unused e = e
  begin_booking-BegunJournaled draws w (ok begun, w') unused e =
      let told = Entered-Told draws begun w w' unused e in
      (e.0, (told, rw e.2 (inl (begun.booking.state, told))))

-- ===== src/Saga/Journal/Entries.antt =====
-- One entry of the journal: a note, or a move that the booking's row follows.
use concurrent_flight_bookin.Prelude.{
  ℕ, ◌≡◌, none, some, List, [], ◌∷◌, arith, ◌==◌, count_where, true,
}
use concurrent_flight_bookin.Domain.Enums.{BookingState, AuditEventType}
use concurrent_flight_bookin.Domain.Models.{Db, Booking, BookingAudit, SeatInventory}
use concurrent_flight_bookin.Domain.States.{assert_can_transition}
use concurrent_flight_bookin.Audit.{record_audit}
use concurrent_flight_bookin.Saga.Session.{journal, save_booking}
use concurrent_flight_bookin.Saga.Steps.{saved-InState}
use concurrent_flight_bookin.Saga.Ticketing.{journal_reclaimed}
use concurrent_flight_bookin.Saga.Journal.{replay, is_walk, WalksTo, Told}

pub note-WalksTo :
    (b : ℕ) (s : BookingState) (event : AuditEventType) (db : Db)
    → WalksTo b s db
    → WalksTo b s (journal b event none none db)
unfolding record_audit
note-WalksTo b s event db h = ground arith

pub note-Told :
    (b : ℕ) (s : BookingState) (event : AuditEventType) (db : Db)
    → Told b s db
    → Told b s (journal b event none none db)
note-Told b s event db h = (note-WalksTo b s event db h.0, h.1)

pub journal_reclaimed-Told :
    (now : ℕ) (booking : Booking) (user_id : ℕ) (s : BookingState) (seats : List SeatInventory)
    (db : Db)
    → Told booking.id s db
    → Told booking.id s (journal_reclaimed now booking user_id seats db)
unfolding journal_reclaimed
journal_reclaimed-Told now booking user_id s [] db h = h
journal_reclaimed-Told now booking user_id s (x ∷ seats) db h = ground (
  arith,
  journal_reclaimed-Told now booking user_id s seats db,
  journal_reclaimed-Told now booking user_id s seats
      (journal booking.id AuditEventType.hold_lost none none db),
  note-Told booking.id s AuditEventType.hold_lost db h,
)

move-WalksTo :
    (b : ℕ) (s t : BookingState) (event : AuditEventType) (db : Db)
    → assert_can_transition s t ≡ none
    → WalksTo b s db
    → WalksTo b t (journal b event (some s) (some t) db)
unfolding record_audit assert_can_transition
move-WalksTo b s t event db passes h = ground arith

-- A move that the guard lets through, with the booking's row.
pub move-Told :
    (booking : Booking) (t : BookingState) (event : AuditEventType) (db : Db)
    → assert_can_transition booking.state t ≡ none
    → Told booking.id booking.state db
    → Told booking.id t (
        save_booking
          (record booking { state = t })
          (journal booking.id event (some booking.state) (some t) db))
move-Told booking t event db passes h = (
  move-WalksTo booking.id booking.state t event db passes h.0,
  saved-InState (record booking { state = t }) (t ∷ []) db.bookings (ground arith),
)

-- The first entry of a booking.
unwritten :
    (b : ℕ) (rows : List BookingAudit)
    → count_where (λ r. r.booking_id == b) rows ≡ 0
    → (replay b rows ≡ none) × (is_walk b rows ≡ true)
unwritten b [] h = ground arith
unwritten b (r ∷ rows) h = ground (arith, unwritten b rows)

pub first-WalksTo :
    (b : ℕ) (event : AuditEventType) (db : Db)
    → count_where (λ r. r.booking_id == b) db.audit ≡ 0
    → WalksTo b BookingState.pending (journal b event none (some BookingState.pending) db)
unfolding record_audit
first-WalksTo b event db h = ground (arith, unwritten b db.audit h)

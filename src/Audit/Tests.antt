-- ===== src/Audit/Tests.antt =====
-- A concrete history for the theorem of the journal.
use concurrent_flight_bookin.Prelude.{◌≡◌, none, some, List, [], ◌∷◌, ◌==◌, count_where}
use concurrent_flight_bookin.Domain.Enums.{BookingState, AuditEventType}
use concurrent_flight_bookin.Audit.Gapless.{Entry, record_all, record_all-seqs, seqs, countdown}

abbrev entries : List Entry
entries =
    record {
      booking_id = 5;
      event_type = AuditEventType.booking_created;
      from_state = none;
      to_state = some BookingState.pending;
    }
    ∷ record {
      booking_id = 6;
      event_type = AuditEventType.booking_created;
      from_state = none;
      to_state = some BookingState.pending;
    }
    ∷ record {
      booking_id = 5;
      event_type = AuditEventType.seats_locked;
      from_state = none;
      to_state = none;
    }
    ∷ []

record_all-seqs_example :
    seqs 5 (record_all entries []) ≡ countdown (count_where (λ e. e.booking_id == 5) entries)
record_all-seqs_example = record_all-seqs 5 entries

-- ===== src/Audit.antt =====
-- app/services/audit.py: the append-only journal of each booking. The newest row stands first in the table.
pub mod Gapless
mod Tests
use concurrent_flight_bookin.Prelude.{ℕ, ◌+◌, Option, List, [], ◌∷◌, ◌==◌, if◌then◌else◌}
use Prim.Native.Nat.{max}
use concurrent_flight_bookin.Domain.Enums.{BookingState, AuditEventType}
use concurrent_flight_bookin.Domain.Models.{BookingAudit}

-- `coalesce(max(seq), 0) ... WHERE booking_id = b`
unfoldable pub max_seq : ℕ → List BookingAudit → ℕ
max_seq b [] = 0
max_seq b (r ∷ rows) =
    let rest = max_seq b rows in if r.booking_id == b then max r.seq rest else rest

unfoldable pub record_audit :
    ℕ
    → AuditEventType
    → Option BookingState
    → Option BookingState
    → List BookingAudit
    → List BookingAudit
unfolding max_seq
record_audit booking_id event_type from_state to_state rows = row ∷ rows
  where
    row : BookingAudit
    row = record {
      booking_id = booking_id;
      seq = max_seq booking_id rows + 1;
      event_type = event_type;
      from_state = from_state;
      to_state = to_state;
    }

-- ===== src/Saga/Journal/Tests.antt =====
-- A run whose journal is read back, while another session books.
use concurrent_flight_bookin.Prelude.{◌≡◌, refl, ◌⊎◌, false, none, some, [], ◌∷◌, arith}
use concurrent_flight_bookin.Audit.{record_audit}
use concurrent_flight_bookin.Domain.Enums.{
  BookingState, AuditEventType, Decision, allowed_transitions,
}
use concurrent_flight_bookin.Domain.Models.{Db}
use concurrent_flight_bookin.Payments.Fake.{fake_gateway}
use concurrent_flight_bookin.Saga.{run}
use concurrent_flight_bookin.Saga.Session.{journal}
use concurrent_flight_bookin.Saga.Sample.{world, draws, request}
use concurrent_flight_bookin.Saga.Journal.{Told, Truthful, is_walk}
use concurrent_flight_bookin.Saga.Journal.Run.{run-Truthful}

-- Another booking begins.
abbrev begins : Db → Db
begins = journal 95 AuditEventType.booking_created none (some BookingState.pending)

begins-Told : (s : BookingState) (db : Db) → Told 90 s db → Told 90 s (begins db)
unfolding record_audit
begins-Told s db h = ground arith

run-Truthful_example :
    let w' = (run fake_gateway draws 4 (request 41) (b'k' ∷ []) [] Decision.allow begins world).1 in
    (w'.saved ≡ world.saved) ⊎ Truthful 90 w'.saved
run-Truthful_example =
    run-Truthful fake_gateway draws 4 (request 41) (b'k' ∷ []) [] Decision.allow begins world
      begins-Told (refl, refl)

-- A transition that skips a state is no walk.
skips :
    is_walk 90 (
      record_audit 90 AuditEventType.booking_confirmed
        (some BookingState.pending)
        (some BookingState.confirmed)
        (record_audit 90 AuditEventType.booking_created none (some BookingState.pending) []))
    ≡ false
unfolding record_audit allowed_transitions
skips = refl

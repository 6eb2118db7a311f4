-- ===== src/Bookings.antt =====
-- app/api/bookings.py: the routes that make, amend and cancel a booking, around the saga and the idempotency keys. The key's header
-- and the body are validated before; the digest of the body, the JSON of an answer (`render` for a booking, `problem` for an
-- error) and what other sessions do are arguments. A request starts with nothing pending in its session.
pub mod Replay
pub mod Amend
pub mod Pages
mod Tests
use concurrent_flight_bookin.Prelude.{
  ℕ, suc, Bool, true, false, not, ◌&&◌, Option, none, some, List, [], ◌∷◌, Text, ◌==◌,
  if◌then◌else◌, is_null, select, count_where, update_where,
}
use concurrent_flight_bookin.Errors.{Exc, AppError, status_code}
use concurrent_flight_bookin.Config.{Settings}
use concurrent_flight_bookin.Domain.Enums.{BookingState, AuditEventType, Decision}
use concurrent_flight_bookin.Domain.Models.{Db, Booking, BookingPassenger, IdempotencyKey}
use concurrent_flight_bookin.Domain.States.{require_state}
use concurrent_flight_bookin.Idempotency.{
  Claim, claimed, replayed, refused, begin, complete, release,
}
use concurrent_flight_bookin.Payments.{PaymentGateway}
use concurrent_flight_bookin.Saga.{run}
use concurrent_flight_bookin.Saga.Begin.{Draws, BookingCreate}
use concurrent_flight_bookin.Saga.Session.{
  World, Action, Outcome, ok, raised, pure, raise, ◌>>=◌, ◌>>◌, commit, read, modify, raise_if_some,
  journal,
}
use concurrent_flight_bookin.Saga.Unwind.{cancel}

-- An answer with its status and body, marked if it is replayed, or a 500.
pub data Response : Type 0 where
  answered : Bool → ℕ → Text → Response
  failed : Exc → Response

-- What the routes work on: a session with its tables and the gateway, and the table of the keys.
pub record Server (G : Type 0) : Type 0 where
  pub world : World G
  pub keys : List IdempotencyKey

-- One request to POST /bookings, and what it meets.
pub record CreateRequest : Type 0 where
  pub now : ℕ
  pub user_id : ℕ
  pub key : Text
  pub digest : Text
  pub payload : BookingCreate
  pub fingerprint : Text
  pub draws : Draws
  pub decision : Decision
  pub others : Db → Db

-- "POST /bookings"
abbrev pub post_bookings : Text
post_bookings =
    b'P' ∷ b'O' ∷ b'S' ∷ b'T' ∷ b' ' ∷ b'/' ∷ b'b' ∷ b'o' ∷ b'o' ∷ b'k' ∷ b'i' ∷ b'n' ∷ b'g' ∷ b's'
    ∷ []

abbrev pub rolled_back : {G : Type 0} → World G → World G
rolled_back w = record w { db = w.saved }

abbrev pub committed : {G : Type 0} → World G → World G
committed w = record w { saved = w.db }

module _ {G : Type 0} (settings : Settings) (gateway : PaymentGateway G) (render : Booking → Text)
    (problem : AppError → Text) where
  -- The handler of AppError in app/errors.py.
  abbrev pub error_response : Exc → Response
  error_response (Exc.app e) = answered false (status_code e) (problem e)
  error_response e = failed e

  abbrev pub store_answer :
      CreateRequest → ℕ → Text → World G → List IdempotencyKey → Response × Server G
  store_answer q status body w keys = (
    answered false status body,
    record { world = committed w; keys = complete q.key q.user_id status body keys },
  )

  -- What follows the saga, by how it ended.
  abbrev pub after_run :
      CreateRequest → List IdempotencyKey → Outcome Booking × World G → Response × Server G
  after_run q keys (ok b, w) = store_answer q 201 (render b) w keys
  after_run q keys (raised (Exc.app e), w) =
      store_answer q (status_code e) (problem e) (rolled_back w) keys
  after_run q keys (raised e, w) =
      (failed e, record { world = committed (rolled_back w); keys = release q.key q.user_id keys })

  abbrev pub run_request : CreateRequest → World G → Outcome Booking × World G
  run_request q w =
      run gateway q.draws q.user_id q.payload q.key q.fingerprint q.decision q.others w

  abbrev pub after_begin :
      CreateRequest → World G → Claim × List IdempotencyKey → Response × Server G
  after_begin q w (claimed, keys) = after_run q keys (run_request q w)
  after_begin q w (replayed r, keys) =
      (answered true r.replay_status r.replay_body, record { world = w; keys = keys })
  after_begin q w (refused e, keys) = (error_response e, record { world = w; keys = keys })

  unfoldable pub create_booking :
      (List IdempotencyKey → List IdempotencyKey) → CreateRequest → Server G → Response × Server G
  create_booking others q s =
      after_begin q s.world
        (begin settings others q.now q.key q.user_id post_bookings q.digest s.keys)

-- PassengerUpdate
pub record PassengerUpdate : Type 0 where
  pub passenger_id : ℕ
  pub given_name : Option Text
  pub family_name : Option Text

-- `if update.given_name: ...`: neither None nor the empty text.
abbrev pub or_keep : Option Text → Text → Text
or_keep none old = old
or_keep (some []) old = old
or_keep (some (c ∷ s)) old = c ∷ s

abbrev pub amended : PassengerUpdate → BookingPassenger → BookingPassenger
amended u p = record p {
  given_name = or_keep u.given_name p.given_name;
  family_name = or_keep u.family_name p.family_name;
}

-- A passenger of this booking, by id.
abbrev pub is_passenger : ℕ → ℕ → BookingPassenger → Bool
is_passenger booking_id passenger_id p = p.booking_id == booking_id && p.id == passenger_id

-- The loop: the rows, and the number of changes so far.
unfoldable pub amend_all :
    ℕ → List PassengerUpdate → List BookingPassenger → List BookingPassenger × ℕ
amend_all booking_id [] rows = (rows, 0)
amend_all booking_id (u ∷ us) rows =
    let touched = is_passenger booking_id u.passenger_id in
    let rest = amend_all booking_id us (update_where touched (amended u) rows) in
    (rest.0, if count_where touched rows == 0 then rest.1 else suc rest.1)

abbrev pub amendable : List BookingState
amendable = BookingState.confirmed ∷ BookingState.ticketed ∷ []

module _ {G : Type 0} where
  unfoldable pub update_booking : Booking → List PassengerUpdate → Action G (Unit {0})
  update_booking booking updates = do
    raise_if_some (require_state booking.state amendable)
    changed ← read (λ db. amend_all booking.id updates db.passengers)
    modify (λ db. record db { passengers = changed.0 })
    (if changed.1 == 0
        then pure tt
        else modify (
            journal booking.id AuditEventType.passenger_updated (some booking.state)
              (some booking.state)))
    commit

module _ {G : Type 0} (gateway : PaymentGateway G) where
  unfoldable pub cancel_booking : ℕ → Booking → Action G (Booking × Bool × ℕ)
  cancel_booking now booking = do
    raise_if_some (require_state booking.state amendable)
    cancel gateway now booking

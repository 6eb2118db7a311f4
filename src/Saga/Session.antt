-- ===== src/Saga/Session.antt =====
-- What a request works on: its database session, the tables as last committed, and the gateway; and the steps that every
-- part of the saga uses. A call returns or raises, and what it wrote stays written in the session.
use concurrent_flight_bookin.Prelude.{
  ℕ, Bool, Option, none, some, if◌then◌else◌, update_where, ◌==◌,
}
use concurrent_flight_bookin.Errors.{Exc}
use concurrent_flight_bookin.Domain.Enums.{BookingState, AuditEventType}
use concurrent_flight_bookin.Domain.Models.{Db, Booking, Payment}
use concurrent_flight_bookin.Audit.{record_audit}
use concurrent_flight_bookin.Payments.{Reply}

pub record World (G : Type 0) : Type 0 where
  pub db : Db
  pub saved : Db
  pub gateway : G

pub data Outcome (A : Type 0) : Type 0 where
  ok : A → Outcome A
  raised : Exc → Outcome A

abbrev pub Action : Type 0 → Type 0 → Type 0
Action G A = World G → Outcome A × World G

module _ {G : Type 0} where
  abbrev pub pure : {A : Type 0} → A → Action G A
  pure a w = (ok a, w)

  abbrev pub raise : {A : Type 0} → Exc → Action G A
  raise e w = (raised e, w)

  infixl 5 ◌>>=◌ ◌>>◌
  abbrev pub ◌>>=◌ : {A B : Type 0} → Action G A → (A → Action G B) → Action G B
  ◌>>=◌ m f w = let (r, w') = m w in elim r [ ok a ↦ f a w' | raised e ↦ (raised e, w') ]

  abbrev pub ◌>>◌ : {A B : Type 0} → Action G A → Action G B → Action G B
  m >> k = m >>= λ _. k

  -- `session.commit()` and `session.rollback()`.
  abbrev pub commit : Action G (Unit {0})
  commit w = (ok tt, record w { saved = w.db })

  abbrev pub rollback : Action G (Unit {0})
  rollback w = (ok tt, record w { db = w.saved })

  abbrev pub read : {A : Type 0} → (Db → A) → Action G A
  read f w = (ok (f w.db), w)

  abbrev pub modify : (Db → Db) → Action G (Unit {0})
  modify f w = (ok tt, record w { db = f w.db })

  -- `if test: await session.rollback(); raise e`
  abbrev pub reject_if : Bool → Exc → Action G (Unit {0})
  reject_if test e w = if test then (raised e, record w { db = w.saved }) else (ok tt, w)

  abbrev pub raise_if_some : Option Exc → Action G (Unit {0})
  raise_if_some none w = (ok tt, w)
  raise_if_some (some e) w = (raised e, w)

  -- A call of the gateway, whose own exceptions are values here.
  abbrev pub call : {A : Type 0} → (G → Reply A × G) → Action G (Reply A)
  call f w = let (r, g) = f w.gateway in (ok r, record w { gateway = g })

-- The row of an ORM object is written as the object stands.
abbrev pub save_booking : Booking → Db → Db
save_booking b db = record db { bookings = update_where (λ x. x.id == b.id) (λ _. b) db.bookings }

abbrev pub save_payment : Payment → Db → Db
save_payment p db = record db { payments = update_where (λ x. x.id == p.id) (λ _. p) db.payments }

abbrev pub journal : ℕ → AuditEventType → Option BookingState → Option BookingState → Db → Db
journal booking_id event from_state to_state db = record db {
  audit = record_audit booking_id event from_state to_state db.audit;
}

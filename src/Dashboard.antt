-- ===== src/Dashboard.antt =====
-- app/api/dashboard.py: the read-only pages of the operator. A page is the data that its template is given; `now` and
-- `read_at` are as in HoldRoutes.
pub mod Agreement
mod Tests
use Prim.Native.Nat.{◌/◌}
use concurrent_flight_bookin.Prelude.{
  ℕ, ◌-◌, Bool, true, false, not, ◌&&◌, ◌||◌, Option, none, some, List, [], ◌∷◌, map, Text, ◌==◌,
  same, ltb, if◌then◌else◌, is_gt, is_null, length, take, select, first, count_where,
}
use concurrent_flight_bookin.Config.{Settings}
use concurrent_flight_bookin.Domain.Enums.{
  SeatStatus, seat_is, BookingState, booking_is, AuditEventType,
}
use concurrent_flight_bookin.Domain.Models.{Db, SeatInventory, Flight, User, Booking, BookingAudit}
use concurrent_flight_bookin.Holds.{hold_is_live}
use concurrent_flight_bookin.HoldRoutes.{order_by_expiry, seconds_until}
use concurrent_flight_bookin.Admin.{LoggedEvent, text_filter}

-- The operator's name, or the status of the refusal.
pub data DashboardUser : Type 0 where
  allowed : Text → DashboardUser
  turned_away : ℕ → DashboardUser

-- The user and the password of HTTP Basic, if the request has them.
abbrev pub check_credentials : Settings → Option (Text × Text) → DashboardUser
check_credentials settings none = turned_away 401
check_credentials settings (some (username, password)) =
    if same username settings.dashboard_user && same password settings.dashboard_password
    then allowed username
    else turned_away 401

unfoldable pub dashboard_auth : Settings → Option (Text × Text) → DashboardUser
dashboard_auth settings credentials =
    if not settings.dashboard_enabled
    then turned_away 404
    else check_credentials settings credentials

pub record Stats : Type 0 where
  pub active_holds : ℕ
  pub seats_booked : ℕ
  pub bookings_confirmed : ℕ
  pub needs_review : ℕ
  pub high_severity_events : ℕ
  pub flights : ℕ

abbrev pub high : Text
high = b'h' ∷ b'i' ∷ b'g' ∷ b'h' ∷ []

abbrev pub critical : Text
critical = b'c' ∷ b'r' ∷ b'i' ∷ b't' ∷ b'i' ∷ b'c' ∷ b'a' ∷ b'l' ∷ []

unfoldable pub stats : ℕ → Db → List LoggedEvent → Stats
stats now db events = record {
  active_holds = count_where (hold_is_live now) db.seats;
  seats_booked = count_where (λ s. seat_is s.status SeatStatus.booked) db.seats;
  bookings_confirmed = count_where (λ b. booking_is b.state BookingState.confirmed) db.bookings;
  needs_review = count_where (λ b. booking_is b.state BookingState.needs_manual_review) db.bookings;
  high_severity_events = count_where (λ e. same e.severity high || same e.severity critical) events;
  flights = length db.flights;
}

pub record HoldRow : Type 0 where
  pub seat_no : Text
  pub flight_no : Text
  pub src_iata : Text
  pub dst_iata : Text
  pub email : Text
  pub expires_at : Option ℕ
  pub seconds_remaining : ℕ
  pub attached_to_booking : Bool

-- The inner join with `flights`, and the outer join with `users`.
abbrev pub has_flight : List Flight → SeatInventory → Bool
has_flight flights s = ltb 0 (count_where (λ f. f.id == s.flight_id) flights)

abbrev pub no_name : Text
no_name = 8212 ∷ []

-- `email or "—"`
abbrev pub or_dash : Text → Text
or_dash [] = no_name
or_dash (c ∷ cs) = c ∷ cs

abbrev pub email_of : Option ℕ → List User → Text
email_of none users = no_name
email_of (some id) users = elim (first (λ u. u.id == id) users) [
  | none ↦ no_name
  | some u ↦ or_dash u.email
]

abbrev pub flight_column : (Flight → Text) → ℕ → List Flight → Text
flight_column column id flights = elim (first (λ f. f.id == id) flights) [
  | none ↦ []
  | some f ↦ column f
]

abbrev pub hold_row : ℕ → List Flight → List User → SeatInventory → HoldRow
hold_row read_at flights users s = record {
  seat_no = s.seat_no;
  flight_no = flight_column (λ f. f.flight_no) s.flight_id flights;
  src_iata = flight_column (λ f. f.src_iata) s.flight_id flights;
  dst_iata = flight_column (λ f. f.dst_iata) s.flight_id flights;
  email = email_of s.held_by_user_id users;
  expires_at = s.hold_expires_at;
  seconds_remaining = seconds_until read_at s.hold_expires_at;
  attached_to_booking = not (is_null s.booking_id);
}

unfoldable pub active_holds : ℕ → ℕ → ℕ → List User → Db → List HoldRow
active_holds now read_at limit users db = map (hold_row read_at db.flights users) (
    take limit
      (order_by_expiry (select (λ s. hold_is_live now s && has_flight db.flights s) db.seats)))

pub record AuditEntry : Type 0 where
  pub ref : Text
  pub booking_state : BookingState
  pub seq : ℕ
  pub event_type : AuditEventType
  pub from_state : Option BookingState
  pub to_state : Option BookingState

-- The inner join of the journal with `bookings`; the newest row stands first.
unfoldable pub audit_entries : List Booking → List BookingAudit → List AuditEntry
audit_entries bookings [] = []
audit_entries bookings (r ∷ rows) =
    let rest = audit_entries bookings rows in
    elim (first (λ b. b.id == r.booking_id) bookings) [
      | none ↦ rest
      | some b ↦
          record {
            ref = b.ref;
            booking_state = b.state;
            seq = r.seq;
            event_type = r.event_type;
            from_state = r.from_state;
            to_state = r.to_state;
          }
          ∷ rest
    ]

unfoldable pub audit_page : ℕ → Db → List AuditEntry
audit_page limit db = take limit (audit_entries db.bookings db.audit)

unfoldable pub security_events : ℕ → Option Text → List LoggedEvent → List LoggedEvent
security_events limit severity table =
    take limit (select (λ r. text_filter severity r.severity) table)

-- ===== src/Admin.antt =====
-- app/api/admin.py: the log of security events, page by page. The table is append-only with a serial id, and stands newest
-- first, as ORDER BY id DESC reads it. The columns that no filter reads are left out.
pub mod Cursor
mod Tests
use concurrent_flight_bookin.Prelude.{
  ℕ, zero, suc, ◌+◌, Bool, true, false, ◌&&◌, Option, none, some, List, [], ◌∷◌, Text, ltb, leb,
  ◌==◌, same, if◌then◌else◌, length, take, select,
}

-- A row of `security_events`.
pub record LoggedEvent : Type 0 where
  pub id : ℕ
  pub occurred_at : ℕ
  pub event_type : Text
  pub severity : Text

pub record CursorPage : Type 0 where
  pub items : List LoggedEvent
  pub next_cursor : Option ℕ
  pub has_more : Bool

-- The filters of a query; one that is missing or empty filters nothing.
pub record EventQuery : Type 0 where
  pub event_type : Option Text
  pub severity : Option Text
  pub since : Option ℕ

abbrev pub text_filter : Option Text → Text → Bool
text_filter none t = true
text_filter (some []) t = true
text_filter (some (c ∷ cs)) t = same t (c ∷ cs)

abbrev pub since_filter : Option ℕ → ℕ → Bool
since_filter none t = true
since_filter (some s) t = leb s t

-- `if cursor: ... id < cursor`
abbrev pub cursor_filter : Option ℕ → ℕ → Bool
cursor_filter none id = true
cursor_filter (some c) id = if c == 0 then true else ltb id c

abbrev pub matches : EventQuery → LoggedEvent → Bool
matches q r =
    text_filter q.event_type r.event_type
    && text_filter q.severity r.severity
    && since_filter q.since r.occurred_at

-- `rows[-1].id if rows`
abbrev pub last_id : List LoggedEvent → Option ℕ
last_id [] = none
last_id (r ∷ []) = some r.id
last_id (r ∷ s ∷ rs) = last_id (s ∷ rs)

unfoldable pub list_security_events : EventQuery → Option ℕ → ℕ → List LoggedEvent → CursorPage
list_security_events q cursor limit table =
    let rows = take (limit + 1) (select (λ r. matches q r && cursor_filter cursor r.id) table) in
    record {
      items = take limit rows;
      next_cursor = if ltb limit (length rows) then last_id (take limit rows) else none;
      has_more = ltb limit (length rows);
    }

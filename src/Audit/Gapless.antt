-- ===== src/Audit/Gapless.antt =====
-- The sequence numbers of the journal.
use concurrent_flight_bookin.Prelude.{
  ℕ, zero, suc, ◌+◌, ◌≡◌, refl, Option, List, [], ◌∷◌, ◌==◌, arith, if◌then◌else◌, count_where,
}
use native.Mathlib.Nat.{add-zero}
use mathlib.Core.Path.{subst}
use concurrent_flight_bookin.Domain.Enums.{BookingState, AuditEventType}
use concurrent_flight_bookin.Domain.Models.{BookingAudit}
use concurrent_flight_bookin.Audit.{record_audit, max_seq}

-- One call of `record`.
pub record Entry : Type 0 where
  pub booking_id : ℕ
  pub event_type : AuditEventType
  pub from_state : Option BookingState
  pub to_state : Option BookingState

abbrev pub record_entry : Entry → List BookingAudit → List BookingAudit
record_entry e = record_audit e.booking_id e.event_type e.from_state e.to_state

-- A history of calls for any bookings, the oldest first.
pub record_all : List Entry → List BookingAudit → List BookingAudit
record_all [] rows = rows
record_all (e ∷ es) rows = record_all es (record_entry e rows)

-- The sequence numbers of one booking, the newest first.
abbrev pub seqs : ℕ → List BookingAudit → List ℕ
seqs b [] = []
seqs b (r ∷ rows) = let rest = seqs b rows in if r.booking_id == b then r.seq ∷ rest else rest

-- n, n - 1, ..., 1
abbrev pub countdown : ℕ → List ℕ
countdown zero = []
countdown (suc n) = suc n ∷ countdown n

-- The journal of `b` holds exactly the numbers from 1 to `n`.
abbrev IsGapless : ℕ → ℕ → List BookingAudit → Type 0
IsGapless b n rows = (seqs b rows ≡ countdown n) × (max_seq b rows ≡ n)

record_entry-IsGapless :
    (b n : ℕ) (e : Entry) (rows : List BookingAudit)
    → IsGapless b n rows
    → IsGapless b (if e.booking_id == b then suc n else n) (record_entry e rows)
unfolding record_audit max_seq
record_entry-IsGapless b n e rows h = (ground arith, ground arith)

record_all-IsGapless :
    (b n : ℕ) (es : List Entry) (rows : List BookingAudit)
    → IsGapless b n rows
    → IsGapless b (n + count_where (λ e. e.booking_id == b) es) (record_all es rows)
unfolding record_all
record_all-IsGapless b n [] rows h = rw add-zero h
record_all-IsGapless b n (e ∷ es) rows h = ground (
  arith,
  record_entry-IsGapless b n e rows h,
  record_all-IsGapless b (if e.booking_id == b then suc n else n) es (record_entry e rows),
)

-- After any history of records for any bookings, the sequence numbers of each booking are 1 to the number of its
-- records, each once and in order: there is no gap.
pub record_all-seqs :
    (b : ℕ) (es : List Entry)
    → seqs b (record_all es []) ≡ countdown (count_where (λ e. e.booking_id == b) es)
unfolding max_seq
record_all-seqs b es =
    let n = count_where (λ (e : Entry). e.booking_id == b) es in
    let same_length : 0 + n ≡ n = omega arith in
    subst (λ k. seqs b (record_all es []) ≡ countdown k) same_length
      (record_all-IsGapless b 0 es [] (refl, refl)).0

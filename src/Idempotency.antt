-- ===== src/Idempotency.antt =====
-- app/services/idempotency.py: the claims on idempotency keys. `digest` is what `request_hash` makes of the request body,
-- by json and SHA-256; `others` is what other sessions do between the INSERT and the SELECT.
pub mod Replays
mod Tests
use concurrent_flight_bookin.Prelude.{
  ℕ, ◌+◌, Bool, true, false, not, ◌&&◌, Option, none, some, List, [], ◌∷◌, Text, ◌==◌, ltb, same,
  if◌then◌else◌, first, update_where, delete_where,
}
use concurrent_flight_bookin.Errors.{Exc, AppError}
use concurrent_flight_bookin.Config.{Settings, seconds}
use concurrent_flight_bookin.Domain.Enums.{IdempotencyState}
use concurrent_flight_bookin.Domain.Models.{IdempotencyKey}

pub record Replay : Type 0 where
  pub replay_status : ℕ
  pub replay_body : Text

-- The claim is ours, the stored answer is replayed, or the request is refused.
pub data Claim : Type 0 where
  claimed : Claim
  replayed : Replay → Claim
  refused : Exc → Claim

abbrev pub is_key : Text → ℕ → IdempotencyKey → Bool
is_key key user_id r = same r.key key && r.user_id == user_id

-- The DELETE of an expired claim.
abbrev pub is_stale : ℕ → Text → ℕ → IdempotencyKey → Bool
is_stale now key user_id r = is_key key user_id r && ltb r.expires_at now

abbrev pub is_completed : IdempotencyState → Bool
is_completed IdempotencyState.completed = true
is_completed IdempotencyState.in_progress = false

-- `existing.response_body or {}`; an empty text stands for the empty object.
abbrev pub body_or : Option Text → Text
body_or none = []
body_or (some b) = b

-- `existing.response_status` as a test: NULL and 0 are false.
abbrev pub status_of : Option ℕ → ℕ
status_of none = 0
status_of (some s) = s

unfoldable pub answer_existing : Text → Option IdempotencyKey → Claim
answer_existing digest none = refused (Exc.app AppError.request_in_flight)
answer_existing digest (some r) =
    if not (same r.request_hash digest)
    then refused (Exc.app AppError.idempotency_key_reused)
    else if is_completed r.state && not (status_of r.response_status == 0)
    then replayed (record {
      replay_status = status_of r.response_status;
      replay_body = body_or r.response_body;
    })
    else refused (Exc.app AppError.request_in_flight)

abbrev pub new_claim : Settings → ℕ → Text → ℕ → Text → Text → IdempotencyKey
new_claim settings now key user_id endpoint digest = record {
  key = key;
  user_id = user_id;
  endpoint = endpoint;
  request_hash = digest;
  state = IdempotencyState.in_progress;
  response_status = none;
  response_body = none;
  expires_at = now + seconds settings.idempotency_ttl_seconds;
}

-- INSERT ... ON CONFLICT DO NOTHING on the rows that are left after the DELETE.
unfoldable pub claim_key :
    (List IdempotencyKey → List IdempotencyKey)
    → IdempotencyKey
    → List IdempotencyKey
    → Claim × List IdempotencyKey
unfolding answer_existing
claim_key others row rows = elim (first (is_key row.key row.user_id) rows) [
  | none ↦ (claimed, row ∷ rows)
  | some _ ↦ (
    answer_existing row.request_hash (first (is_key row.key row.user_id) (others rows)),
    others rows,
  )
]

unfoldable pub begin :
    Settings
    → (List IdempotencyKey → List IdempotencyKey)
    → ℕ
    → Text
    → ℕ
    → Text
    → Text
    → List IdempotencyKey
    → Claim × List IdempotencyKey
unfolding claim_key
begin settings others now key user_id endpoint digest rows =
    claim_key others (new_claim settings now key user_id endpoint digest)
      (delete_where (is_stale now key user_id) rows)

abbrev pub answered : ℕ → Text → IdempotencyKey → IdempotencyKey
answered status_code body r = record r {
  state = IdempotencyState.completed;
  response_status = some status_code;
  response_body = some body;
}

unfoldable pub complete : Text → ℕ → ℕ → Text → List IdempotencyKey → List IdempotencyKey
complete key user_id status_code body rows =
    update_where (is_key key user_id) (answered status_code body) rows

unfoldable pub release : Text → ℕ → List IdempotencyKey → List IdempotencyKey
release key user_id rows = delete_where (is_key key user_id) rows

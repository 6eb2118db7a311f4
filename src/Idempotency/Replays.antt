-- ===== src/Idempotency/Replays.antt =====
-- What a second request under a key is answered.
use concurrent_flight_bookin.Prelude.{
  ℕ, ◌+◌, ◌≤◌, ◌≡◌, ◌≢◌, refl, false, none, List, [], ◌∷◌, Text, arith, same, same_refl, first,
  delete_where,
}
use concurrent_flight_bookin.Errors.{Exc, AppError}
use concurrent_flight_bookin.Config.{Settings, seconds}
use concurrent_flight_bookin.Domain.Models.{IdempotencyKey}
use concurrent_flight_bookin.Idempotency.{
  claimed, replayed, refused, is_key, is_stale, begin, claim_key, complete, release,
}

module _ (settings : Settings) (now later : ℕ) (key : Text) (user_id : ℕ) (endpoint digest : Text)
    (rows : List IdempotencyKey) where
  -- The table after the first request has claimed the key.
  abbrev pub after_claim : List IdempotencyKey
  after_claim = (begin settings (λ r. r) now key user_id endpoint digest rows).1

  -- A second request under a claimed key, before the claim expires and with no other session at work: while the first
  -- runs it is refused as in flight; once the first is completed it is answered with exactly the stored status and body,
  -- and with another body it is refused as a reuse of the key, at any of these times.
  pub begin_repeated :
      (status : ℕ) (body other : Text)
      → (begin settings (λ r. r) now key user_id endpoint digest rows).0 ≡ claimed
      → later ≤ now + seconds settings.idempotency_ttl_seconds
      → status ≢ 0
      → same digest other ≡ false
      → let done_rows = complete key user_id status body after_claim in
        let again = λ (d : Text) (rs : List IdempotencyKey).
          (begin settings (λ r. r) later key user_id endpoint d rs).0 in
        (again digest after_claim ≡ refused (Exc.app AppError.request_in_flight))
        × (again digest done_rows
            ≡ replayed (record { replay_status = status; replay_body = body }))
        × (again other after_claim ≡ refused (Exc.app AppError.idempotency_key_reused))
        × (again other done_rows ≡ refused (Exc.app AppError.idempotency_key_reused))
  unfolding begin complete claim_key
  begin_repeated status body other h fresh ok_status differs =
      ground (arith, same_refl key, same_refl digest)

gone :
    (key : Text) (user_id : ℕ) (rows : List IdempotencyKey) (now : ℕ)
    → first
        (is_key key user_id)
        (delete_where (is_stale now key user_id) (delete_where (is_key key user_id) rows))
      ≡ none
gone key user_id [] now = refl
gone key user_id (r ∷ rows) now = ground (arith, gone key user_id rows now)

-- After `release` the next request claims the key, whatever its body.
pub begin-release :
    (settings : Settings) (others : List IdempotencyKey → List IdempotencyKey) (now : ℕ)
    (key : Text) (user_id : ℕ) (endpoint digest : Text) (rows : List IdempotencyKey)
    → (begin settings others now key user_id endpoint digest (release key user_id rows)).0 ≡ claimed
unfolding begin release
begin-release settings others now key user_id endpoint digest rows =
    ground (arith, gone key user_id rows now)

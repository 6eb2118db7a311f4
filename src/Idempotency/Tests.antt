-- ===== src/Idempotency/Tests.antt =====
-- Concrete requests under one idempotency key.
use concurrent_flight_bookin.Prelude.{◌≡◌, refl, Text, List, [], ◌∷◌, arith, same}
use concurrent_flight_bookin.Errors.{Exc, AppError}
use concurrent_flight_bookin.Config.{default_settings}
use concurrent_flight_bookin.Domain.Models.{IdempotencyKey}
use concurrent_flight_bookin.Idempotency.{Claim, replayed, refused, begin, complete}
use concurrent_flight_bookin.Idempotency.Replays.{after_claim, begin_repeated}

abbrev key : Text
key = b'k' ∷ []

abbrev digest : Text
digest = b'd' ∷ []

abbrev again : Text → List IdempotencyKey → Claim
again d rs = (begin default_settings (λ r. r) 2000 key 4 [] d rs).0

abbrev claimed_rows : List IdempotencyKey
claimed_rows = after_claim default_settings 1000 2000 key 4 [] digest []

abbrev done_rows : List IdempotencyKey
done_rows = complete key 4 201 (b'{' ∷ []) claimed_rows

begin_repeated_example :
    (again digest claimed_rows ≡ refused (Exc.app AppError.request_in_flight))
    × (again digest done_rows ≡ replayed (record { replay_status = 201; replay_body = b'{' ∷ [] }))
    × (again (b'e' ∷ []) claimed_rows ≡ refused (Exc.app AppError.idempotency_key_reused))
    × (again (b'e' ∷ []) done_rows ≡ refused (Exc.app AppError.idempotency_key_reused))
unfolding begin same
begin_repeated_example =
    begin_repeated default_settings 1000 2000 key 4 [] digest [] 201 (b'{' ∷ []) (b'e' ∷ []) refl
      (omega arith) (omega arith) refl

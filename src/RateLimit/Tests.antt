-- ===== src/RateLimit/Tests.antt =====
-- Three requests under a limit of one request a second.
use concurrent_flight_bookin.Prelude.{◌≡◌, refl, List, none, some, [], ◌∷◌, arith, same}
use concurrent_flight_bookin.Errors.{Exc, AppError}
use concurrent_flight_bookin.Config.{default_settings}
use concurrent_flight_bookin.Redis.{reference_redis, reference_redis-IsUp, empty_cell, Store}
use concurrent_flight_bookin.Redis.Decimal.{decimal}
use concurrent_flight_bookin.RateLimit.{Limit}
use concurrent_flight_bookin.RateLimit.Sliding.{Visit, check_all, verdicts, check_all-verdicts}

abbrev one_a_second : Limit
one_a_second = record { name = []; max_requests = 1; window_seconds = 1 }

abbrev fresh : Store
fresh key = empty_cell

abbrev visits : List Visit
visits =
    record { at = 5000; drawn = b'a' ∷ [] }
    ∷ record { at = 5600; drawn = b'b' ∷ [] }
    ∷ record { at = 6601; drawn = b'c' ∷ [] }
    ∷ []

check_all-verdicts_example :
    check_all reference_redis default_settings one_a_second [] visits fresh
    ≡ verdicts one_a_second [] visits
unfolding decimal same
check_all-verdicts_example =
    check_all-verdicts reference_redis (λ r. r) reference_redis-IsUp default_settings refl
      one_a_second (omega arith) [] visits fresh (omega arith) refl

middle_refused :
    verdicts one_a_second [] visits ≡ none ∷ some (Exc.app AppError.rate_limited) ∷ none ∷ []
middle_refused = refl

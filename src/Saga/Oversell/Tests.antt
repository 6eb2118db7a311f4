-- ===== src/Saga/Oversell/Tests.antt =====
-- A run with another booking made in between; and what the hold service does meanwhile.
use concurrent_flight_bookin.Prelude.{arith, List, [], ◌∷◌, none}
use concurrent_flight_bookin.Config.{default_settings}
use concurrent_flight_bookin.Domain.Enums.{Decision}
use concurrent_flight_bookin.Domain.Models.{Db}
use concurrent_flight_bookin.Holds.Schema.{acquires, sweeps, releases, run_calls, Call}
use concurrent_flight_bookin.Payments.Fake.{fake_gateway}
use concurrent_flight_bookin.Saga.{run}
use concurrent_flight_bookin.Saga.Unwind.{cancel}
use concurrent_flight_bookin.Saga.Sample.{world, draws, request, db, booking}
use concurrent_flight_bookin.Saga.Oversell.{IsSold}
use concurrent_flight_bookin.Saga.Oversell.Run.{run-IsSold}
use concurrent_flight_bookin.Saga.Oversell.Others.{run_calls-cancel-IsSold}

-- Another booking is made while the card is charged, for seats that are not among these.
abbrev other_booking : Db → Db
other_booking db = record db { bookings = record booking { id = 95 } ∷ db.bookings }

world-IsSold : IsSold db
world-IsSold = (λ x. ground arith, tt)

run-IsSold_example :
    IsSold
      (run fake_gateway draws 4
        (request 41)
        (b'k' ∷ [])
        []
        Decision.allow
        other_booking
        world).1.saved
run-IsSold_example =
    run-IsSold fake_gateway draws 4 (request 41) (b'k' ∷ []) [] Decision.allow other_booking world
      (λ d e k. k) (λ ids d k. k) tt (world-IsSold, world-IsSold)

abbrev calls : List Call
calls = sweeps 600 ∷ acquires 601 50 5 7 (b'1' ∷ b'A' ∷ []) none ∷ releases 50 5 ∷ []

run_calls-cancel-IsSold_example :
    IsSold (record db { seats = run_calls default_settings calls db.seats })
    × IsSold (cancel fake_gateway 700 booking world).1.saved
run_calls-cancel-IsSold_example =
    run_calls-cancel-IsSold fake_gateway default_settings calls 700 booking world
      (world-IsSold, world-IsSold)

-- ===== src/Redis/Decimal.antt =====
-- `str(n)` of a number, as the members of the windows are named.
use concurrent_flight_bookin.Prelude.{ℕ, zero, suc, ◌+◌, [], ◌∷◌, Text, ltb, if◌then◌else◌}
use Prim.Native.Nat.{◌/◌, ◌%◌}

-- The digits of `n` before those of `acc`; a number has fewer digits than it counts, so that `suc n` rounds are enough.
pub digits : ℕ → ℕ → Text → Text
digits zero n acc = acc
digits (suc fuel) n acc =
    let rest = digits fuel (n / 10) ((b'0' + n % 10) ∷ acc) in
    if ltb n 10 then (b'0' + n) ∷ acc else rest

unfoldable pub decimal : ℕ → Text
unfolding digits
decimal n = digits (suc n) n []

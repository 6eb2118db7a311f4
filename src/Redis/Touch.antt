-- ===== src/Redis/Touch.antt =====
-- The pipeline that both windows send: trim, add, count, extend the expiry.
use concurrent_flight_bookin.Prelude.{
  ℕ, ◌+◌, ◌-◌, ◌*◌, ◌≡◌, inl, inr, false, some, [], ◌∷◌, List, Text, arith, same, same_refl,
  Bool-cases, length, delete_where,
}
use concurrent_flight_bookin.Redis.{
  Store, Cell, Entry, Command, live, is_over, place, is_member, in_range, interpret, number_at,
}

abbrev pub touch_pipeline : Text → Text → ℕ → ℕ → List Command
touch_pipeline key m now window_seconds =
    Command.zremrangebyscore key 0 (now - window_seconds * 1000)
    ∷ Command.zadd key m now
    ∷ Command.zcard key
    ∷ Command.expire key (window_seconds + 1)
    ∷ []

abbrev pub kept_entries : ℕ → ℕ → List Entry → List Entry
kept_entries now window_seconds es = delete_where (in_range 0 (now - window_seconds * 1000)) es

-- The key after the pipeline.
abbrev pub touched : Text → ℕ → ℕ → Cell → Cell
touched m now window_seconds c = record c {
  entries =
      place (record { member = m; score = now })
        (delete_where (is_member m) (kept_entries now window_seconds c.entries));
  until = some (now + (window_seconds + 1) * 1000);
}

module _ (key m : Text) (now window_seconds : ℕ) (store : Store) where
  pub touch_cell :
      let (as', store') = interpret now (touch_pipeline key m now window_seconds) store in
      let c = touched m now window_seconds (live now (store key)) in
      (store' key ≡ c) × (number_at as' 2 ≡ length c.entries)
  unfolding interpret
  touch_cell = elim (Bool-cases (is_over now (store key).until)) [
    | inl over ↦ (ground (arith, same_refl key), ground (arith, same_refl key))
    | inr still ↦ (ground (arith, same_refl key), ground (arith, same_refl key))
  ]

  pub touch_other :
      (k : Text)
      → same k key ≡ false
      → (interpret now (touch_pipeline key m now window_seconds) store).1 k ≡ store k
  unfolding interpret
  touch_other k other = ground arith

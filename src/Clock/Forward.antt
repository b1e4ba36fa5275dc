-- ===== src/Clock/Forward.antt =====
-- utils/clock.py: sequences of moves of the simulated clock, and its hours and days.
use kv_cache_tier_persistenc.Prelude.{ℕ, ◌+◌, ◌*◌, ◌/◌, ◌%◌, ◌≤◌, ◌<◌, ◌≡◌, List, [], ◌∷◌, arith}
use kv_cache_tier_persistenc.Result.{Result, ok, raise}
use kv_cache_tier_persistenc.Clock.{
  SimulatedClock, set, advance, advance_negative, hour_of_day, day_of_week,
}

pub data Move : Type 0 where
  set_to advance_by : ℕ → Move
  advance_back : Move

-- A refused move leaves the clock as it was.
abbrev or_stay : SimulatedClock → Result SimulatedClock → SimulatedClock
or_stay now (ok later) = later
or_stay now (raise e) = now

unfoldable pub after_move : SimulatedClock → Move → SimulatedClock
after_move now (set_to t) = or_stay now (set now t)
after_move now (advance_by n) = or_stay now (advance now n)
after_move now advance_back = or_stay now (advance_negative now)

unfoldable pub after_moves : SimulatedClock → List Move → SimulatedClock
after_moves now [] = now
after_moves now (x ∷ moves) = after_moves (after_move now x) moves

le-after_move : (now : ℕ) (x : Move) → now ≤ after_move now x
unfolding after_move set advance
le-after_move now (set_to t) = ground arith
le-after_move now (advance_by n) = omega arith
le-after_move now advance_back = omega arith

-- No sequence of `set` and `advance`, refused or not, takes the clock back.
pub le-after_moves : (now : ℕ) (moves : List Move) → now ≤ after_moves now moves
unfolding after_moves
le-after_moves now [] = omega arith
le-after_moves now (x ∷ moves) =
    omega (arith, le-after_move now x, le-after_moves (after_move now x) moves)

-- The hour and the day of the week are those of the time since Monday 00:00: the time is a number of
-- whole weeks, the days, the hours, and less than an hour.
pub weeks_days_hours :
    (now : ℕ)
    → (hour_of_day now < 24)
      × (day_of_week now < 7)
      × (weeks : ℕ) × (rest : ℕ) × (rest < 3600)
      × (now ≡ weeks * 604800 + day_of_week now * 86400 + hour_of_day now * 3600 + rest)
unfolding hour_of_day day_of_week
weeks_days_hours now =
    (omega arith, omega arith, now / 604800, now % 3600, omega arith, omega arith)

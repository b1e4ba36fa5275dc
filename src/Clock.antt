-- ===== src/Clock.antt =====
-- utils/clock.py: `SimulatedClock`, in whole seconds. A negative duration is refused by `advance`;
-- durations here are natural numbers, and `advance_negative` is the refusal.
pub mod Forward
use kv_cache_tier_persistenc.Prelude.{ℕ, ◌+◌, ◌/◌, ◌%◌, ltb, if◌then◌else◌}
use kv_cache_tier_persistenc.Result.{Result, ok, raise, value_error}

-- `_now`
abbrev pub SimulatedClock : Type 0
SimulatedClock = ℕ

unfoldable pub set : SimulatedClock → ℕ → Result SimulatedClock
set now timestamp = if ltb timestamp now then raise value_error else ok timestamp

unfoldable pub advance : SimulatedClock → ℕ → Result SimulatedClock
advance now seconds = ok (now + seconds)

abbrev pub advance_negative : SimulatedClock → Result SimulatedClock
advance_negative now = raise value_error

-- `int((now / 3600) % 24)`: for whole numbers of seconds, the whole part of the quotient
unfoldable pub hour_of_day : SimulatedClock → ℕ
hour_of_day now = now / 3600 % 24

unfoldable pub day_of_week : SimulatedClock → ℕ
day_of_week now = now / 86400 % 7

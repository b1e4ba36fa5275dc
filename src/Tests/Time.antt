-- ===== src/Tests/Time.antt =====
-- Runs of the clock, and instances of what is proved of it.
use kv_cache_tier_persistenc.Prelude.{ℕ, ◌≡◌, refl}
use kv_cache_tier_persistenc.Clock.{hour_of_day, day_of_week}

-- Tuesday, five past one in the morning
abbrev tuesday : ℕ
tuesday = 90300

tuesday_is : (day_of_week tuesday ≡ 1) × (hour_of_day tuesday ≡ 1)
unfolding day_of_week hour_of_day
tuesday_is = (refl, refl)

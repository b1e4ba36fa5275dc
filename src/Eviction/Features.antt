-- ===== src/Eviction/Features.antt =====
-- eviction/features.py: the access history of each user, and the features of a cache entry.
-- Quotients of whole numbers are floats; a session that the index holds was accessed at least once,
-- so `access_count - 1` is not negative.
pub mod History
use kv_cache_tier_persistenc.Prelude.{
  ℕ, ◌+◌, ◌-◌, String, Bool, true, false, ◌&&◌, ◌||◌, Option, none, some, List, [], ◌∷◌, ◌++◌, map,
  str_eq, ltb, leb, if◌then◌else◌, length, drop, max, is_empty,
}
use kv_cache_tier_persistenc.Dict
use kv_cache_tier_persistenc.Dict.{Dict}
use kv_cache_tier_persistenc.Clock.{hour_of_day, day_of_week}
use kv_cache_tier_persistenc.Float.{Floats, min_of}
use kv_cache_tier_persistenc.Index.{CacheEntry}

pub record SessionFeatures (F : Type 0) : Type 0 where
  pub session_age_minutes : F
  pub token_count : ℕ
  pub revisit_count : ℕ
  pub time_since_last_access_minutes : F
  pub hour_of_day : ℕ
  pub day_of_week : ℕ
  pub user_historical_return_rate : F
  pub is_business_hours : ℕ
  pub avg_session_tokens : F

-- the order that the models are trained on
unfoldable pub to_array : {F : Type 0} → Floats F → SessionFeatures F → List F
to_array f s =
    s.session_age_minutes
    ∷ f.of_nat s.token_count
    ∷ f.of_nat s.revisit_count
    ∷ s.time_since_last_access_minutes
    ∷ f.of_nat s.hour_of_day
    ∷ f.of_nat s.day_of_week
    ∷ s.user_historical_return_rate
    ∷ f.of_nat s.is_business_hours
    ∷ s.avg_session_tokens
    ∷ []

abbrev pub feature_names : List String
feature_names =
    "session_age_minutes" ∷ "token_count" ∷ "revisit_count" ∷ "time_since_last_access_minutes"
    ∷ "hour_of_day" ∷ "day_of_week" ∷ "user_historical_return_rate" ∷ "is_business_hours"
    ∷ "avg_session_tokens" ∷ []

-- (session_id, timestamp, token_count)
pub record Access : Type 0 where
  pub session_id : String
  pub timestamp : ℕ
  pub token_count : ℕ

-- `_user_history`
abbrev pub FeatureExtractor : Type 0
FeatureExtractor = Dict (List Access)

abbrev pub history_limit : ℕ
history_limit = 50

-- `history.append(...)`, then `del history[: len(history) - HISTORY_LIMIT]` where it is longer
unfoldable pub append_access : Access → List Access → List Access
append_access a history =
    let longer = history ++ a ∷ [] in
    if ltb history_limit (length longer)
    then drop (length longer - history_limit) longer
    else longer

-- `setdefault(user_id, [])`
abbrev pub history_of : FeatureExtractor → String → List Access
history_of x user_id = elim (Dict.get x user_id) [ none ↦ [] | some history ↦ history ]

unfoldable pub record_access : FeatureExtractor → ℕ → String → String → ℕ → FeatureExtractor
unfolding append_access
record_access x now user_id session_id token_count = Dict.put x user_id (
    append_access (record { session_id = session_id; timestamp = now; token_count = token_count })
      (history_of x user_id))

unfoldable pub mentions : String → List Access → Bool
mentions sid [] = false
mentions sid (a ∷ l) = str_eq a.session_id sid || mentions sid l

-- `len(set(sid for sid, _, _ in history))`
unfoldable pub count_sessions : List Access → ℕ
unfolding mentions
count_sessions [] = 0
count_sessions (a ∷ l) = (if mentions a.session_id l then 0 else 1) + count_sessions l

unfoldable pub sum_tokens : List Access → ℕ
sum_tokens [] = 0
sum_tokens (a ∷ l) = a.token_count + sum_tokens l

-- `1 if (9 <= hour_of_day < 17 and day_of_week < 5) else 0`
unfoldable pub business_hours : ℕ → ℕ → ℕ
business_hours hour day = if leb 9 hour && ltb hour 17 && ltb day 5 then 1 else 0

module _ {F : Type 0} (f : Floats F) where
  unfoldable pub return_rate : List Access → F
  return_rate history =
      min_of f
        (f.div (f.of_nat (length history - count_sessions history))
          (f.of_nat (max (count_sessions history) 1)))
        (f.of_nat 1)

  unfoldable pub avg_tokens : CacheEntry → List Access → F
  avg_tokens e [] = f.of_nat e.token_count
  avg_tokens e (a ∷ l) = f.div (f.of_nat (sum_tokens (a ∷ l))) (f.of_nat (length (a ∷ l)))

  abbrev pub minutes_since : ℕ → ℕ → F
  minutes_since now t = f.div (f.sub (f.of_nat now) (f.of_nat t)) (f.of_nat 60)

  unfoldable pub build : FeatureExtractor → ℕ → CacheEntry → SessionFeatures F
  unfolding return_rate avg_tokens business_hours
  build x now e = record {
    session_age_minutes = minutes_since now e.created_at;
    token_count = e.token_count;
    revisit_count = e.access_count - 1;
    time_since_last_access_minutes = minutes_since now e.last_accessed;
    hour_of_day = hour_of_day now;
    day_of_week = day_of_week now;
    user_historical_return_rate = return_rate (history_of x e.user_id);
    is_business_hours = business_hours (hour_of_day now) (day_of_week now);
    avg_session_tokens = avg_tokens e (history_of x e.user_id);
  }

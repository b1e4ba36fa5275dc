-- ===== src/Training.antt =====
-- eviction/train_predictors.py: `extract_training_data`, from a trace to features and labels. The
-- events of a session are those of the trace with its id, in its order, as the pre-index keeps them.
-- Generating the traces, the split and the reports are not modelled.
pub mod Labels
pub mod Samples
use kv_cache_tier_persistenc.Prelude.{
  ℕ, ◌+◌, ◌*◌, String, Bool, true, false, not, ◌&&◌, ◌||◌, Option, none, some, List, [], ◌∷◌, map,
  str_eq, ltb, leb, if◌then◌else◌, max, min,
}
use kv_cache_tier_persistenc.Result.{Result, ok, raise, value_error, ◌>>=◌}
use kv_cache_tier_persistenc.Dict
use kv_cache_tier_persistenc.Dict.{Dict}
use kv_cache_tier_persistenc.Clock.{hour_of_day, day_of_week}
use kv_cache_tier_persistenc.Float.{Floats, min_of}
use kv_cache_tier_persistenc.Index.{select}
use kv_cache_tier_persistenc.Eviction.Features.{SessionFeatures, business_hours, minutes_since}

pub record WorkloadEvent : Type 0 where
  pub timestamp : ℕ
  pub user_id : String
  pub session_id : String
  pub action : String
  pub token_count : ℕ

abbrev pub is_action : String → WorkloadEvent → Bool
is_action a e = str_eq e.action a

-- `session_events[sid]`
unfoldable pub session_events : List WorkloadEvent → String → List WorkloadEvent
session_events events sid = select (λ e. str_eq e.session_id sid) events

-- `sorted(events, key=lambda e: e.timestamp)`: a stable sort, here by insertion
unfoldable pub insert_event : WorkloadEvent → List WorkloadEvent → List WorkloadEvent
insert_event e [] = e ∷ []
insert_event e (d ∷ l) = if leb e.timestamp d.timestamp then e ∷ d ∷ l else d ∷ insert_event e l

unfoldable pub sort_events : List WorkloadEvent → List WorkloadEvent
unfolding insert_event
sort_events [] = []
sort_events (e ∷ l) = insert_event e (sort_events l)

-- The statistics that the scan has accumulated for each user.
pub record UserStats : Type 0 where
  pub total_sessions : Dict ℕ
  pub total_resumes : Dict ℕ
  pub total_tokens : Dict ℕ

abbrev pub get_or : Dict ℕ → String → ℕ → ℕ
get_or d k default = elim (Dict.get d k) [ none ↦ default | some n ↦ n ]

-- `d[k] += n` on a defaultdict
abbrev pub add_to : Dict ℕ → String → ℕ → Dict ℕ
add_to d k n = Dict.put d k (get_or d k 0 + n)

unfoldable pub count_start : UserStats → WorkloadEvent → UserStats
count_start s e = record s {
  total_sessions = add_to s.total_sessions e.user_id 1;
  total_tokens = add_to s.total_tokens e.user_id e.token_count;
}

unfoldable pub count_resume : UserStats → WorkloadEvent → UserStats
count_resume s e = record s { total_resumes = add_to s.total_resumes e.user_id 1 }

unfoldable pub times : List WorkloadEvent → List ℕ
times = map (λ e. e.timestamp)

-- `min(...)`, which raises where there is nothing, and `max(...) if ... else ...`
unfoldable pub least : List ℕ → Result ℕ
least [] = raise value_error
least (t ∷ []) = ok t
least (t ∷ s ∷ l) = least (s ∷ l) >>= λ m. ok (min t m)

unfoldable pub latest_or : ℕ → List ℕ → ℕ
latest_or first [] = first
latest_or first (t ∷ []) = t
latest_or first (t ∷ s ∷ l) = max t (latest_or first (s ∷ l))

unfoldable pub first_start : List WorkloadEvent → Result ℕ
unfolding times least
first_start sess_evts = least (times (select (is_action "start") sess_evts))

unfoldable pub count_events : List WorkloadEvent → ℕ
count_events [] = 0
count_events (e ∷ l) = 1 + count_events l

abbrev pub until : ℕ → WorkloadEvent → Bool
until end_ts e = leb e.timestamp end_ts

-- resumes of the session up to the event
unfoldable pub revisits : List WorkloadEvent → ℕ → ℕ
unfolding count_events
revisits sess_evts end_ts =
    count_events (select (λ e. is_action "resume" e && until end_ts e) sess_evts)

-- the last start or resume up to the event
unfoldable pub last_access : List WorkloadEvent → ℕ → ℕ → ℕ
unfolding times latest_or
last_access sess_evts first end_ts = latest_or first (
    times (select (λ e. (is_action "start" e || is_action "resume" e) && until end_ts e) sess_evts))

module _ {F : Type 0} (f : Floats F) where
  unfoldable pub features_at :
      UserStats → List WorkloadEvent → WorkloadEvent → ℕ → SessionFeatures F
  unfolding revisits last_access
  features_at s sess_evts e first =
      let total_sess = get_or s.total_sessions e.user_id 1 in
      record {
        session_age_minutes = minutes_since f e.timestamp first;
        token_count = e.token_count;
        revisit_count = revisits sess_evts e.timestamp;
        time_since_last_access_minutes =
            minutes_since f e.timestamp (last_access sess_evts first e.timestamp);
        hour_of_day = hour_of_day e.timestamp;
        day_of_week = day_of_week e.timestamp;
        user_historical_return_rate =
            min_of f
              (f.div (f.of_nat (get_or s.total_resumes e.user_id 0)) (f.of_nat (max total_sess 1)))
              (f.of_nat 1);
        is_business_hours = business_hours (hour_of_day e.timestamp) (day_of_week e.timestamp);
        avg_session_tokens =
            f.div (f.of_nat (get_or s.total_tokens e.user_id e.token_count))
              (f.of_nat (max total_sess 1));
      }

  -- `e.action == "resume" and 0 < (e.timestamp - end_ts) <= window_seconds`
  unfoldable pub resumes_within : F → ℕ → WorkloadEvent → Bool
  resumes_within window_seconds end_ts e =
      is_action "resume" e
      && ltb end_ts e.timestamp
      && not (f.lt window_seconds (f.sub (f.of_nat e.timestamp) (f.of_nat end_ts)))

  -- `any(...)`
  unfoldable pub any_resume : F → ℕ → List WorkloadEvent → Bool
  unfolding resumes_within
  any_resume window_seconds end_ts [] = false
  any_resume window_seconds end_ts (e ∷ l) =
      resumes_within window_seconds end_ts e || any_resume window_seconds end_ts l

  unfoldable pub label : F → List WorkloadEvent → WorkloadEvent → ℕ
  unfolding any_resume
  label window_seconds sess_evts e =
      if any_resume window_seconds e.timestamp sess_evts then 1 else 0

  -- the body of the loop for an 'end' event
  unfoldable pub sample :
      F → List WorkloadEvent → UserStats → WorkloadEvent → Result (SessionFeatures F × ℕ)
  unfolding features_at label first_start session_events
  sample window_seconds events s e = do
    let sess_evts = session_events events e.session_id
    first ← first_start sess_evts
    ok (features_at s sess_evts e first, label window_seconds sess_evts e)

  -- the loop over the sorted events
  unfoldable pub scan :
      F
      → List WorkloadEvent
      → UserStats
      → List WorkloadEvent
      → Result (List (SessionFeatures F × ℕ))
  unfolding sample count_start count_resume
  scan w events s [] = ok []
  scan w events s (e ∷ l) = elim (is_action "start" e) [
    | true ↦ scan w events (count_start s e) l
    | false ↦ elim (is_action "resume" e) [
      | true ↦ scan w events (count_resume s e) l
      | false ↦ elim (is_action "end" e) [
        | false ↦ scan w events s l
        | true ↦ sample w events s e >>= λ x. scan w events s l >>= λ samples. ok (x ∷ samples)
      ]
    ]
  ]

  unfoldable pub extract_training_data :
      List WorkloadEvent → F → Result (List (SessionFeatures F) × List ℕ)
  unfolding scan sort_events
  extract_training_data events resume_window_minutes = do
    let window_seconds = f.mul resume_window_minutes (f.of_nat 60)
    samples ←
        scan window_seconds events
          (record { total_sessions = []; total_resumes = []; total_tokens = [] })
          (sort_events events)
    ok (map (λ x. x.0) samples, map (λ x. x.1) samples)

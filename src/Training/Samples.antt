-- ===== src/Training/Samples.antt =====
-- eviction/train_predictors.py: the samples of a trace, one for each 'end' event.
use kv_cache_tier_persistenc.Prelude.{ℕ, ◌≡◌, true, false, List, [], ◌∷◌, map, is_empty}
use kv_cache_tier_persistenc.Float.{Floats}
use kv_cache_tier_persistenc.Index.{select}
use kv_cache_tier_persistenc.Training.{WorkloadEvent, is_action, session_events, label}

-- An 'end' event of the list has a 'start' of its session somewhere in the trace.
abbrev pub AllStarted : List WorkloadEvent → List WorkloadEvent → Type 0
AllStarted events [] = Unit
AllStarted events (e ∷ l) =
    (is_action "end" e ≡ true
      → is_empty (select (is_action "start") (session_events events e.session_id)) ≡ false)
    × AllStarted events l

module _ {F : Type 0} (f : Floats F) (w : F) (events : List WorkloadEvent) where
  -- the label of each 'end' event of a list
  abbrev pub labels_of : List WorkloadEvent → List ℕ
  labels_of l =
      map (λ e. label f w (session_events events e.session_id) e) (select (is_action "end") l)

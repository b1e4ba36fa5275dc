-- ===== src/Eviction/Oracle.antt =====
-- eviction/oracle.py: the future accesses of a trace, and the three policies that read them. A time
-- that is infinite is `none`. `searchsorted(arr, t, side="right")` of numpy is a parameter.
pub mod Trace
pub mod Belady
pub mod Classifier
pub mod SpaceTime
pub mod Agreement
use kv_cache_tier_persistenc.Prelude.{
  ℕ, ◌+◌, String, Bool, true, false, Option, none, some, List, [], ◌∷◌, ◌++◌, max, str_eq, ltb, leb,
  if◌then◌else◌, length, drop,
}
use kv_cache_tier_persistenc.Dict
use kv_cache_tier_persistenc.Dict.{Dict}
use kv_cache_tier_persistenc.Float.{Floats, max_of}
use kv_cache_tier_persistenc.Index.{CacheEntry}
use kv_cache_tier_persistenc.CostModel.{CostModel, compute_recompute_time}
use kv_cache_tier_persistenc.Eviction.Policy.{EvictionPolicy}
use kv_cache_tier_persistenc.Eviction.Scores.{score_all, select_least}

-- what the oracle reads of a replayed event
pub record TraceEvent : Type 0 where
  pub action : String
  pub session_id : String
  pub timestamp : ℕ

-- `_resumes`
abbrev pub TraceOracle : Type 0
TraceOracle = Dict (List ℕ)

abbrev pub times_of : TraceOracle → String → List ℕ
times_of acc sid = elim (Dict.get acc sid) [ none ↦ [] | some ts ↦ ts ]

-- `if e.action == "resume": acc[e.session_id].append(e.timestamp)`
unfoldable pub add_event : TraceOracle → TraceEvent → TraceOracle
add_event acc e =
    if str_eq e.action "resume"
    then Dict.put acc e.session_id (times_of acc e.session_id ++ e.timestamp ∷ [])
    else acc

unfoldable pub gather : TraceOracle → List TraceEvent → TraceOracle
unfolding add_event
gather acc [] = acc
gather acc (e ∷ events) = gather (add_event acc e) events

-- `sorted(ts)`
unfoldable pub insert_time : ℕ → List ℕ → List ℕ
insert_time t [] = t ∷ []
insert_time t (s ∷ l) = if leb t s then t ∷ s ∷ l else s ∷ insert_time t l

unfoldable pub sort_times : List ℕ → List ℕ
unfolding insert_time
sort_times [] = []
sort_times (t ∷ l) = insert_time t (sort_times l)

unfoldable pub sort_values : TraceOracle → TraceOracle
unfolding sort_times
sort_values [] = []
sort_values ((sid, ts) ∷ acc) = (sid, sort_times ts) ∷ sort_values acc

unfoldable pub trace_oracle : List TraceEvent → TraceOracle
unfolding gather sort_values
trace_oracle events = sort_values (gather [] events)

-- `arr[i]` where i < len(arr)
abbrev pub first_of : List ℕ → Option ℕ
first_of [] = none
first_of (t ∷ l) = some t

module _ (searchsorted : List ℕ → ℕ → ℕ) where
  unfoldable pub next_in : List ℕ → ℕ → Option ℕ
  next_in arr t = first_of (drop (searchsorted arr t) arr)

  unfoldable pub next_resume_after : TraceOracle → String → ℕ → Option ℕ
  unfolding next_in
  next_resume_after oracle sid t = elim (Dict.get oracle sid) [
    | none ↦ none
    | some arr ↦ next_in arr t
  ]

-- `<` on times, where none is infinity
unfoldable pub sooner : Option ℕ → Option ℕ → Bool
sooner none b = false
sooner (some a) none = true
sooner (some a) (some b) = ltb a b

abbrev pub later : Option ℕ → Option ℕ → Bool
later a b = sooner b a

-- the next access of a candidate, as the policies ask for it
abbrev pub next_access : (List ℕ → ℕ → ℕ) → TraceOracle → ℕ → String → CacheEntry → Option ℕ
next_access searchsorted oracle now sid e = next_resume_after searchsorted oracle sid now

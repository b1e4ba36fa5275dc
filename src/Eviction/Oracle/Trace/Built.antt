-- ===== src/Eviction/Oracle/Trace/Built.antt =====
-- eviction/oracle.py: the index that `TraceOracle` builds, and what it answers for a trace.
use mathlib.Core.Option
use mathlib.Core.Path.{subst}
use mathlib.Core.List.{append_assoc, append-nil}
use kv_cache_tier_persistenc.Prelude.{
  ℕ, ◌≤◌, ◌≡◌, refl, sym, ap, ◌∙◌, inl, inr, String, Option, none, some, List, [], ◌∷◌, ◌++◌,
  eq_iff, leb, arith, Bool-cases,
}
use kv_cache_tier_persistenc.Dict
use kv_cache_tier_persistenc.Eviction.Oracle.{
  TraceEvent, TraceOracle, times_of, add_event, gather, insert_time, sort_times, sort_values,
  trace_oracle, next_in, next_resume_after,
}
use kv_cache_tier_persistenc.Eviction.Oracle.Trace.{
  resumes, Among, AllFrom, IsSorted, IsSearchsorted, IsNext, next_in-IsNext,
}

insert_time-AllFrom : (n t : ℕ) (l : List ℕ) → n ≤ t → AllFrom n l → AllFrom n (insert_time t l)
unfolding insert_time
insert_time-AllFrom n t [] le h = (le, tt)
insert_time-AllFrom n t (s ∷ l) le h = ground (arith, insert_time-AllFrom n t l le h.1)

AllFrom-le : (n m : ℕ) (l : List ℕ) → n ≤ m → AllFrom m l → AllFrom n l
AllFrom-le n m [] le h = tt
AllFrom-le n m (s ∷ l) le h = (omega arith, AllFrom-le n m l le h.1)

insert_time-IsSorted : (t : ℕ) (l : List ℕ) → IsSorted l → IsSorted (insert_time t l)
unfolding insert_time
insert_time-IsSorted t [] h = (tt, tt)
insert_time-IsSorted t (s ∷ l) h = elim (Bool-cases (leb t s)) [
  | inl q ↦ rw q ((ground arith, AllFrom-le t s l (ground arith) h.0), h)
  | inr q ↦ rw q (insert_time-AllFrom s t l (ground arith) h.0, insert_time-IsSorted t l h.1)
]

sort_times-IsSorted : (l : List ℕ) → IsSorted (sort_times l)
unfolding sort_times
sort_times-IsSorted [] = tt
sort_times-IsSorted (t ∷ l) = insert_time-IsSorted t (sort_times l) (sort_times-IsSorted l)

Among-insert : (s t : ℕ) (l : List ℕ) → Among s (t ∷ l) → Among s (insert_time t l)
unfolding insert_time
Among-insert s t [] a = a
Among-insert s t (r ∷ l) a = elim (Bool-cases (leb t r)) [
  | inl q ↦ rw q a
  | inr q ↦ rw q (elim a [
    | inl e ↦ inr (Among-insert s t l (inl e))
    | inr (inl e) ↦ inl e
    | inr (inr b) ↦ inr (Among-insert s t l (inr b))
  ])
]

insert-Among : (s t : ℕ) (l : List ℕ) → Among s (insert_time t l) → Among s (t ∷ l)
unfolding insert_time
insert-Among s t [] a = a
insert-Among s t (r ∷ l) a = elim (Bool-cases (leb t r)) [
  | inl q ↦ rw q at a
  | inr q ↦ elim (rw q at a) [
    | inl e ↦ inr (inl e)
    | inr b ↦ elim (insert-Among s t l b) [ inl e ↦ inl e | inr c ↦ inr (inr c) ]
  ]
]

Among-sort : (s : ℕ) (l : List ℕ) → Among s l → Among s (sort_times l)
unfolding sort_times
Among-sort s [] a = a
Among-sort s (t ∷ l) (inl e) = Among-insert s t (sort_times l) (inl e)
Among-sort s (t ∷ l) (inr a) = Among-insert s t (sort_times l) (inr (Among-sort s l a))

sort-Among : (s : ℕ) (l : List ℕ) → Among s (sort_times l) → Among s l
unfolding sort_times
sort-Among s [] a = a
sort-Among s (t ∷ l) a = elim (insert-Among s t (sort_times l) a) [
  | inl e ↦ inl e
  | inr b ↦ inr (sort-Among s l b)
]

-- Sorting does not change what is next.
sorted-IsNext : (l : List ℕ) (t : ℕ) (o : Option ℕ) → IsNext (sort_times l) t o → IsNext l t o
sorted-IsNext l t none h = λ s a. h s (Among-sort s l a)
sorted-IsNext l t (some r) h = (sort-Among r l h.0, h.1, λ s a lt. h.2 s (Among-sort s l a) lt)

times_of-add :
    (acc : TraceOracle) (e : TraceEvent) (sid : String)
    → times_of (add_event acc e) sid ≡ times_of acc sid ++ resumes (e ∷ []) sid
unfolding add_event resumes
times_of-add acc e sid = ground (
  arith,
  eq_iff e.session_id sid,
  append-nil (times_of acc sid),
  Dict.get-put acc e.session_id sid (times_of acc e.session_id ++ e.timestamp ∷ []),
)

resumes-cons :
    (e : TraceEvent) (events : List TraceEvent) (sid : String)
    → resumes (e ∷ []) sid ++ resumes events sid ≡ resumes (e ∷ events) sid
unfolding resumes
resumes-cons e events sid = ground arith

times_of-gather :
    (acc : TraceOracle) (events : List TraceEvent) (sid : String)
    → times_of (gather acc events) sid ≡ times_of acc sid ++ resumes events sid
unfolding gather resumes
times_of-gather acc [] sid = sym (append-nil (times_of acc sid))
times_of-gather acc (e ∷ events) sid =
    times_of-gather (add_event acc e) events sid
    ∙ rw (times_of-add acc e sid, append_assoc)
        (ap (λ l. times_of acc sid ++ l) (resumes-cons e events sid))

get-sort_values :
    (acc : TraceOracle) (sid : String)
    → Dict.get (sort_values acc) sid ≡ Option.map sort_times (Dict.get acc sid)
unfolding sort_values Dict.get
get-sort_values [] sid = refl
get-sort_values ((k, ts) ∷ acc) sid = ground (arith, get-sort_values acc sid)

answer-IsNext :
    (ss : List ℕ → ℕ → ℕ) (acc : TraceOracle) (sid : String) (t : ℕ) (o : Option (List ℕ))
    → IsSearchsorted ss
    → Dict.get acc sid ≡ o
    → IsNext (times_of acc sid) t (next_resume_after ss (sort_values acc) sid t)
unfolding next_resume_after
answer-IsNext ss acc sid t none k e =
    let times : times_of acc sid ≡ [] = ground arith in
    let answer : next_resume_after ss (sort_values acc) sid t ≡ none =
      ground (arith, get-sort_values acc sid) in
    subst (λ l. IsNext l t (next_resume_after ss (sort_values acc) sid t)) (sym times)
      (subst (IsNext [] t) (sym answer) (λ s a. elim a [ ]))
answer-IsNext ss acc sid t (some ts) k e =
    let times : times_of acc sid ≡ ts = ground arith in
    let answer : next_resume_after ss (sort_values acc) sid t ≡ next_in ss (sort_times ts) t =
      ground (arith, get-sort_values acc sid) in
    subst (λ l. IsNext l t (next_resume_after ss (sort_values acc) sid t)) (sym times)
      (subst (IsNext ts t) (sym answer) (
        sorted-IsNext ts t (next_in ss (sort_times ts) t)
          (next_in-IsNext ss (sort_times ts) t k (sort_times-IsSorted ts))))

-- Where numpy's search does what it documents, the oracle of a trace answers the time of the first
-- resume of the session strictly after `t`, or none where the trace has no later one.
pub next_resume_after-IsNext :
    (ss : List ℕ → ℕ → ℕ) (events : List TraceEvent) (sid : String) (t : ℕ)
    → IsSearchsorted ss
    → IsNext (resumes events sid) t (next_resume_after ss (trace_oracle events) sid t)
unfolding trace_oracle Dict.get
next_resume_after-IsNext ss events sid t k =
    subst (λ l. IsNext l t (next_resume_after ss (sort_values (gather [] events)) sid t))
      (times_of-gather [] events sid)
      (answer-IsNext ss (gather [] events) sid t (Dict.get (gather [] events) sid) k refl)

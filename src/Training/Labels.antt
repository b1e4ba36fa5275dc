-- ===== src/Training/Labels.antt =====
-- eviction/train_predictors.py: the labels, against the trace oracle of eviction/oracle.py, without
-- rounding.
use native.Mathlib.Nat.{mul-le-mul_right}
use kv_cache_tier_persistenc.Prelude.{
  ℕ, ◌-◌, ◌*◌, ◌≤◌, ◌<◌, ◌≡◌, refl, ap, ◌∙◌, inl, inr, String, Bool, true, false, not, ◌&&◌, ◌||◌,
  Option, none, some, List, [], ◌∷◌, map, ltb, if◌then◌else◌, arith, Bool-cases,
}
use kv_cache_tier_persistenc.Float.Exact.{Fraction, exact, over, den}
use kv_cache_tier_persistenc.Index.{select}
use kv_cache_tier_persistenc.Eviction.Oracle.{TraceEvent, trace_oracle, next_resume_after}
use kv_cache_tier_persistenc.Eviction.Oracle.Classifier.{indicator}
use kv_cache_tier_persistenc.Eviction.Oracle.Trace.{resumes, Among, IsNext, IsSearchsorted}
use kv_cache_tier_persistenc.Eviction.Oracle.Trace.Built.{next_resume_after-IsNext}
use kv_cache_tier_persistenc.Training.{
  WorkloadEvent, session_events, label, any_resume, resumes_within,
}

-- what the oracle reads of an event
abbrev pub seen : WorkloadEvent → TraceEvent
seen e = record { action = e.action; session_id = e.session_id; timestamp = e.timestamp }

-- the classifier's ground truth: whether the next access lies within the window
abbrev pub truth : Fraction → ℕ → Option ℕ → Fraction
truth window now none = exact.of_nat 0
truth window now (some next) =
    indicator exact window (exact.sub (exact.of_nat next) (exact.of_nat now))

module _ (w : Fraction) (now : ℕ) where
  abbrev beyond : ℕ → Bool
  beyond t = exact.lt w (exact.sub (exact.of_nat t) (exact.of_nat now))

  any_in : List ℕ → Bool
  any_in [] = false
  any_in (t ∷ l) = (ltb now t && not (beyond t)) || any_in l

  any_resume-in :
      (events : List WorkloadEvent) (sid : String)
      → any_resume exact w now (session_events events sid) ≡ any_in (resumes (map seen events) sid)
  unfolding any_resume resumes_within session_events select resumes any_in
  any_resume-in [] sid = refl
  any_resume-in (e ∷ events) sid = ground (arith, any_resume-in events sid)

  beyond_mono : (r t : ℕ) → r ≤ t → beyond r ≡ true → beyond t ≡ true
  unfolding over
  beyond_mono r t le h =
      let more : r * 1 - now * 1 ≤ t * 1 - now * 1 = omega arith in
      ground (arith, mul-le-mul_right (den w) more)

  none_in : (l : List ℕ) → ((s : ℕ) → Among s l → s ≤ now) → any_in l ≡ false
  unfolding any_in
  none_in [] h = refl
  none_in (t ∷ l) h = ground (arith, h t (inl refl), none_in l (λ s a. h s (inr a)))

  beyond_in :
      (r : ℕ) (l : List ℕ)
      → beyond r ≡ true
      → ((s : ℕ) → Among s l → now < s → r ≤ s)
      → any_in l ≡ false
  unfolding any_in
  beyond_in r [] b h = refl
  beyond_in r (t ∷ l) b h = elim (Bool-cases (ltb now t)) [
    | inl q ↦
        let c : beyond t ≡ true = beyond_mono r t (h t (inl refl) (ground arith)) b in
        rw (q, c) (beyond_in r l b (λ s a. h s (inr a)))
    | inr q ↦ rw q (beyond_in r l b (λ s a. h s (inr a)))
  ]

  found_in : (r : ℕ) (l : List ℕ) → now < r → beyond r ≡ false → Among r l → any_in l ≡ true
  unfolding any_in
  found_in r [] lt b a = elim a [ ]
  found_in r (t ∷ l) lt b (inl e) =
      let q : ltb now t ≡ true = ground arith in
      let c : beyond t ≡ false = ap beyond e ∙ b in rw (q, c) refl
  found_in r (t ∷ l) lt b (inr a) = ground (arith, found_in r l lt b a)

  any_in-truth :
      (l : List ℕ) (o : Option ℕ)
      → IsNext l now o
      → exact.of_nat (if any_in l then 1 else 0) ≡ truth w now o
  any_in-truth l none h = rw (none_in l h) refl
  any_in-truth l (some r) h = elim (Bool-cases (beyond r)) [
    | inl b ↦ rw (beyond_in r l b h.2) (unfold indicator in rw b refl)
    | inr b ↦ rw (found_in r l h.1 b h.0) (unfold indicator in rw b refl)
  ]

-- Without rounding, and where numpy's search does what it documents: the label of the end of a
-- session, at any time of any trace, is the ground truth that the oracle of that trace gives the
-- classifier, whether the next resume of the session lies within the window.
pub label-truth :
    (ss : List ℕ → ℕ → ℕ) (w : Fraction) (events : List WorkloadEvent) (e : WorkloadEvent)
    → IsSearchsorted ss
    → exact.of_nat (label exact w (session_events events e.session_id) e)
      ≡ truth w e.timestamp
          (next_resume_after ss (trace_oracle (map seen events)) e.session_id e.timestamp)
unfolding label
label-truth ss w events e k = rw (any_resume-in w e.timestamp events e.session_id) (
    any_in-truth w e.timestamp (resumes (map seen events) e.session_id)
      (next_resume_after ss (trace_oracle (map seen events)) e.session_id e.timestamp)
      (next_resume_after-IsNext ss (map seen events) e.session_id e.timestamp k))

-- ===== src/Eviction/Oracle/Agreement.antt =====
-- eviction/oracle.py: `OracleClassifierPolicy` without rounding, against `BeladyPolicy`.
use native.Mathlib.Nat.{mul-le-mul_right}
use kv_cache_tier_persistenc.Prelude.{
  ℕ, ◌+◌, ◌-◌, ◌*◌, ◌≤◌, ◌<◌, ◌≡◌, refl, sym, ap, ◌∙◌, inl, inr, String, Bool, true, false, Option,
  none, some, List, [], ◌∷◌, ltb, if◌then◌else◌, arith, Bool-cases,
}
use kv_cache_tier_persistenc.Dict.{Dict}
use kv_cache_tier_persistenc.Float.{Floats}
use kv_cache_tier_persistenc.Eviction.Policy.{IsSound}
use kv_cache_tier_persistenc.Eviction.Scores.Least.{select_least-contains, score_all-contains}
use kv_cache_tier_persistenc.Float.Exact.{Fraction, exact, over, den}
use kv_cache_tier_persistenc.Index.{CacheEntry}
use kv_cache_tier_persistenc.Eviction.MinKey.{min_from, min_key}
use kv_cache_tier_persistenc.Eviction.Scores.{score_all, select_least}
use kv_cache_tier_persistenc.Eviction.Oracle.{
  TraceEvent, TraceOracle, trace_oracle, sooner, later, next_access, next_resume_after,
}
use kv_cache_tier_persistenc.Eviction.Oracle.Belady
use kv_cache_tier_persistenc.Eviction.Oracle.Classifier
use kv_cache_tier_persistenc.Eviction.Oracle.Classifier.{score_at, indicator, tie}
use kv_cache_tier_persistenc.Eviction.Oracle.Trace.{resumes, IsNext, IsSearchsorted}
use kv_cache_tier_persistenc.Eviction.Oracle.Trace.Built.{next_resume_after-IsNext}

-- Scores that compare alike choose alike.
min_from_alike :
    {A B : Type 0} (lt : A → A → Bool) (lt' : B → B → Bool) (g : String → CacheEntry → A)
    (h : String → CacheEntry → B) (d : Dict CacheEntry) (best : String) (e : CacheEntry)
    → ((j k : String) (x y : CacheEntry) → lt (g j x) (g k y) ≡ lt' (h j x) (h k y))
    → min_from lt (score_all g d) best (g best e) ≡ min_from lt' (score_all h d) best (h best e)
unfolding min_from score_all
min_from_alike lt lt' g h [] best e a = refl
min_from_alike lt lt' g h ((k, y) ∷ d) best e a = elim (Bool-cases (lt (g k y) (g best e))) [
  | inl q ↦ rw (q, sym (a k best y e) ∙ q, min_from) (min_from_alike lt lt' g h d k y a)
  | inr q ↦ rw (q, sym (a k best y e) ∙ q, min_from) (min_from_alike lt lt' g h d best e a)
]

select_least_alike :
    {A B : Type 0} (lt : A → A → Bool) (lt' : B → B → Bool) (g : String → CacheEntry → A)
    (h : String → CacheEntry → B) (d : Dict CacheEntry)
    → ((j k : String) (x y : CacheEntry) → lt (g j x) (g k y) ≡ lt' (h j x) (h k y))
    → select_least lt (score_all g) d ≡ select_least lt' (score_all h) d
unfolding select_least min_key score_all
select_least_alike lt lt' g h [] a = refl
select_least_alike lt lt' g h ((k, y) ∷ d) a = ap some (min_from_alike lt lt' g h d k y a)

-- A next access lies after `now`.
abbrev After : ℕ → Option ℕ → Type 0
After now none = Unit
After now (some next) = now < next

abbrev whole : ℕ → Fraction
whole d = record { num = d; below = 0 }

gap_lem : (now r : ℕ) → exact.sub (exact.of_nat r) (exact.of_nat now) ≡ whole (r - now)
unfolding over
gap_lem now r = ap whole (omega arith)

-- the indicator as a number, and the denominator of the tie-break
abbrev bit : Fraction → ℕ → ℕ
bit w d = if exact.lt w (whole d) then 0 else 1

abbrev scale : ℕ → ℕ
scale d = 1000000 * (3600 + d)

tie_lem : (d : ℕ) → ((tie exact (whole d)).num ≡ 3600) × (den (tie exact (whole d)) ≡ scale d)
unfolding tie over
tie_lem d = (omega arith, omega arith)

indicator_lem : (w : Fraction) (d : ℕ) → indicator exact w (whole d) ≡ whole (bit w d)
unfolding indicator
indicator_lem w d = elim (Bool-cases (exact.lt w (whole d))) [
  | inl q ↦ rw q refl
  | inr q ↦ rw q refl
]

add_whole :
    (i : ℕ) (y : Fraction)
    → ((exact.add (whole i) y).num ≡ i * den y + y.num) × (den (exact.add (whole i) y) ≡ den y)
unfolding over
add_whole i y = (omega arith, omega arith)

score_lem :
    (w : Fraction) (now r : ℕ)
    → ((score_at exact w now (some r)).num ≡ bit w (r - now) * scale (r - now) + 3600)
      × (den (score_at exact w now (some r)) ≡ scale (r - now))
unfolding score_at
score_lem w now r =
    let d = r - now in
    let (n, m) = add_whole (bit w d) (tie exact (whole d)) in
    let (t, u) = tie_lem d in
    let y = tie exact (whole d) in
    let e : score_at exact w now (some r) ≡ exact.add (whole (bit w d)) y =
      ap (λ x. exact.add (indicator exact w x) (tie exact x)) (gap_lem now r)
      ∙ ap (λ x. exact.add x y) (indicator_lem w d) in
    (
      ap (λ x. x.num) e ∙ n ∙ ap (λ z. bit w d * z + y.num) u ∙ ap (λ z. bit w d * scale d + z) t,
      ap den e ∙ m ∙ u,
    )

bit_antitone : (w : Fraction) (d e : ℕ) → d ≤ e → bit w e ≤ bit w d
bit_antitone w d e le = ground (arith, mul-le-mul_right (den w) le)

lt→ltb : (a b : ℕ) → a < b → ltb a b ≡ true
lt→ltb a b h = ground arith

le→ltb : (a b : ℕ) → b ≤ a → ltb a b ≡ false
le→ltb a b h = ground arith

less : (i j d e : ℕ) → e < d → i ≤ j → (i * d + 3600) * e < (j * e + 3600) * d
less i j d e lt le = grind (arith, mul-le-mul_right (d * e) le)

less_or_equal : (i j d e : ℕ) → d ≤ e → j ≤ i → (j * e + 3600) * d ≤ (i * d + 3600) * e
less_or_equal i j d e le l = grind (arith, mul-le-mul_right (d * e) l)

moved : (now r s : ℕ) → now < r → now < s → ltb (s - now) (r - now) ≡ ltb s r
moved now r s p q = ground arith

-- The scores of two gaps compare the other way round.
scores_lt :
    (i j d e : ℕ)
    → (d ≤ e → j ≤ i)
    → (e ≤ d → i ≤ j)
    → ltb ((i * scale d + 3600) * scale e) ((j * scale e + 3600) * scale d) ≡ ltb e d
scores_lt i j d e p q = elim (Bool-cases (ltb e d)) [
  | inl t ↦
      sym (t ∙ sym (lt→ltb _ _ (less i j (scale d) (scale e) (ground arith) (q (ground arith)))))
  | inr t ↦ sym (
      t
      ∙ sym (le→ltb _ _ (less_or_equal i j (scale d) (scale e) (ground arith) (p (ground arith)))))
]

none_lem : (w : Fraction) (now : ℕ) → score_at exact w now none ≡ whole 0
unfolding score_at over
none_lem w now = refl

-- The score compares as the time does, the other way round.
score_lt :
    (w : Fraction) (now : ℕ) (a b : Option ℕ)
    → After now a
    → After now b
    → exact.lt (score_at exact w now a) (score_at exact w now b) ≡ later a b
unfolding sooner
score_lt w now none none p q = unfold score_at over in refl
score_lt w now none (some r) p q =
    let (n, m) = score_lem w now r in rw (none_lem w now, n, m) (ground arith)
score_lt w now (some r) none p q =
    let (n, m) = score_lem w now r in rw (none_lem w now, n, m) (ground arith)
score_lt w now (some r) (some s) p q =
    let (n, m) = score_lem w now r in
    let (k, l) = score_lem w now s in
    rw (n, m, k, l)
      (scores_lt (bit w (r - now)) (bit w (s - now)) (r - now) (s - now)
          (bit_antitone w (r - now) (s - now)) (bit_antitone w (s - now) (r - now))
        ∙ moved now r s p q)

-- Without rounding, and where numpy's search does what it documents, the oracle of the classifier
-- chooses the victim that Belady's policy chooses, whatever its window is.
pub classifier-belady :
    (ss : List ℕ → ℕ → ℕ) (events : List TraceEvent) (window : Fraction) (now : ℕ)
    (entries : Dict CacheEntry)
    → IsSearchsorted ss
    → Classifier.select_victim exact ss (trace_oracle events) window now entries
      ≡ Belady.select_victim ss (trace_oracle events) now entries
unfolding Classifier.select_victim Classifier.get_scores Belady.select_victim
classifier-belady ss events window now entries k =
    select_least_alike exact.lt later
      (λ sid e. score_at exact window now (next_access ss (trace_oracle events) now sid e))
      (next_access ss (trace_oracle events) now) entries
      (λ i j x y.
        score_lt window now (next_access ss (trace_oracle events) now i x)
          (next_access ss (trace_oracle events) now j y) (is_after i) (is_after j))
  where
    after_next : (l : List ℕ) (o : Option ℕ) → IsNext l now o → After now o
    after_next l none h = tt
    after_next l (some r) h = h.1

    is_after : (sid : String) → After now (next_resume_after ss (trace_oracle events) sid now)
    is_after sid =
        after_next (resumes events sid) (next_resume_after ss (trace_oracle events) sid now)
          (next_resume_after-IsNext ss events sid now k)

pub oracle_classifier-IsSound :
    {F : Type 0} (f : Floats F) (ss : List ℕ → ℕ → ℕ) (oracle : TraceOracle) (window : F)
    → IsSound (Classifier.oracle_classifier f ss oracle window)
unfolding Classifier.oracle_classifier Classifier.select_victim Classifier.get_scores
oracle_classifier-IsSound {F} f ss oracle window = record {
  candidate = λ s now d v h.
      let score : String → CacheEntry → F =
        λ sid e. score_at f window now (next_access ss oracle now sid e) in
      select_least-contains f.lt (score_all score) d v (score_all-contains score d) h;
}

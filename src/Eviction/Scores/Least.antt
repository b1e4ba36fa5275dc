-- ===== src/Eviction/Scores/Least.antt =====
-- What a choice of the least score gives to a policy, whatever its score is.
use mathlib.Core.Option
use mathlib.Core.Path.{subst}
use kv_cache_tier_persistenc.Prelude.{
  ℕ, String, ◌≡◌, refl, ap, Bool, true, some, List, [], ◌∷◌, map, arith, eq_iff, Option-cases, inl,
  inr,
}
use kv_cache_tier_persistenc.Dict
use kv_cache_tier_persistenc.Dict.{Dict}
use kv_cache_tier_persistenc.Float.{Floats, IsOrdered, AtMost}
use kv_cache_tier_persistenc.Index.{CacheEntry}
use kv_cache_tier_persistenc.Eviction.MinKey.{
  min_key, min_key-contains, min_key_least, IsLeastKey, min_from,
}
use kv_cache_tier_persistenc.Eviction.Features.{FeatureExtractor, build}
use kv_cache_tier_persistenc.Eviction.Scores.{
  ResumePredictor, IsRowwise, score_all, zip_scores, batch_scores, select_least,
}

pub get-score_all :
    {F : Type 0} (score : String → CacheEntry → F) (entries : Dict CacheEntry) (k : String)
    → Dict.get (score_all score entries) k ≡ Option.map (score k) (Dict.get entries k)
unfolding score_all Dict.get
get-score_all score [] k = refl
get-score_all score ((j, e) ∷ entries) k = ground (arith, eq_iff j k, get-score_all score entries k)

score_all-IsUnique :
    {F : Type 0} (score : String → CacheEntry → F) (entries : Dict CacheEntry)
    → Dict.IsUnique entries
    → Dict.IsUnique (score_all score entries)
unfolding score_all
score_all-IsUnique score [] u = tt
score_all-IsUnique score ((j, e) ∷ entries) u =
    (ground (arith, get-score_all score entries j), score_all-IsUnique score entries u.1)

zip_scores-map :
    {F : Type 0} (predict : CacheEntry → F) (score : String → CacheEntry → F → F)
    (d : Dict CacheEntry)
    → zip_scores score d (map predict (Dict.values d))
      ≡ score_all (λ sid e. score sid e (predict e)) d
unfolding zip_scores score_all
zip_scores-map predict score [] = refl
zip_scores-map predict score ((sid, e) ∷ d) =
    ap (λ l. (sid, score sid e (predict e)) ∷ l) (zip_scores-map predict score d)

map-map {ℓ} :
    {A B C : Type ℓ} (g : B → C) (h : A → B) (l : List A) → map g (map h l) ≡ map (λ a. g (h a)) l
map-map g h [] = refl
map-map g h (a ∷ l) = ap (λ r. g (h a) ∷ r) (map-map g h l)

-- One call for the batch scores each candidate as a call of its own would.
pub batch_scores-score_all :
    {F : Type 0} (f : Floats F) (p : ResumePredictor F) (x : FeatureExtractor) (now : ℕ)
    (score : String → CacheEntry → F → F) (entries : Dict CacheEntry)
    → IsRowwise p
    → batch_scores f p x now score entries
      ≡ score_all (λ sid e. score sid e (p.predict_resume_probability (build f x now e))) entries
unfolding batch_scores
batch_scores-score_all f p x now score entries r =
    rw
      (
        r (map (build f x now) (Dict.values entries)),
        map-map p.predict_resume_probability (build f x now) (Dict.values entries),
      )
      (zip_scores-map (λ e. p.predict_resume_probability (build f x now e)) score entries)

-- The candidate `v`, and no candidate's score is less than its own.
pub record IsLeastScored {F : Type 0} (lt : F → F → Bool) (score : String → CacheEntry → F)
    (entries : Dict CacheEntry) (v : String) : Type 0 where
  pub entry : CacheEntry
  pub candidate : Dict.get entries v ≡ some entry
  pub least :
      (k : String) (e : CacheEntry)
      → Dict.get entries k ≡ some e
      → AtMost lt (score v entry) (score k e)

of_key :
    {F : Type 0} (lt : F → F → Bool) (score : String → CacheEntry → F) (entries : Dict CacheEntry)
    (v : String)
    → IsLeastKey lt (score_all score entries) v
    → IsLeastScored lt score entries v
of_key lt score entries v l = elim (Option-cases (Dict.get entries v)) [
  | inl n ↦ absurd (cc (l.scored, get-score_all score entries v, n))
  | inr (entry, q) ↦
      let same : l.score ≡ score v entry =
        ground (arith, l.scored, get-score_all score entries v) in
      record {
        entry = entry;
        candidate = q;
        least = λ k e g.
            subst (λ s. AtMost lt s (score k e)) same
              (l.least k (score k e) (ground (arith, get-score_all score entries k)));
      }
]

pub select_least_lem :
    {F : Type 0} (lt : F → F → Bool) (o : IsOrdered lt) (scores : Dict CacheEntry → Dict F)
    (score : String → CacheEntry → F) (b : String × CacheEntry) (entries : Dict CacheEntry)
    → Dict.IsUnique (b ∷ entries)
    → scores (b ∷ entries) ≡ score_all score (b ∷ entries)
    → (v : String) × (select_least lt scores (b ∷ entries) ≡ some v)
      × IsLeastScored lt score (b ∷ entries) v
unfolding select_least
select_least_lem lt o scores score (sid, c) entries u e =
    let v = min_from lt (score_all score entries) sid (score sid c) in
    let picked : min_key lt (score_all score ((sid, c) ∷ entries)) ≡ some v =
      unfold score_all min_key in refl in
    (
      v,
      rw e picked,
      of_key lt score ((sid, c) ∷ entries) v (
          min_key_least lt o (score_all score ((sid, c) ∷ entries)) v
            (score_all-IsUnique score ((sid, c) ∷ entries) u) picked),
    )

zip_scores-contains :
    {F : Type 0} (score : String → CacheEntry → F → F) (d : Dict CacheEntry) (probs : List F)
    (v : String)
    → Dict.contains (zip_scores score d probs) v ≡ true
    → Dict.contains d v ≡ true
unfolding zip_scores Dict.get
zip_scores-contains score [] probs v h = h
zip_scores-contains score ((sid, e) ∷ d) [] v h = cc
zip_scores-contains score ((sid, e) ∷ d) (p ∷ probs) v h =
    ground (arith, zip_scores-contains score d probs v)

pub batch_scores-contains :
    {F : Type 0} (f : Floats F) (p : ResumePredictor F) (x : FeatureExtractor) (now : ℕ)
    (score : String → CacheEntry → F → F) (d : Dict CacheEntry) (v : String)
    → Dict.contains (batch_scores f p x now score d) v ≡ true
    → Dict.contains d v ≡ true
unfolding batch_scores
batch_scores-contains f p x now score d v h =
    zip_scores-contains score d (p.predict_batch (map (build f x now) (Dict.values d))) v h

pub score_all-contains :
    {F : Type 0} (score : String → CacheEntry → F) (d : Dict CacheEntry) (v : String)
    → Dict.contains (score_all score d) v ≡ true
    → Dict.contains d v ≡ true
score_all-contains score d v h = ground (arith, get-score_all score d v)

-- The choice is a candidate wherever the scored are.
pub select_least-contains :
    {F : Type 0} (lt : F → F → Bool) (scores : Dict CacheEntry → Dict F) (d : Dict CacheEntry)
    (v : String)
    → ((w : String) → Dict.contains (scores d) w ≡ true → Dict.contains d w ≡ true)
    → select_least lt scores d ≡ some v
    → Dict.contains d v ≡ true
unfolding select_least
select_least-contains lt scores [] v k h = cc
select_least-contains lt scores (b ∷ d) v k h = k v (min_key-contains lt (scores (b ∷ d)) v h)

-- ===== src/Eviction/SpaceTime/Victim.antt =====
-- eviction/space_time.py: the victim, against the density of each candidate alone.
use kv_cache_tier_persistenc.Prelude.{ℕ, String, ◌≡◌, refl, true, Option, none, some, ◌∷◌}
use kv_cache_tier_persistenc.Dict
use kv_cache_tier_persistenc.Dict.{Dict}
use kv_cache_tier_persistenc.Float.{Floats, IsOrdered}
use kv_cache_tier_persistenc.Index.{CacheEntry}
use kv_cache_tier_persistenc.Eviction.Policy.{IsSound}
use kv_cache_tier_persistenc.Eviction.Scores.{ResumePredictor, IsFair, score_all}
use kv_cache_tier_persistenc.Eviction.Scores.Least.{
  IsLeastScored, select_least_lem, batch_scores-score_all, select_least-contains,
  batch_scores-contains, score_all-contains,
}
use kv_cache_tier_persistenc.Eviction.SpaceTime.{
  SpaceTimeDensityPolicy, Gaps, space_time_density, density_scores, scores_with, density_with,
  density_at, select_victim, space_time_policy,
}

module _ {F : Type 0} (f : Floats F) (c : SpaceTimeDensityPolicy F) where
  scores_with-score_all :
      (o : Option (ResumePredictor F)) (s : Gaps F) (now : ℕ) (entries : Dict CacheEntry)
      → IsFair o
      → scores_with f c o s now entries ≡ score_all (density_with f c o s now) entries
  unfolding scores_with density_with
  scores_with-score_all none s now entries r = refl
  scores_with-score_all (some p) s now entries r =
      batch_scores-score_all f p s.features now (density_at f c s now) entries r

  scores_with-contains :
      (o : Option (ResumePredictor F)) (s : Gaps F) (now : ℕ) (d : Dict CacheEntry) (v : String)
      → Dict.contains (scores_with f c o s now d) v ≡ true
      → Dict.contains d v ≡ true
  unfolding scores_with
  scores_with-contains none s now d v h = score_all-contains (density_with f c none s now) d v h
  scores_with-contains (some p) s now d v h =
      batch_scores-contains f p s.features now (density_at f c s now) d v h

  -- Where floats are ordered and the predictor scores row by row, any non-empty dict of candidates
  -- has a victim, which is one of them, and no candidate has a smaller space-time density.
  pub select_victim_cheapest :
      (s : Gaps F) (now : ℕ) (b : String × CacheEntry) (entries : Dict CacheEntry)
      → IsOrdered f.lt
      → IsFair c.predictor
      → Dict.IsUnique (b ∷ entries)
      → (v : String) × (select_victim f c s now (b ∷ entries) ≡ some v)
        × IsLeastScored f.lt (space_time_density f c s now) (b ∷ entries) v
  unfolding select_victim density_scores space_time_density
  select_victim_cheapest s now b entries o r u =
      select_least_lem f.lt o (density_scores f c s now) (space_time_density f c s now) b entries u
        (scores_with-score_all c.predictor s now (b ∷ entries) r)

  pub space_time-IsSound : IsSound (space_time_policy f c)
  unfolding space_time_policy select_victim density_scores
  space_time-IsSound = record {
    candidate = λ s now d v h.
        select_least-contains f.lt (scores_with f c c.predictor s now) d v
          (scores_with-contains c.predictor s now d) h;
  }

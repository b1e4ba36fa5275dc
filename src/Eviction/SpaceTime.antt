-- ===== src/Eviction/SpaceTime.antt =====
-- eviction/space_time.py: `SpaceTimeDensityPolicy`, the least expected value for each byte and
-- second. Its state is the access history, the moving average of the gaps and the last access seen.
pub mod Victim
pub mod Gap
use kv_cache_tier_persistenc.Prelude.{
  ℕ, String, Bool, false, Option, none, some, max, if◌then◌else◌,
}
use kv_cache_tier_persistenc.Dict
use kv_cache_tier_persistenc.Dict.{Dict}
use kv_cache_tier_persistenc.Float.{Floats, max_of}
use kv_cache_tier_persistenc.Index.{CacheEntry}
use kv_cache_tier_persistenc.CostModel.{CostModel, compute_recompute_time}
use kv_cache_tier_persistenc.Eviction.Policy.{EvictionPolicy}
use kv_cache_tier_persistenc.Eviction.Features.{FeatureExtractor, record_access, build}
use kv_cache_tier_persistenc.Eviction.Scores.{
  ResumePredictor, score_all, batch_scores, select_least,
}

pub record SpaceTimeDensityPolicy (F : Type 0) : Type 0 where
  pub predictor : Option (ResumePredictor F)
  pub cost_model : CostModel F
  pub prior_gap_seconds : F
  pub ema_alpha : F

pub record Gaps (F : Type 0) : Type 0 where
  pub features : FeatureExtractor
  pub gap_ema : Dict F
  pub last_seen : Dict ℕ

module _ {F : Type 0} where
  abbrev pub recorded : Gaps F → ℕ → String → CacheEntry → Gaps F
  recorded s now sid e = record s {
    features = record_access s.features now e.user_id sid e.token_count;
  }

  unfoldable pub on_insert : Gaps F → ℕ → String → CacheEntry → Gaps F
  on_insert s now sid e = record (recorded s now sid e) { last_seen = Dict.put s.last_seen sid now }

module _ {F : Type 0} (f : Floats F) (c : SpaceTimeDensityPolicy F) where
  -- alpha * gap + (1 - alpha) * ema, or the first gap
  unfoldable pub smoothed : Option F → F → F
  smoothed none gap = gap
  smoothed (some ema) gap =
      f.add (f.mul c.ema_alpha gap) (f.mul (f.sub (f.of_nat 1) c.ema_alpha) ema)

  unfoldable pub observe : Dict F → ℕ → String → Option ℕ → Dict F
  unfolding smoothed
  observe emas now sid none = emas
  observe emas now sid (some prev) =
      let gap = f.sub (f.of_nat now) (f.of_nat prev) in
      if f.lt (f.of_nat 0) gap then Dict.put emas sid (smoothed (Dict.get emas sid) gap) else emas

  unfoldable pub on_access : Gaps F → ℕ → String → CacheEntry → Gaps F
  unfolding observe
  on_access s now sid e = record (recorded s now sid e) {
    gap_ema = observe s.gap_ema now sid (Dict.get s.last_seen sid);
    last_seen = Dict.put s.last_seen sid now;
  }

  abbrev pub ema_or_prior : Option F → F
  ema_or_prior none = c.prior_gap_seconds
  ema_or_prior (some ema) = ema

  -- max(now - entry.last_accessed, 0.0)
  unfoldable pub idle : ℕ → CacheEntry → F
  idle now e = max_of f (f.sub (f.of_nat now) (f.of_nat e.last_accessed)) (f.of_nat 0)

  unfoldable pub expected_gap_seconds : Gaps F → ℕ → String → CacheEntry → F
  unfolding idle
  expected_gap_seconds s now sid e =
      max_of f (max_of f (ema_or_prior (Dict.get s.gap_ema sid)) (idle now e)) (f.of_nat 1)

  -- with the probability given
  unfoldable pub density_at : Gaps F → ℕ → String → CacheEntry → F → F
  unfolding expected_gap_seconds
  density_at s now sid e p =
      f.div (f.mul p (compute_recompute_time f c.cost_model e.token_count))
        (f.mul (f.of_nat (max e.size_bytes 1)) (expected_gap_seconds s now sid e))

  unfoldable pub density_with : Option (ResumePredictor F) → Gaps F → ℕ → String → CacheEntry → F
  unfolding density_at
  density_with none s now sid e = density_at s now sid e (f.literal 5 10)
  density_with (some p) s now sid e =
      density_at s now sid e (p.predict_resume_probability (build f s.features now e))

  unfoldable pub space_time_density : Gaps F → ℕ → String → CacheEntry → F
  unfolding density_with
  space_time_density = density_with c.predictor

  unfoldable pub scores_with : Option (ResumePredictor F) → Gaps F → ℕ → Dict CacheEntry → Dict F
  unfolding density_with
  scores_with none s now entries = score_all (density_with none s now) entries
  scores_with (some p) s now entries = batch_scores f p s.features now (density_at s now) entries

  -- `_batch_scores`, also `get_scores`
  unfoldable pub density_scores : Gaps F → ℕ → Dict CacheEntry → Dict F
  unfolding scores_with
  density_scores = scores_with c.predictor

  unfoldable pub select_victim : Gaps F → ℕ → Dict CacheEntry → Option String
  unfolding density_scores
  select_victim s now entries = select_least f.lt (density_scores s now) entries

  unfoldable pub space_time_policy : EvictionPolicy (Gaps F)
  space_time_policy = record {
    on_access = on_access;
    on_insert = on_insert;
    on_remove = λ s sid. s;
    select_victim = select_victim;
    should_evict = λ s now sid e. false;
  }

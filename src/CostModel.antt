-- ===== src/CostModel.antt =====
-- utils/cost_model.py: what a hit saves, and the search for the least session that is worth a
-- restore. The loop of the search runs on fuel.
pub mod Breakeven
pub mod Economics
use kv_cache_tier_persistenc.Prelude.{
  ℕ, zero, suc, ◌+◌, ◌*◌, ◌/◌, String, Bool, true, false, not, Option, none, some, str_eq, ◌==◌,
  ltb, if◌then◌else◌,
}
use kv_cache_tier_persistenc.Result.{Result, ok, raise, value_error, out_of_depth, ◌>>=◌}
use kv_cache_tier_persistenc.Float.{Floats, max_of}
use kv_cache_tier_persistenc.Hardware
use kv_cache_tier_persistenc.Hardware.{ModelSpec, GpuSpec, StorageSpec}

pub record CostModel (F : Type 0) : Type 0 where
  pub model_spec : ModelSpec F
  pub gpu : GpuSpec F
  pub gpu_cost_per_hour : F
  pub hot_restore_latency_s : F
  pub warm : StorageSpec F
  pub cold : StorageSpec F

module _ {F : Type 0} (f : Floats F) where
  abbrev pub default : CostModel F
  default = record {
    model_spec = Hardware.tinyllama_1_1b f;
    gpu = Hardware.a100 f;
    gpu_cost_per_hour = f.literal 250 100;
    hot_restore_latency_s = f.literal 1 10000;
    warm = Hardware.nvme f;
    cold = Hardware.object_store f;
  }

  unfoldable pub compute_recompute_time : CostModel F → ℕ → F
  compute_recompute_time c token_count =
      if token_count == 0
      then f.of_nat 0
      else f.div (Hardware.prefill_flops f c.model_spec token_count)
          (Hardware.effective_flops f c.gpu)

  unfoldable pub kv_bytes : CostModel F → ℕ → F
  kv_bytes c token_count = f.of_nat (Hardware.kv_bytes_per_token c.model_spec 2 * token_count)

  unfoldable pub tier_time : CostModel F → String → F → Result F
  tier_time c tier size_bytes =
      if str_eq tier "hot"
      then ok c.hot_restore_latency_s
      else if str_eq tier "warm"
      then ok (Hardware.transfer_time_s f c.warm size_bytes)
      else if str_eq tier "cold"
      then ok (Hardware.transfer_time_s f c.cold size_bytes)
      else raise value_error

  unfoldable pub restore_time_seconds : CostModel F → String → Option F → Option ℕ → Result F
  unfolding tier_time kv_bytes
  restore_time_seconds c tier (some size_bytes) token_count = tier_time c tier size_bytes
  restore_time_seconds c tier none (some token_count) = tier_time c tier (kv_bytes c token_count)
  restore_time_seconds c tier none none = raise value_error

  unfoldable pub savings_per_hit_seconds : CostModel F → ℕ → String → Option F → Result F
  savings_per_hit_seconds c cached_token_count tier size_bytes = do
    restore ← restore_time_seconds c tier size_bytes (some cached_token_count)
    ok (max_of f (f.sub (compute_recompute_time c cached_token_count) restore) (f.of_nat 0))

  -- `self.savings_per_hit_seconds(n, tier) > 0.0`
  unfoldable pub saves : CostModel F → String → ℕ → Result Bool
  unfolding savings_per_hit_seconds
  saves c tier n = do s ← savings_per_hit_seconds c n tier none; ok (f.lt (f.of_nat 0) s)

-- `while lo < hi`, with the test of the body as a parameter
unfoldable pub search_loop : (ℕ → Result Bool) → ℕ → ℕ → ℕ → Result ℕ
search_loop saves zero lo hi = raise out_of_depth
search_loop saves (suc fuel) lo hi = elim (ltb lo hi) [
  | false ↦ ok lo
  | true ↦ saves ((lo + hi) / 2) >>= λ positive. elim positive [
    | true ↦ search_loop saves fuel lo ((lo + hi) / 2)
    | false ↦ search_loop saves fuel ((lo + hi) / 2 + 1) hi
  ]
]

-- `<= 0.0` is the negated test: a saving is at least 0.
unfoldable pub search : (ℕ → Result Bool) → ℕ → Result (Option ℕ)
unfolding search_loop
search saves max_tokens = do
  positive ← saves max_tokens
  if positive
      then (do n ← search_loop saves (suc max_tokens) 1 max_tokens; ok (some n))
      else ok none

unfoldable pub breakeven_tokens :
    {F : Type 0} → Floats F → CostModel F → String → ℕ → Result (Option ℕ)
unfolding search saves
breakeven_tokens f c tier max_tokens = search (saves f c tier) max_tokens

-- the figures of a day, in hours of a GPU and in dollars
pub record DayFigures (F : Type 0) : Type 0 where
  pub gpu_hours_saved_per_day : F
  pub cost_saved_per_day_usd : F

-- `rounded` is Python's `round`
unfoldable pub gpu_seconds_to_usd_per_day :
    {F : Type 0} → Floats F → (F → ℕ → F) → CostModel F → F → F → DayFigures F
gpu_seconds_to_usd_per_day f rounded c gpu_seconds duration_days =
    let per_day = f.div gpu_seconds (max_of f duration_days (f.literal 1 1000000000)) in
    let hours = f.div per_day (f.literal 3600 1) in
    record {
      gpu_hours_saved_per_day = rounded hours 4;
      cost_saved_per_day_usd = rounded (f.mul hours c.gpu_cost_per_hour) 2;
    }

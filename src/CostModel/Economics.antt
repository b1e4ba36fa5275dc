-- ===== src/CostModel/Economics.antt =====
-- utils/cost_model.py without rounding: the savings as functions of the number of tokens, and the
-- search of `breakeven_tokens` over them.
use kv_cache_tier_persistenc.Prelude.{
  ℕ, zero, suc, ◌+◌, ◌*◌, ◌-◌, ◌≤◌, ◌<◌, ◌≡◌, refl, ap, sym, ◌∙◌, String, Bool, true, false, Option,
  none, some, arith, ltb, ltb→lt, inl, inr, ◌==◌, ◌⊎◌,
}
use native.Mathlib.Nat.{
  mul-le-mul_left, mul-le-mul_right, lt_of_mul-lt-mul_left, mul-lt-mul_of_pos_left,
}
use kv_cache_tier_persistenc.Result.{ok, raise}
use kv_cache_tier_persistenc.Float.{max_of}
use kv_cache_tier_persistenc.Float.Exact.{Fraction, exact, over, den}
use kv_cache_tier_persistenc.Hardware
use kv_cache_tier_persistenc.Hardware.{StorageSpec}
use kv_cache_tier_persistenc.CostModel.{
  CostModel, compute_recompute_time, tier_time, saves, restore_time_seconds, kv_bytes,
  savings_per_hit_seconds, breakeven_tokens,
}
use kv_cache_tier_persistenc.CostModel.Breakeven.{Answers, IsUpward, Found, search_least}

abbrev pub IsTier : String → Type 0
IsTier tier = (tier ≡ "hot") ⊎ (tier ≡ "warm") ⊎ (tier ≡ "cold")

superlinear : (a b n m : ℕ) → n ≤ m → m * (a * n + b * (n * n)) ≤ n * (a * m + b * (m * m))
superlinear a b n m le = grind (arith, mul-le-mul_left (b * (n * m)) le)

sublinear : (a b n m : ℕ) → n ≤ m → n * (a + b * m) ≤ m * (a + b * n)
sublinear a b n m le = grind (arith, mul-le-mul_left a le)

-- What is dearer at `n` is dearer at `m`, where one side grows faster and the other no faster than the
-- length.
crossing :
    (pn pm rn rm dp dr n m : ℕ)
    → 1 ≤ n
    → n ≤ m
    → m * pn ≤ n * pm
    → n * rm ≤ m * rn
    → rn * dp < pn * dr
    → rm * dp < pm * dr
crossing pn pm rn rm dp dr n m one le p r h = lt_of_mul-lt-mul_left n (
    grind (
      arith,
      mul-le-mul_right dr p,
      mul-le-mul_right dp r,
      mul-lt-mul_of_pos_left {k = m} h (omega arith),
    ))

lt→ltb : (a b : ℕ) → a < b → ltb a b ≡ true
lt→ltb a b h = ground arith

collect : (w h d e n : ℕ) → (w * n * 1 + h * n * n * d) * e ≡ w * e * n + h * d * e * (n * n)
collect w h d e n = grind arith

-- A saving, floored at 0, is positive exactly where the restore is cheaper.
sub_positive :
    (x y : Fraction)
    → exact.lt (exact.of_nat 0) (max_of exact (exact.sub x y) (exact.of_nat 0)) ≡ exact.lt y x
unfolding over
sub_positive x y = ground arith

module _ (c : CostModel Fraction) where
  abbrev token_bytes : ℕ
  token_bytes = 2 * c.model_spec.layers * c.model_spec.kv_heads * c.model_spec.head_dim * 2

  abbrev weights : ℕ
  weights = 2 * c.model_spec.params_b.num * 1000000000

  abbrev heads : ℕ
  heads = 4 * c.model_spec.layers * c.model_spec.q_heads * c.model_spec.head_dim

  -- the denominator of the operations of a prefill, and that of the operations in a second
  abbrev flops_den : ℕ
  flops_den = suc (suc (suc (1 * suc c.model_spec.params_b.below - 1) * 1 - 1) * 1 - 1)

  abbrev rate_den : ℕ
  rate_den = suc (suc c.gpu.peak_flops.below * suc c.gpu.mfu.below - 1)

  abbrev prefill : ℕ → ℕ
  prefill n = weights * rate_den * n + heads * flops_den * rate_den * (n * n)

  abbrev prefill_den : ℕ
  prefill_den = suc (suc (flops_den * 1 - 1) * (c.gpu.peak_flops.num * c.gpu.mfu.num) - 1)

  compute_positive :
      (n : ℕ)
      → 1 ≤ n
      → compute_recompute_time exact c n
        ≡ exact.div
            (Hardware.prefill_flops exact c.model_spec n)
            (Hardware.effective_flops exact c.gpu)
  unfolding compute_recompute_time
  compute_positive n h = let t : (n == 0) ≡ false = ground arith in rw t refl

  prefill_shape :
      (n : ℕ)
      → let x =
          exact.div
            (Hardware.prefill_flops exact c.model_spec n)
            (Hardware.effective_flops exact c.gpu) in
        (x.num ≡ prefill n) × (den x ≡ prefill_den)
  unfolding Hardware.prefill_flops Hardware.effective_flops Hardware.weight_flops
      Hardware.attn_flops over
  prefill_shape n = (collect weights heads flops_den rate_den n, refl)

  prefill_lem :
      (n : ℕ)
      → 1 ≤ n
      → ((compute_recompute_time exact c n).num ≡ prefill n)
        × (den (compute_recompute_time exact c n) ≡ prefill_den)
  prefill_lem n h = rw (compute_positive n h) (prefill_shape n)

  -- a + b * n, over d, for the time of a restore
  record Line : Type 0 where
    fixed : ℕ
    slope : ℕ
    below : ℕ

  abbrev at : Line → ℕ → Fraction
  at l n = record { num = l.fixed + l.slope * n; below = l.below }

  -- the time of a transfer, as it is computed
  transfer_line : (s : StorageSpec Fraction) → Line
  transfer_line s = record {
    fixed = s.latency_s.num * suc (1 * s.bandwidth_bytes_s.num - 1);
    slope = token_bytes * den s.bandwidth_bytes_s * den s.latency_s;
    below = den s.latency_s * suc (1 * s.bandwidth_bytes_s.num - 1) - 1;
  }

  transfer_lem :
      (s : StorageSpec Fraction) (n : ℕ)
      → Hardware.transfer_time_s exact s (kv_bytes exact c n) ≡ at (transfer_line s) n
  unfolding transfer_line kv_bytes Hardware.transfer_time_s over Hardware.kv_bytes_per_token
  transfer_lem s n = grind arith

  restore_line :
      (tier : String)
      → IsTier tier
      → (l : Line) × ((n : ℕ) → restore_time_seconds exact c tier none (some n) ≡ ok (at l n))
  unfolding restore_time_seconds tier_time
  restore_line tier (inl q) =
      let x = c.hot_restore_latency_s in
      let same : (n : ℕ) → x ≡ at (record { fixed = x.num; slope = 0; below = x.below }) n =
        λ n. ground arith in
      (record { fixed = x.num; slope = 0; below = x.below }, λ n. rw q (ap ok (same n)))
  restore_line tier (inr (inl q)) = (transfer_line c.warm, λ n. rw (q, transfer_lem c.warm n) refl)
  restore_line tier (inr (inr q)) = (transfer_line c.cold, λ n. rw (q, transfer_lem c.cold n) refl)

  compute_zero : (compute_recompute_time exact c zero).num ≡ 0
  unfolding compute_recompute_time
  compute_zero = refl

  dearer_upward :
      (l : Line) (n m : ℕ)
      → n ≤ m
      → exact.lt (at l n) (compute_recompute_time exact c n) ≡ true
      → exact.lt (at l m) (compute_recompute_time exact c m) ≡ true
  dearer_upward l zero m le h = absurd (ground (arith, compute_zero))
  dearer_upward l (suc n) m le h =
      let (pn, dn) = prefill_lem (suc n) (omega arith) in
      let (pm, dm) = prefill_lem m (omega arith) in
      lt→ltb _ _ (
        rw (pm, dm)
          (crossing (prefill (suc n)) (prefill m) (l.fixed + l.slope * suc n)
            (l.fixed + l.slope * m) prefill_den (suc l.below) (suc n) m (omega arith) le
            (superlinear (weights * rate_den) (heads * flops_den * rate_den) (suc n) m le)
            (sublinear l.fixed l.slope (suc n) m le) (rw (pn, dn) at (ltb→lt _ _ h))))

  -- The prefill of `n` tokens takes longer than their restore from the tier.
  abbrev pub dearer : String → ℕ → Bool
  dearer tier n = elim (restore_time_seconds exact c tier none (some n)) [
    | ok restore ↦ exact.lt restore (compute_recompute_time exact c n)
    | raise e ↦ false
  ]

  dearer_lem :
      (tier : String) (n : ℕ) (r : Fraction)
      → restore_time_seconds exact c tier none (some n) ≡ ok r
      → dearer tier n ≡ exact.lt r (compute_recompute_time exact c n)
  dearer_lem tier n r e = cc

  saves_lem : (tier : String) → IsTier tier → Answers (saves exact c tier) (dearer tier)
  unfolding saves savings_per_hit_seconds
  saves_lem tier t n =
      let (l, same) = restore_line tier t in
      rw (dearer_lem tier n (at l n) (same n), same n)
        (ap ok (sub_positive (compute_recompute_time exact c n) (at l n)))

  dearer-IsUpward : (tier : String) → IsTier tier → IsUpward (dearer tier)
  dearer-IsUpward tier t n m le h =
      let (l, same) = restore_line tier t in
      dearer_lem tier m (at l m) (same m)
      ∙ dearer_upward l n m le (sym (dearer_lem tier n (at l n) (same n)) ∙ h)

  -- Without rounding, for any architecture, `breakeven_tokens` of a known tier ends and returns
  -- the least positive count up to `max_tokens` whose prefill takes longer than its restore, or
  -- None where no count does.
  pub breakeven_tokens_least :
      (tier : String) (max_tokens : ℕ)
      → IsTier tier
      → 1 ≤ max_tokens
      → (o : Option ℕ) × (breakeven_tokens exact c tier max_tokens ≡ ok o)
        × Found (dearer tier) max_tokens o
  unfolding breakeven_tokens
  breakeven_tokens_least tier max_tokens t one =
      search_least (saves exact c tier) (dearer tier) (saves_lem tier t) (dearer-IsUpward tier t)
        max_tokens one

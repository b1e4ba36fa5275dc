-- ===== src/CostModel/Breakeven.antt =====
-- utils/cost_model.py: the binary search of `breakeven_tokens`, over any test of the token counts
-- that stays true once it is.
use kv_cache_tier_persistenc.Prelude.{
  ℕ, zero, suc, ◌+◌, ◌/◌, ◌≤◌, ◌<◌, ◌≡◌, ◌∙◌, refl, Bool, true, false, Option, none, some, arith,
  ltb, Bool-cases, inl, inr,
}
use kv_cache_tier_persistenc.Result.{Result, ok}
use kv_cache_tier_persistenc.CostModel.{search_loop, search}

-- The test answers `p` and never raises.
abbrev pub Answers : (ℕ → Result Bool) → (ℕ → Bool) → Type 0
Answers saves p = (n : ℕ) → saves n ≡ ok (p n)

-- A longer session than one that saves saves too.
abbrev pub IsUpward : (ℕ → Bool) → Type 0
IsUpward p = (n m : ℕ) → n ≤ m → p n ≡ true → p m ≡ true

-- `n` is the least positive number that passes.
abbrev pub IsLeast : (ℕ → Bool) → ℕ → Type 0
IsLeast p n = (1 ≤ n) × (p n ≡ true) × ((k : ℕ) → 1 ≤ k → k < n → p k ≡ false)

-- What the search answers: the least number up to `max_tokens` that passes, or none where none does.
abbrev pub Found : (ℕ → Bool) → ℕ → Option ℕ → Type 0
Found p max_tokens (some n) = (n ≤ max_tokens) × IsLeast p n
Found p max_tokens none = (k : ℕ) → k ≤ max_tokens → p k ≡ false

module _ (saves : ℕ → Result Bool) (p : ℕ → Bool) (a : Answers saves p) (u : IsUpward p) where
  not_below : (n m : ℕ) → n ≤ m → p m ≡ false → p n ≡ false
  not_below n m le q = ground (arith, u n m)

  ends : (fuel lo hi : ℕ) → ltb lo hi ≡ false → search_loop saves (suc fuel) lo hi ≡ ok lo
  unfolding search_loop
  ends fuel lo hi t = ground arith

  goes_low :
      (fuel lo hi : ℕ)
      → ltb lo hi ≡ true
      → p ((lo + hi) / 2) ≡ true
      → search_loop saves (suc fuel) lo hi ≡ search_loop saves fuel lo ((lo + hi) / 2)
  unfolding search_loop
  goes_low fuel lo hi t q = ground (arith, a ((lo + hi) / 2))

  goes_high :
      (fuel lo hi : ℕ)
      → ltb lo hi ≡ true
      → p ((lo + hi) / 2) ≡ false
      → search_loop saves (suc fuel) lo hi ≡ search_loop saves fuel ((lo + hi) / 2 + 1) hi
  unfolding search_loop
  goes_high fuel lo hi t q = ground (arith, a ((lo + hi) / 2))

  search_loop-IsLeast :
      (fuel lo hi : ℕ)
      → hi < fuel + lo
      → 1 ≤ lo
      → lo ≤ hi
      → p hi ≡ true
      → ((k : ℕ) → 1 ≤ k → k < lo → p k ≡ false)
      → (n : ℕ) × (search_loop saves fuel lo hi ≡ ok n) × (n ≤ hi) × IsLeast p n
  unfolding search_loop
  search_loop-IsLeast zero lo hi f one le q below = absurd (omega arith)
  search_loop-IsLeast (suc fuel) lo hi f one le q below = elim (Bool-cases (ltb lo hi)) [
    | inr t ↦ let e : lo ≡ hi = ground arith in (lo, ends fuel lo hi t, le, (one, rw e q, below))
    | inl t ↦ elim (Bool-cases (p ((lo + hi) / 2))) [
      | inl yes' ↦
          let (n, r, b, l) =
            search_loop-IsLeast fuel lo ((lo + hi) / 2) (ground arith) one (ground arith) yes'
              below in
          (n, goes_low fuel lo hi t yes' ∙ r, ground arith, l)
      | inr no' ↦
          let (n, r, b, l) =
            search_loop-IsLeast fuel ((lo + hi) / 2 + 1) hi (ground arith) (omega arith)
              (ground arith) q (λ k pos lt. not_below k ((lo + hi) / 2) (omega arith) no') in
          (n, goes_high fuel lo hi t no' ∙ r, b, l)
    ]
  ]

  -- Where the test never raises and stays true once it is, the search ends within its rounds and
  -- answers the least positive count up to `max_tokens` that passes, or none where none does.
  pub search_least :
      (max_tokens : ℕ)
      → 1 ≤ max_tokens
      → (o : Option ℕ) × (search saves max_tokens ≡ ok o) × Found p max_tokens o
  unfolding search
  search_least max_tokens one = elim (Bool-cases (p max_tokens)) [
    | inr q ↦ (none, rw (a max_tokens, q) refl, λ k le. not_below k max_tokens le q)
    | inl q ↦
        let (n, r, b, l) =
          search_loop-IsLeast (suc max_tokens) 1 max_tokens (omega arith) (omega arith) one q
            (λ k pos lt. absurd (omega arith)) in
        (some n, rw (a max_tokens, q, r) refl, (b, l))
  ]

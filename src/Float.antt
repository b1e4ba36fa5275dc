-- ===== src/Float.antt =====
-- Python's floats, as the code uses them: the arithmetic is a parameter. A tick of the clock and a
-- count become a float by `of_nat`; `literal n d` is the constant that the source writes as n / d.
pub mod Exact
use kv_cache_tier_persistenc.Prelude.{ℕ, ◌≡◌, Bool, true, false, if◌then◌else◌}

pub record Floats (F : Type 0) : Type 0 where
  pub of_nat : ℕ → F
  pub literal : ℕ → ℕ → F
  pub add : F → F → F
  pub sub : F → F → F
  pub mul : F → F → F
  pub div : F → F → F
  pub lt : F → F → Bool

-- The functions of `math` that the policies call, at the negated argument, and log(2).
pub record MathModule (F : Type 0) : Type 0 where
  pub exp_neg : F → F
  pub log_two : F

module _ {F : Type 0} (f : Floats F) where
  -- `max(a, b)` and `min(a, b)`: the first of two that compare equal
  abbrev pub max_of : F → F → F
  max_of a b = if f.lt a b then b else a

  abbrev pub min_of : F → F → F
  min_of a b = if f.lt b a then b else a

-- `a <= b`, where no value is a NaN
abbrev pub AtMost : {F : Type 0} → (F → F → Bool) → F → F → Type 0
AtMost lt a b = lt b a ≡ false

-- What `<` guarantees where no value is a NaN.
pub record IsOrdered {F : Type 0} (lt : F → F → Bool) : Type 0 where
  pub asym : (a b : F) → lt a b ≡ true → AtMost lt a b
  pub trans : (a b c : F) → AtMost lt a b → AtMost lt b c → AtMost lt a c

-- ===== src/Float/Exact.antt =====
-- Floats without rounding: fractions with a denominator of at least 1. The code subtracts and keeps
-- the positive part, so a difference below 0 is 0 here.
use kv_cache_tier_persistenc.Prelude.{
  ℕ, suc, ◌+◌, ◌-◌, ◌*◌, ◌≤◌, ◌<◌, ◌≡◌, false, ltb, ltb-false→le, arith,
}
use kv_cache_tier_persistenc.Float.{Floats, IsOrdered}
use native.Mathlib.Nat.{le_of_mul-le-mul_right, mul-le-mul_right}

-- num / (below + 1)
pub record Fraction : Type 0 where
  pub num : ℕ
  pub below : ℕ

abbrev pub den : Fraction → ℕ
den x = suc x.below

unfoldable pub over : ℕ → ℕ → Fraction
over n d = record { num = n; below = d - 1 }

abbrev pub exact : Floats Fraction
exact = record {
  of_nat = λ n. record { num = n; below = 0 };
  literal = over;
  add = λ x y. over (x.num * den y + y.num * den x) (den x * den y);
  sub = λ x y. over (x.num * den y - y.num * den x) (den x * den y);
  mul = λ x y. over (x.num * y.num) (den x * den y);
  div = λ x y. over (x.num * den y) (den x * y.num);
  lt = λ x y. ltb (x.num * den y) (y.num * den x);
}

le_not_lt : (x y : Fraction) → x.num * den y ≤ y.num * den x → exact.lt y x ≡ false
le_not_lt x y h = ground arith

-- Cross-multiplied comparisons compose.
crossed_trans : (a b c d e g : ℕ) → 0 < d → a * d ≤ c * b → c * g ≤ e * d → a * g ≤ e * b
crossed_trans a b c d e g pos p q =
    le_of_mul-le-mul_right {k = d} (grind (arith, mul-le-mul_right g p, mul-le-mul_right b q)) pos

pub exact-IsOrdered : IsOrdered exact.lt
exact-IsOrdered = record {
  asym = λ x y h. ground arith;
  trans = λ x y z p q. le_not_lt x z (
      crossed_trans x.num (den x) y.num (den y) z.num (den z) (omega arith) (ltb-false→le _ _ p)
        (ltb-false→le _ _ q));
}

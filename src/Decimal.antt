-- ===== src/Decimal.antt =====
-- Python's `str` of a number and `int` of a text. `int` also takes a sign, spaces around the digits and
-- underscores between them, which nothing here writes; those texts are refused.
use Prim.Native.Char.{Char, char, code}
use Prim.Native.String.{String, [], ◌∷◌}
use text.Mathlib.TextLemmas.{cons-ne-nil, cons≢nil}
use kv_cache_tier_persistenc.Prelude.{
  ℕ, zero, suc, ◌+◌, ◌-◌, ◌*◌, ◌/◌, ◌%◌, ◌<◌, ◌≡◌, ◌≢◌, refl, sym, ap, ◌∙◌, ◌&&◌, arith, ltb, leb,
  if◌then◌else◌,
}
use kv_cache_tier_persistenc.Result.{Result, ok, raise, value_error, ok-injective}

abbrev digit : ℕ → Char
digit zero = char 48 tt
digit (suc zero) = char 49 tt
digit (suc (suc zero)) = char 50 tt
digit (suc (suc (suc zero))) = char 51 tt
digit (suc (suc (suc (suc zero)))) = char 52 tt
digit (suc (suc (suc (suc (suc zero))))) = char 53 tt
digit (suc (suc (suc (suc (suc (suc zero)))))) = char 54 tt
digit (suc (suc (suc (suc (suc (suc (suc zero))))))) = char 55 tt
digit (suc (suc (suc (suc (suc (suc (suc (suc zero)))))))) = char 56 tt
digit _ = char 57 tt

-- the digits of a number before a text, the last of them first, in at most `fuel` rounds
unfoldable digits_from : ℕ → ℕ → String → String
digits_from zero n s = s
digits_from (suc fuel) n s =
    let longer = digits_from fuel (n / 10) (digit (n % 10) ∷ s) in
    if ltb n 10 then digit (n % 10) ∷ s else longer

unfoldable pub str : ℕ → String
unfolding digits_from
str n = digits_from (suc n) n []

unfoldable value_from : String → ℕ → Result ℕ
value_from [] n = ok n
value_from (c ∷ s) n =
    if leb 48 (code c) && leb (code c) 57
    then value_from s (n * 10 + (code c - 48))
    else raise value_error

unfoldable pub int : String → Result ℕ
unfolding value_from
int [] = raise value_error
int (c ∷ s) = value_from (c ∷ s) 0

code-digit : (d : ℕ) → d < 10 → code (digit d) ≡ 48 + d
code-digit zero h = refl
code-digit (suc zero) h = refl
code-digit (suc (suc zero)) h = refl
code-digit (suc (suc (suc zero))) h = refl
code-digit (suc (suc (suc (suc zero)))) h = refl
code-digit (suc (suc (suc (suc (suc zero))))) h = refl
code-digit (suc (suc (suc (suc (suc (suc zero)))))) h = refl
code-digit (suc (suc (suc (suc (suc (suc (suc zero))))))) h = refl
code-digit (suc (suc (suc (suc (suc (suc (suc (suc zero)))))))) h = refl
code-digit (suc (suc (suc (suc (suc (suc (suc (suc (suc zero))))))))) h = refl
code-digit (suc (suc (suc (suc (suc (suc (suc (suc (suc (suc d)))))))))) h =
    absurd (omega (arith, h))

value_from-digit :
    (d n : ℕ) (s : String) → d < 10 → value_from (digit d ∷ s) n ≡ value_from s (n * 10 + d)
unfolding value_from
value_from-digit d n s h = ground (arith, code-digit d h)

value_from-digits_from :
    (fuel n : ℕ) (s : String) → n < fuel → value_from (digits_from fuel n s) 0 ≡ value_from s n
unfolding digits_from
value_from-digits_from zero n s h = absurd (omega (arith, h))
value_from-digits_from (suc fuel) n s h = ground (
  arith,
  value_from-digit (n % 10) 0 s,
  value_from-digit (n % 10) (n / 10) s,
  value_from-digits_from fuel (n / 10) (digit (n % 10) ∷ s),
)

digits_from-ne-nil : (fuel n : ℕ) (c : Char) (s : String) → digits_from fuel n (c ∷ s) ≢ []
unfolding digits_from
digits_from-ne-nil zero n c s = cons≢nil
digits_from-ne-nil (suc fuel) n c s = ground (
  arith,
  cons-ne-nil (digit (n % 10)) (c ∷ s),
  digits_from-ne-nil fuel (n / 10) (digit (n % 10)) (c ∷ s),
)

str-ne-nil : (n : ℕ) → str n ≢ []
unfolding str digits_from
str-ne-nil n =
    ground
      (arith, cons-ne-nil (digit (n % 10)) [], digits_from-ne-nil n (n / 10) (digit (n % 10)) [])

int-value_from : (s : String) → s ≢ [] → int s ≡ value_from s 0
unfolding int
int-value_from [] h = absurd (h refl)
int-value_from (c ∷ s) h = refl

-- What `str` writes `int` reads.
pub int-str : (n : ℕ) → int (str n) ≡ ok n
unfolding str value_from
int-str n =
    int-value_from (str n) (str-ne-nil n) ∙ value_from-digits_from (suc n) n [] (omega arith)

pub str-injective : (m n : ℕ) → str m ≡ str n → m ≡ n
str-injective m n e = ok-injective (sym (int-str m) ∙ ap int e ∙ int-str n)

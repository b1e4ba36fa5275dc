-- ===== src/Result.antt =====
-- The exceptions that the package raises, and the result of code that may raise.
use mathlib.Core.Path.{◌≡◌, refl}
use mathlib.Core.Logic.{◌⊎◌, inl, inr}

pub data Error : Type 0 where
  -- ValueError, KeyError, MemoryError, OSError, RuntimeError, ChecksumError,
  -- ZeroDivisionError, AttributeError, struct.error, TypeError, IndexError, ImportError
  value_error key_error memory_error os_error runtime_error checksum_error : Error
  zero_division attribute_error struct_error type_error index_error import_error : Error
  -- A recursion of the model that was given too little depth. No Python counterpart.
  out_of_depth : Error
  -- A value of a type that Python would store and the model's types do not hold. No counterpart.
  untyped : Error

pub data Result {ℓ} (A : Type ℓ) : Type ℓ where
  ok : A → Result A
  raise : Error → Result A

infixl 10 ◌>>=◌
abbrev pub ◌>>=◌ {ℓ κ} : {A : Type ℓ} {B : Type κ} → Result A → (A → Result B) → Result B
ok a >>= f = f a
raise e >>= f = raise e

pub Result-cases {ℓ} :
    {A : Type ℓ} (r : Result A) → ((a : A) × (r ≡ ok a)) ⊎ ((e : Error) × (r ≡ raise e))
Result-cases (ok a) = inl (a, refl)
Result-cases (raise e) = inr (e, refl)

pub ok-injective : {A : Type 0} {a b : A} → ok a ≡ ok b → a ≡ b
ok-injective h = cc

-- ===== src/Serialization/Safetensors/Names.antt =====
-- serialization/safetensors_serde.py: the names of the tensors of two layers differ, and so do those of keys
-- and values.
use Prim.Native.String.{◌++◌ as joined, count}
use text.Mathlib.TextLemmas.{
  append_cancel_left, append_cancel_right, append_inj, append_assoc, length-append as count-append,
}
use kv_cache_tier_persistenc.Prelude.{
  ℕ, String, ◌≡◌, ◌≢◌, sym, ap, ◌∙◌, false, str_eq, eq_iff, arith, ◌==◌,
}
use kv_cache_tier_persistenc.Decimal.{str, str-injective}
use kv_cache_tier_persistenc.Serialization.Safetensors.{key_name, value_name}

inner_injective :
    (i j : ℕ) (suffix : String)
    → joined "layer_" (joined (str i) suffix) ≡ joined "layer_" (joined (str j) suffix)
    → i ≡ j
inner_injective i j suffix e =
    str-injective i j
      (append_cancel_right (str i) (str j) suffix (append_cancel_left "layer_" _ _ e))

names_eq : (i j : ℕ) (x y : String) → (x ≡ y → i ≡ j) → (i ≡ j → x ≡ y) → str_eq x y ≡ (i == j)
names_eq i j x y back there = ground (arith, eq_iff x y, back, there)

names_apart : (x y : String) → x ≢ y → str_eq x y ≡ false
names_apart x y h = ground (arith, eq_iff x y, h)

last_differs : (s t : String) → joined s "y" ≢ joined t "e"
last_differs s t e =
    let same_count : count s ≡ count t =
      omega (arith, count-append s "y", count-append t "e", ap count e) in
    let both : ◌≡◌ {A = String} "y" "e" = (append_inj {s₁ = s} {s₂ = t} e same_count).1 in
    ground (arith, eq_iff "y" "e", both)

names_differ : (i j : ℕ) → value_name i ≢ key_name j
names_differ i j e = last_differs (joined (str j) "_ke") (joined (str i) "_valu") (
    append_assoc (str j) "_ke" "y"
    ∙ sym (append_cancel_left "layer_" _ _ e)
    ∙ sym (append_assoc (str i) "_valu" "e"))

pub key_name-eq : (i j : ℕ) → str_eq (key_name i) (key_name j) ≡ (i == j)
key_name-eq i j = names_eq i j (key_name i) (key_name j) (inner_injective i j "_key") (ap key_name)

pub value_name-eq : (i j : ℕ) → str_eq (value_name i) (value_name j) ≡ (i == j)
value_name-eq i j =
    names_eq i j (value_name i) (value_name j) (inner_injective i j "_value") (ap value_name)

pub value-key : (i j : ℕ) → str_eq (value_name i) (key_name j) ≡ false
value-key i j = names_apart (value_name i) (key_name j) (names_differ i j)

pub key-value : (i j : ℕ) → str_eq (key_name i) (value_name j) ≡ false
key-value i j = names_apart (key_name i) (value_name j) (λ e. names_differ j i (sym e))

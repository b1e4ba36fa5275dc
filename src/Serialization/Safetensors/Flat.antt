-- ===== src/Serialization/Safetensors/Flat.antt =====
-- serialization/safetensors_serde.py: the flat dict of tensors, and the layers that are collected of it.
use kv_cache_tier_persistenc.Prelude.{
  ℕ, zero, suc, ◌+◌, ◌≡◌, refl, sym, ap, ◌∙◌, true, ◌&&◌, Option, none, some, [], ◌∷◌, arith, ltb,
  leb, ◌==◌, if◌then◌else◌, inl, inr, Bool-cases,
}
use kv_cache_tier_persistenc.Dict
use kv_cache_tier_persistenc.Dict.{Dict, put, get-put}
use kv_cache_tier_persistenc.Tensor.{Tensor, KvData, layer}
use kv_cache_tier_persistenc.Serialization.Safetensors.{
  key_name, value_name, flatten, with_layer, collect,
}
use kv_cache_tier_persistenc.Serialization.Safetensors.Names.{
  key_name-eq, value_name-eq, value-key, key-value,
}

-- No layer stands twice: what a Python dict guarantees.
abbrev pub IsOnce : KvData → Type 0
IsOnce [] = Unit
IsOnce ((i, p) ∷ kv) = (layer kv i ≡ none) × IsOnce kv

eq_of : (i j : ℕ) → i == j ≡ true → i ≡ j
eq_of i j h = ground arith

abbrev pub first_or : Option Tensor → Option (Tensor × Tensor) → Option Tensor
first_or o none = o
first_or o (some (k, v)) = some k

abbrev pub second_or : Option Tensor → Option (Tensor × Tensor) → Option Tensor
second_or o none = o
second_or o (some (k, v)) = some v

module _ (flat : Dict Tensor) (i : ℕ) (k v : Tensor) (j : ℕ) where
  abbrev both_put : Dict Tensor
  both_put = put (put flat (key_name i) k) (value_name i) v

  get_key-puts :
      Dict.get both_put (key_name j) ≡ (if i == j then some k else Dict.get flat (key_name j))
  get_key-puts =
      get-put (put flat (key_name i) k) (value_name i) (key_name j) v
      ∙ ap (λ b. if b then some v else Dict.get (put flat (key_name i) k) (key_name j))
          (value-key i j)
      ∙ get-put flat (key_name i) (key_name j) k
      ∙ ap (λ b. if b then some k else Dict.get flat (key_name j)) (key_name-eq i j)

  get_value-puts :
      Dict.get both_put (value_name j) ≡ (if i == j then some v else Dict.get flat (value_name j))
  get_value-puts =
      get-put (put flat (key_name i) k) (value_name i) (value_name j) v
      ∙ ap (λ b. if b then some v else Dict.get (put flat (key_name i) k) (value_name j))
          (value_name-eq i j)
      ∙ ap (λ o. if i == j then some v else o)
          (get-put flat (key_name i) (value_name j) k
            ∙ ap (λ b. if b then some k else Dict.get flat (value_name j)) (key-value i j))

first_or-if :
    (i j : ℕ) (o : Option Tensor) (k v : Tensor) (kv : KvData)
    → layer kv i ≡ none
    → first_or (if i == j then some k else o) (layer kv j)
      ≡ first_or o (if i == j then some (k, v) else layer kv j)
first_or-if i j o k v kv h = elim (Bool-cases (i == j)) [
  | inl e ↦ rw (e, sym (eq_of i j e), h) refl
  | inr e ↦ rw e refl
]

second_or-if :
    (i j : ℕ) (o : Option Tensor) (k v : Tensor) (kv : KvData)
    → layer kv i ≡ none
    → second_or (if i == j then some v else o) (layer kv j)
      ≡ second_or o (if i == j then some (k, v) else layer kv j)
second_or-if i j o k v kv h = elim (Bool-cases (i == j)) [
  | inl e ↦ rw (e, sym (eq_of i j e), h) refl
  | inr e ↦ rw e refl
]

pub get_key-flatten :
    (kv : KvData) (flat : Dict Tensor) (j : ℕ)
    → IsOnce kv
    → Dict.get (flatten flat kv) (key_name j) ≡ first_or (Dict.get flat (key_name j)) (layer kv j)
unfolding flatten layer
get_key-flatten [] flat j once = refl
get_key-flatten ((i, (k, v)) ∷ kv) flat j once =
    get_key-flatten kv (both_put flat i k v j) j once.1
    ∙ ap (λ o. first_or o (layer kv j)) (get_key-puts flat i k v j)
    ∙ first_or-if i j (Dict.get flat (key_name j)) k v kv once.0

pub get_value-flatten :
    (kv : KvData) (flat : Dict Tensor) (j : ℕ)
    → IsOnce kv
    → Dict.get (flatten flat kv) (value_name j)
      ≡ second_or (Dict.get flat (value_name j)) (layer kv j)
unfolding flatten layer
get_value-flatten [] flat j once = refl
get_value-flatten ((i, (k, v)) ∷ kv) flat j once =
    get_value-flatten kv (both_put flat i k v j) j once.1
    ∙ ap (λ o. second_or o (layer kv j)) (get_value-puts flat i k v j)
    ∙ second_or-if i j (Dict.get flat (value_name j)) k v kv once.0

in_range :
    (i n j : ℕ) (here there rest : Option (Tensor × Tensor))
    → (i ≡ j → here ≡ there)
    → rest ≡ (if leb (suc i) j && ltb j (suc i + n) then there else none)
    → (if i == j then elim here [ none ↦ rest | some p ↦ some p ] else rest)
      ≡ (if leb i j && ltb j (i + suc n) then there else none)
in_range i n j none there rest same h = ground (arith, same)
in_range i n j (some p) there rest same h = ground (arith, same)

module _ (flat : Dict Tensor) (kv : KvData)
    (keys : (j : ℕ) → Dict.get flat (key_name j) ≡ first_or none (layer kv j))
    (values : (j : ℕ) → Dict.get flat (value_name j) ≡ second_or none (layer kv j)) where
  abbrev put_before : ℕ → Option (Tensor × Tensor) → KvData → KvData
  put_before i none rest = rest
  put_before i (some p) rest = (i, p) ∷ rest

  with_layer-both :
      (i : ℕ) (o : Option (Tensor × Tensor)) (rest : KvData)
      → with_layer i (first_or none o) (second_or none o) rest ≡ put_before i o rest
  with_layer-both i none rest = refl
  with_layer-both i (some p) rest = refl

  collect-step :
      (i n : ℕ) → collect flat i (suc n) ≡ put_before i (layer kv i) (collect flat (suc i) n)
  unfolding collect
  collect-step i n = rw (keys i, values i) (with_layer-both i (layer kv i) (collect flat (suc i) n))

  layer-put_before :
      (i j : ℕ) (o : Option (Tensor × Tensor)) (rest : KvData)
      → layer (put_before i o rest) j
        ≡ (if i == j then elim o [ none ↦ layer rest j | some p ↦ some p ] else layer rest j)
  unfolding layer
  layer-put_before i j none rest = ground arith
  layer-put_before i j (some p) rest = refl

  pub layer-collect :
      (i n j : ℕ)
      → layer (collect flat i n) j ≡ (if leb i j && ltb j (i + n) then layer kv j else none)
  unfolding collect layer
  layer-collect i zero j = ground arith
  layer-collect i (suc n) j =
      ap (λ l. layer l j) (collect-step i n)
      ∙ layer-put_before i j (layer kv i) (collect flat (suc i) n)
      ∙ in_range i n j (layer kv i) (layer kv j) (layer (collect flat (suc i) n) j)
          (λ e. ap (layer kv) e) (layer-collect (suc i) n j)

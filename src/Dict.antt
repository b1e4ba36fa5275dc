-- ===== src/Dict.antt =====
-- Python's dict with str keys, in insertion order: an assignment to a key that is present keeps
-- its place, a new key goes to the end. `bytes` values stand for files and stored payloads.
pub mod Bytes
use mathlib.Core.Option
use kv_cache_tier_persistenc.Prelude.{
  ℕ, ◌+◌, ◌≤◌, String, ◌≡◌, refl, Bool, true, false, Option, none, some, List, [], ◌∷◌, map, arith,
  str_eq, eq_iff, if◌then◌else◌, length,
}

abbrev pub Dict {ℓ} : Type ℓ → Type ℓ
Dict V = List (String × V)

module _ {ℓ} {V : Type ℓ} where
  -- d.get(k)
  unfoldable pub get : Dict V → String → Option V
  get [] k = none
  get ((j, v) ∷ d) k = if str_eq j k then some v else get d k

  -- d[k] = v
  unfoldable pub put : Dict V → String → V → Dict V
  put [] k v = (k, v) ∷ []
  put ((j, w) ∷ d) k v = if str_eq j k then (j, v) ∷ d else (j, w) ∷ put d k v

  -- del d[k], d.pop(k, None)
  unfoldable pub remove : Dict V → String → Dict V
  remove [] k = []
  remove ((j, v) ∷ d) k = let rest = remove d k in if str_eq j k then rest else (j, v) ∷ rest

  abbrev pub is_some : Option V → Bool
  is_some none = false
  is_some (some v) = true

  -- k in d
  abbrev pub contains : Dict V → String → Bool
  contains d k = is_some (get d k)

  -- list(d.keys())
  abbrev pub keys : Dict V → List String
  keys = map (λ e. e.0)

  -- list(d.values())
  abbrev pub values : Dict V → List V
  values = map (λ e. e.1)

  pub get-put :
      (d : Dict V) (k j : String) (v : V)
      → get (put d k v) j ≡ (if str_eq k j then some v else get d j)
  unfolding get put
  get-put [] k j v = refl
  get-put ((i, w) ∷ d) k j v = ground (arith, eq_iff k j, eq_iff i k, eq_iff i j, get-put d k j v)

  pub get-remove :
      (d : Dict V) (k j : String) → get (remove d k) j ≡ (if str_eq k j then none else get d j)
  unfolding get remove
  get-remove [] k j = ground arith
  get-remove ((i, w) ∷ d) k j = ground (arith, eq_iff k j, eq_iff i k, eq_iff i j, get-remove d k j)

  -- Every key stands once: what a Python dict guarantees.
  abbrev pub IsUnique : Dict V → Type ℓ
  IsUnique [] = Unit
  IsUnique ((k, v) ∷ d) = (get d k ≡ none) × IsUnique d

  pub put-IsUnique : (d : Dict V) (k : String) (v : V) → IsUnique d → IsUnique (put d k v)
  unfolding put get
  put-IsUnique [] k v h = (refl, tt)
  put-IsUnique ((j, w) ∷ d) k v h =
      ground (arith, eq_iff j k, eq_iff k j, get-put d k j v, put-IsUnique d k v)

  pub remove-IsUnique : (d : Dict V) (k : String) → IsUnique d → IsUnique (remove d k)
  unfolding remove get
  remove-IsUnique [] k h = tt
  remove-IsUnique ((j, w) ∷ d) k h =
      ground (arith, eq_iff j k, get-remove d k j, remove-IsUnique d k)

  pub remove_absent : (d : Dict V) (k : String) → get d k ≡ none → remove d k ≡ d
  unfolding get remove
  remove_absent [] k h = refl
  remove_absent ((j, w) ∷ d) k h = ground (arith, remove_absent d k)

  pub length-remove-le : (d : Dict V) (k : String) → length (remove d k) ≤ length d
  unfolding remove
  length-remove-le [] k = omega arith
  length-remove-le ((j, w) ∷ d) k = ground (arith, length-remove-le d k)

  -- d[k] = f(d[k]) where k is there, through a reference to the value.
  unfoldable pub adjust : Dict V → String → (V → V) → Dict V
  adjust [] k f = []
  adjust ((j, v) ∷ d) k f = if str_eq j k then (j, f v) ∷ d else (j, v) ∷ adjust d k f

  pub get-adjust :
      (d : Dict V) (k j : String) (f : V → V)
      → get (adjust d k f) j ≡ (if str_eq k j then Option.map f (get d j) else get d j)
  unfolding get adjust
  get-adjust [] k j f = ground arith
  get-adjust ((i, w) ∷ d) k j f =
      ground (arith, eq_iff k j, eq_iff i k, eq_iff i j, get-adjust d k j f)

  pub adjust-IsUnique : (d : Dict V) (k : String) (f : V → V) → IsUnique d → IsUnique (adjust d k f)
  unfolding adjust get
  adjust-IsUnique [] k f h = tt
  adjust-IsUnique ((j, w) ∷ d) k f h =
      ground (arith, eq_iff k j, get-adjust d k j f, adjust-IsUnique d k f)

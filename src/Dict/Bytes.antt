-- ===== src/Dict/Bytes.antt =====
-- Dicts of payloads: the sizes of what they hold, and how the sum of the sizes changes.
use mathlib.Core.Option
use kv_cache_tier_persistenc.Prelude.{
  ℕ, ◌+◌, ◌≤◌, String, ◌≡◌, refl, Option, none, some, List, [], ◌∷◌, arith, eq_iff, length,
}
use kv_cache_tier_persistenc.Dict
use kv_cache_tier_persistenc.Dict.{Dict}

-- A Python `bytes` value.
abbrev pub Bytes : Type 0
Bytes = List ℕ

-- The length of each value, at its key.
unfoldable pub sizes_of : Dict Bytes → Dict ℕ
sizes_of [] = []
sizes_of ((k, b) ∷ d) = (k, length b) ∷ sizes_of d

unfoldable pub total : Dict ℕ → ℕ
total [] = 0
total ((k, n) ∷ d) = n + total d

-- `_sizes.get(k, 0)`
abbrev pub size_or_zero : Option ℕ → ℕ
size_or_zero none = 0
size_or_zero (some n) = n

pub get-sizes_of :
    (d : Dict Bytes) (k : String)
    → Dict.get (sizes_of d) k ≡ Option.map (λ (b : Bytes). length b) (Dict.get d k)
unfolding Dict.get sizes_of
get-sizes_of [] k = refl
get-sizes_of ((j, b) ∷ d) k = ground (arith, get-sizes_of d k)

pub sizes_of-put :
    (d : Dict Bytes) (k : String) (b : Bytes)
    → sizes_of (Dict.put d k b) ≡ Dict.put (sizes_of d) k (length b)
unfolding Dict.put sizes_of
sizes_of-put [] k b = refl
sizes_of-put ((j, c) ∷ d) k b = ground (arith, sizes_of-put d k b)

pub sizes_of-remove :
    (d : Dict Bytes) (k : String) → sizes_of (Dict.remove d k) ≡ Dict.remove (sizes_of d) k
unfolding Dict.remove sizes_of
sizes_of-remove [] k = refl
sizes_of-remove ((j, c) ∷ d) k = ground (arith, sizes_of-remove d k)

pub total-put :
    (d : Dict ℕ) (k : String) (n : ℕ)
    → total (Dict.put d k n) + size_or_zero (Dict.get d k) ≡ total d + n
unfolding Dict.put Dict.get total
total-put [] k n = omega arith
total-put ((j, m) ∷ d) k n = ground (arith, total-put d k n)

pub size-le-total : (d : Dict ℕ) (k : String) → size_or_zero (Dict.get d k) ≤ total d
unfolding Dict.get total
size-le-total [] k = omega arith
size-le-total ((j, m) ∷ d) k = ground (arith, size-le-total d k)

pub total-remove-le : (d : Dict ℕ) (k : String) → total (Dict.remove d k) ≤ total d
unfolding Dict.remove total
total-remove-le [] k = omega arith
total-remove-le ((j, m) ∷ d) k = ground (arith, total-remove-le d k)

pub total-remove :
    (d : Dict ℕ) (k : String)
    → Dict.IsUnique d
    → total (Dict.remove d k) + size_or_zero (Dict.get d k) ≡ total d
unfolding Dict.remove Dict.get total
total-remove [] k h = omega arith
total-remove ((j, m) ∷ d) k h = ground (arith, eq_iff j k, Dict.remove_absent d k, total-remove d k)

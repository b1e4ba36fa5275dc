-- ===== src/Eviction/MinKey.antt =====
-- `min(scores, key=scores.get)` and `max(...)` over a dict of scores: the first key of the least,
-- or of the greatest, score.
use mathlib.Core.Path.{subst}
use kv_cache_tier_persistenc.Prelude.{
  true, str_eq, String, ◌≡◌, Bool, Option, none, some, [], ◌∷◌, arith, str_eq, eq_iff, eq_refl,
  if◌then◌else◌, Bool-cases, inl, inr,
}
use kv_cache_tier_persistenc.Dict
use kv_cache_tier_persistenc.Dict.{Dict}
use kv_cache_tier_persistenc.Float.{IsOrdered, AtMost}

module _ {F : Type 0} (lt : F → F → Bool) where
  -- the scan, with the best key so far
  unfoldable pub min_from : Dict F → String → F → String
  min_from [] best s = best
  min_from ((k, t) ∷ scores) best s =
      min_from scores (if lt t s then k else best) (if lt t s then t else s)

  -- `None` where there is nothing to choose from, which the callers test for first
  unfoldable pub min_key : Dict F → Option String
  unfolding min_from
  min_key [] = none
  min_key ((k, s) ∷ scores) = some (min_from scores k s)

-- `v` is a key whose score no key's score is less than.
pub record IsLeastKey {F : Type 0} (lt : F → F → Bool) (scores : Dict F) (v : String) : Type 0 where
  pub score : F
  pub scored : Dict.get scores v ≡ some score
  pub least : (k : String) (t : F) → Dict.get scores k ≡ some t → AtMost lt score t

module _ {F : Type 0} (lt : F → F → Bool) (o : IsOrdered lt) where
  AtMost-refl : (s : F) → AtMost lt s s
  AtMost-refl s = elim (Bool-cases (lt s s)) [ inl h ↦ o.asym s s h | inr h ↦ h ]

  min_from_lem :
      (scores : Dict F) (best : String) (s : F)
      → Dict.IsUnique scores
      → Dict.get scores best ≡ none
      → (t : F) × (Dict.get ((best, s) ∷ scores) (min_from lt scores best s) ≡ some t)
        × (AtMost lt t s)
        × ((k : String) (r : F) → Dict.get scores k ≡ some r → AtMost lt t r)
  unfolding min_from Dict.get
  min_from_lem [] best s u n = (s, ground (arith, eq_refl best), AtMost-refl s, λ k r e. cc)
  min_from_lem ((k, t) ∷ scores) best s u n = elim (Bool-cases (lt t s)) [
    | inl q ↦
        let v = min_from lt scores k t in
        let (x, g, l, all) = min_from_lem scores k t u.1 u.0 in
        (
          x,
          rw q (ground (arith, eq_iff best v)),
          o.trans x t s l (o.asym t s q),
          λ j r e. elim (Bool-cases (str_eq k j)) [
            | inl same ↦ ground arith
            | inr other ↦ all j r (ground arith)
          ],
        )
    | inr q ↦
        let v = min_from lt scores best s in
        let (x, g, l, all) = min_from_lem scores best s u.1 (ground arith) in
        (
          x,
          rw q (ground (arith, eq_iff best v, eq_iff k v)),
          l,
          λ j r e. elim (Bool-cases (str_eq k j)) [
            | inl same ↦ ground (arith, o.trans x s t l q)
            | inr other ↦ all j r (ground arith)
          ],
        )
  ]

  pub min_key_least :
      (scores : Dict F) (v : String)
      → Dict.IsUnique scores
      → min_key lt scores ≡ some v
      → IsLeastKey lt scores v
  unfolding min_key Dict.get
  min_key_least [] v u h = cc
  min_key_least ((k, s) ∷ scores) v u h =
      let (x, g, l, all) = min_from_lem scores k s u.1 u.0 in
      let same : min_from lt scores k s ≡ v = ground arith in
      record {
        score = x;
        scored = subst (λ w. Dict.get ((k, s) ∷ scores) w ≡ some x) same g;
        least = λ j r e. elim (Bool-cases (str_eq k j)) [
          | inl q ↦ ground arith
          | inr q ↦ all j r (ground arith)
        ];
      }

min_from-contains :
    {F : Type 0} (lt : F → F → Bool) (d : Dict F) (best : String) (s : F)
    → Dict.contains ((best, s) ∷ d) (min_from lt d best s) ≡ true
unfolding min_from Dict.get
min_from-contains lt [] best s = ground (arith, eq_refl best)
min_from-contains lt ((k, t) ∷ d) best s = elim (Bool-cases (lt t s)) [
  | inl q ↦ rw q (ground (arith, min_from-contains lt d k t))
  | inr q ↦ rw q (ground (arith, min_from-contains lt d best s))
]

pub min_key-contains :
    {F : Type 0} (lt : F → F → Bool) (d : Dict F) (v : String)
    → min_key lt d ≡ some v
    → Dict.contains d v ≡ true
unfolding min_key
min_key-contains lt [] v h = cc
min_key-contains lt ((k, s) ∷ d) v h = ground (arith, min_from-contains lt d k s)

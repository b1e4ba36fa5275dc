-- ===== src/Eviction/Argmin.antt =====
-- The scan for the least score: `if score < best: best, victim = score, session_id` over a dict, and
-- `min(scores, key=scores.get)`. The first of equal scores wins; an entry with no score is passed over.
use kv_cache_tier_persistenc.Prelude.{
  ℕ, ◌≤◌, String, ◌≡◌, ◌≢◌, refl, ◌⊎◌, inl, inr, Option, none, some, [], ◌∷◌, arith, str_eq, eq_iff,
  ltb, if◌then◌else◌, Bool-cases, true, Option-cases,
}
use kv_cache_tier_persistenc.Dict
use kv_cache_tier_persistenc.Dict.{Dict}

module _ {V : Type 0} (score : V → Option ℕ) where
  unfoldable pub better : String → Option ℕ → Option (String × ℕ) → Option (String × ℕ)
  better k none best = best
  better k (some s) none = some (k, s)
  better k (some s) (some (j, n)) = if ltb s n then some (k, s) else some (j, n)

  unfoldable pub argmin : Dict V → Option (String × ℕ) → Option (String × ℕ)
  unfolding better
  argmin [] best = best
  argmin ((k, v) ∷ d) best = argmin d (better k (score v) best)

  argmin-le :
      (d : Dict V) (best : Option (String × ℕ)) (w : String) (n : ℕ)
      → argmin d best ≡ some (w, n)
      → (j : String) (m : ℕ) → best ≡ some (j, m)
      → n ≤ m
  unfolding argmin
  argmin-le [] best w n h j m e = ground arith
  argmin-le ((k, v) ∷ d) none w n h j m e = cc
  argmin-le ((k, v) ∷ d) (some (i, l)) w n h j m e = elim (Option-cases (score v)) [
    | inl q ↦ ground (arith, argmin-le d (better k (score v) (some (i, l))) w n h i l)
    | inr (s, q) ↦ ground (
      arith,
      argmin-le d (better k (score v) (some (i, l))) w n h i l,
      argmin-le d (better k (score v) (some (i, l))) w n h k s,
    )
  ]

  -- No entry has a smaller score than the result.
  pub argmin_least :
      (d : Dict V) (best : Option (String × ℕ)) (w : String) (n : ℕ)
      → argmin d best ≡ some (w, n)
      → (j : String) (v : V) (s : ℕ) → Dict.get d j ≡ some v
      → score v ≡ some s
      → n ≤ s
  unfolding argmin Dict.get
  argmin_least [] best w n h j v s g e = cc
  argmin_least ((k, x) ∷ d) best w n h j v s g e = elim (Bool-cases (str_eq k j)) [
    | inr q ↦ argmin_least d (better k (score x) best) w n h j v s (ground arith) e
    | inl q ↦ here best h (ground arith)
  ]
    where
      here :
          (b : Option (String × ℕ))
          → argmin d (better k (score x) b) ≡ some (w, n)
          → score x ≡ some s
          → n ≤ s
      here none r t = argmin-le d (better k (score x) none) w n r k s (ground arith)
      here (some (i, l)) r t = ground (
        arith,
        argmin-le d (better k (score x) (some (i, l))) w n r k s,
        argmin-le d (better k (score x) (some (i, l))) w n r i l,
      )

  -- The result is the score of an entry, or the one that the scan began with.
  pub argmin_source :
      (d : Dict V) (best : Option (String × ℕ)) (w : String) (n : ℕ)
      → Dict.IsUnique d
      → argmin d best ≡ some (w, n)
      → (best ≡ some (w, n)) ⊎ ((v : V) × (Dict.get d w ≡ some v) × (score v ≡ some n))
  unfolding argmin Dict.get
  argmin_source [] best w n u h = inl h
  argmin_source ((k, x) ∷ d) best w n u h =
      elim (argmin_source d (better k (score x) best) w n u.1 h) [
        | inr (v, g, e) ↦ inr (v, ground (arith, eq_iff k w), e)
        | inl q ↦ here best (score x) refl q
      ]
    where
      here :
          (b : Option (String × ℕ)) (o : Option ℕ)
          → score x ≡ o
          → better k o b ≡ some (w, n)
          → (b ≡ some (w, n)) ⊎ ((v : V) × (Dict.get ((k, x) ∷ d) w ≡ some v) × (score v ≡ some n))
      here b none e q = inl q
      here none (some s) e q = inr (x, ground (arith, eq_iff k w), ground arith)
      here (some (i, l)) (some s) e q = elim (Bool-cases (ltb s l)) [
        | inl t ↦ inr (x, ground (arith, eq_iff k w), ground arith)
        | inr t ↦ inl (ground arith)
      ]

  pub argmin-contains :
      (d : Dict V) (best : Option (String × ℕ)) (w : String) (n : ℕ)
      → argmin d best ≡ some (w, n)
      → (best ≡ some (w, n)) ⊎ (Dict.contains d w ≡ true)
  unfolding argmin Dict.get
  argmin-contains [] best w n h = inl h
  argmin-contains ((k, x) ∷ d) best w n h =
      elim (argmin-contains d (better k (score x) best) w n h) [
        | inr g ↦ inr (ground arith)
        | inl q ↦ here best (score x) q
      ]
    where
      here :
          (b : Option (String × ℕ)) (o : Option ℕ)
          → better k o b ≡ some (w, n)
          → (b ≡ some (w, n)) ⊎ (Dict.contains ((k, x) ∷ d) w ≡ true)
      here b none q = inl q
      here none (some s) q = inr (ground (arith, eq_iff k w))
      here (some (i, l)) (some s) q = elim (Bool-cases (ltb s l)) [
        | inl t ↦ inr (ground (arith, eq_iff k w))
        | inr t ↦ inl (ground arith)
      ]

  argmin_started : (d : Dict V) (b : String × ℕ) → argmin d (some b) ≢ none
  unfolding argmin
  argmin_started [] b h = cc
  argmin_started ((k, x) ∷ d) (i, l) h = elim (Option-cases (score x)) [
    | inl q ↦ ground (arith, argmin_started d (i, l))
    | inr (s, q) ↦ ground (arith, argmin_started d (i, l), argmin_started d (k, s))
  ]

  -- The scan finds nothing only where no entry has a score.
  pub argmin-none :
      (d : Dict V) (j : String) (v : V)
      → argmin d none ≡ none
      → Dict.get d j ≡ some v
      → score v ≡ none
  unfolding argmin Dict.get
  argmin-none [] j v h g = cc
  argmin-none ((k, x) ∷ d) j v h g = elim (Option-cases (score x)) [
    | inl q ↦ ground (arith, argmin-none d j v)
    | inr (s, q) ↦ absurd (ground (arith, argmin_started d (k, s)))
  ]

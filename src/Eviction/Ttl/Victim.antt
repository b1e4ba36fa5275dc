-- ===== src/Eviction/Ttl/Victim.antt =====
-- eviction/ttl.py: the victim that the two scans and the order choose.
use kv_cache_tier_persistenc.Prelude.{
  ℕ, ◌+◌, ◌≤◌, ◌<◌, String, ◌≡◌, ◌≢◌, true, false, Option, none, some, List, [], ◌∷◌, arith, str_eq,
  eq_iff, Bool-cases, Option-cases, inl, inr,
}
use kv_cache_tier_persistenc.Dict
use kv_cache_tier_persistenc.Dict.{Dict}
use kv_cache_tier_persistenc.Index.{CacheEntry}
use kv_cache_tier_persistenc.Eviction.Argmin.{
  argmin, argmin_least, argmin_source, argmin-none, argmin-contains,
}
use kv_cache_tier_persistenc.Eviction.Lru
use kv_cache_tier_persistenc.Eviction.Policy.{IsSound}
use kv_cache_tier_persistenc.Eviction.Ttl.{
  TtlSeconds, ttl_of, is_expired, expired_score, remaining_score, select_victim, ttl, or_next,
}

-- The keys of the candidates are session ids, none of them empty.
abbrev pub IsNamed : Dict CacheEntry → Type 0
IsNamed entries = Dict.get entries "" ≡ none

module _ (c : TtlSeconds) (order : List String) (now : ℕ) where
  expired_score-some :
      (e : CacheEntry) (n : ℕ)
      → expired_score c now e ≡ some n
      → (is_expired c now e ≡ true) × (e.last_accessed ≡ n)
  unfolding expired_score
  expired_score-some e n h = ground arith

  expired_score_of :
      (e : CacheEntry) → is_expired c now e ≡ true → expired_score c now e ≡ some e.last_accessed
  unfolding expired_score
  expired_score_of e h = rw h

  -- The first scan decides, where it finds an expired candidate.
  first_scan :
      (entries : Dict CacheEntry) (i v : String) (n : ℕ)
      → IsNamed entries
      → Dict.contains entries i ≡ true
      → argmin (expired_score c now) entries none ≡ some (i, n)
      → select_victim c order now entries ≡ some v
      → i ≡ v
  unfolding select_victim
  first_scan [] i v n named k q h = cc
  first_scan (b ∷ rest) i v n named k q h = ground (arith, eq_iff i "")

  remaining_score-some :
      (e : CacheEntry) (n : ℕ)
      → remaining_score c e ≡ some n
      → (0 < ttl_of c e.tier) × (e.last_accessed + ttl_of c e.tier ≡ n)
  unfolding remaining_score
  remaining_score-some e n h = ground arith

  remaining_score_of :
      (e : CacheEntry)
      → 0 < ttl_of c e.tier
      → remaining_score c e ≡ some (e.last_accessed + ttl_of c e.tier)
  unfolding remaining_score
  remaining_score_of e h = ground arith

  -- Else the second scan does.
  second_scan :
      (entries : Dict CacheEntry) (i v : String) (n : ℕ)
      → IsNamed entries
      → Dict.contains entries i ≡ true
      → argmin (expired_score c now) entries none ≡ none
      → argmin (remaining_score c) entries none ≡ some (i, n)
      → select_victim c order now entries ≡ some v
      → i ≡ v
  unfolding select_victim
  second_scan [] i v n named k r q h = cc
  second_scan (b ∷ rest) i v n named k r q h = ground (arith, eq_iff i "")

  -- Where the candidates stand once each, none with the empty id, and a candidate `w` has
  -- expired, a victim has expired too, and was last used no later than `w`.
  pub select_victim_expired :
      (entries : Dict CacheEntry) (v w : String) (f : CacheEntry)
      → Dict.IsUnique entries
      → IsNamed entries
      → Dict.get entries w ≡ some f
      → is_expired c now f ≡ true
      → select_victim c order now entries ≡ some v
      → (e : CacheEntry) × (Dict.get entries v ≡ some e)
        × (is_expired c now e ≡ true)
        × (e.last_accessed ≤ f.last_accessed)
  select_victim_expired entries v w f u named g x h =
      elim (Option-cases (argmin (expired_score c now) entries none)) [
        | inl q ↦ absurd (
            ground (arith, argmin-none (expired_score c now) entries w f q g, expired_score_of f x))
        | inr ((i, n), q) ↦ elim (argmin_source (expired_score c now) entries none i n u q) [
          | inl r ↦ absurd (cc)
          | inr (e, ge, s) ↦
              let same : i ≡ v = first_scan entries i v n named (rw ge) q h in
              let (exp, last) = expired_score-some e n s in
              (
                e,
                rw same at ge,
                exp,
                rw last (
                    argmin_least (expired_score c now) entries none i n q w f f.last_accessed g
                      (expired_score_of f x)),
              )
        ]
      ]

  -- Where the candidates stand once each, none with the empty id, no candidate has expired and
  -- `w` can expire, a victim can expire, and does so no later than `w`.
  pub select_victim_next :
      (entries : Dict CacheEntry) (v w : String) (f : CacheEntry)
      → Dict.IsUnique entries
      → IsNamed entries
      → ((k : String) (e : CacheEntry) → Dict.get entries k ≡ some e → is_expired c now e ≡ false)
      → Dict.get entries w ≡ some f
      → 0 < ttl_of c f.tier
      → select_victim c order now entries ≡ some v
      → (e : CacheEntry) × (Dict.get entries v ≡ some e)
        × (0 < ttl_of c e.tier)
        × (e.last_accessed + ttl_of c e.tier ≤ f.last_accessed + ttl_of c f.tier)
  select_victim_next entries v w f u named fresh g x h =
      elim (Option-cases (argmin (expired_score c now) entries none)) [
        | inr ((i, n), q) ↦ elim (argmin_source (expired_score c now) entries none i n u q) [
          | inl r ↦ absurd (cc)
          | inr (e, ge, s) ↦ absurd (ground (arith, expired_score-some e n s, fresh i e ge))
        ]
        | inl none_expired ↦ elim (Option-cases (argmin (remaining_score c) entries none)) [
          | inl q ↦ absurd (
              ground
                (arith, argmin-none (remaining_score c) entries w f q g, remaining_score_of f x))
          | inr ((i, n), q) ↦ elim (argmin_source (remaining_score c) entries none i n u q) [
            | inl r ↦ absurd (cc)
            | inr (e, ge, s) ↦
                let same : i ≡ v = second_scan entries i v n named (rw ge) none_expired q h in
                let (can, sum) = remaining_score-some e n s in
                (
                  e,
                  rw same at ge,
                  can,
                  rw sum (
                      argmin_least (remaining_score c) entries none i n q w f
                        (f.last_accessed + ttl_of c f.tier) g (remaining_score_of f x)),
                )
          ]
        ]
      ]

  -- With any candidate there is a victim.
  pub select_victim_total :
      (b : String × CacheEntry) (rest : Dict CacheEntry)
      → select_victim c order now (b ∷ rest) ≢ none
  unfolding select_victim Lru.select_victim
  select_victim_total b rest h = ground arith

-- Each of the three choices is a candidate.
or_next-contains :
    (c : TtlSeconds) (score : CacheEntry → Option ℕ) (d : Dict CacheEntry) (next : Option String)
    (v : String)
    → ((w : String) → next ≡ some w → Dict.contains d w ≡ true)
    → or_next c (argmin score d none) next ≡ some v
    → Dict.contains d v ≡ true
or_next-contains c score d next v k h = elim (Option-cases (argmin score d none)) [
  | inl q ↦ k v (ground arith)
  | inr ((i, n), q) ↦ elim (argmin-contains score d none i n q) [
    | inl r ↦ absurd (cc)
    | inr r ↦ elim (Bool-cases (str_eq i "")) [ inl t ↦ k v (ground arith) | inr t ↦ ground arith ]
  ]
]

-- The victim of the TTL policy is one of the candidates.
pub ttl-IsSound : (c : TtlSeconds) → IsSound (ttl c)
unfolding ttl
ttl-IsSound c = record { candidate = candidate }
  where
    candidate :
        (s : List String) (now : ℕ) (entries : Dict CacheEntry) (v : String)
        → select_victim c s now entries ≡ some v
        → Dict.contains entries v ≡ true
    candidate s now [] v h = absurd (unfold select_victim in cc)
    candidate s now (b ∷ rest) v h =
        or_next-contains c (expired_score c now) (b ∷ rest)
          (or_next c (argmin (remaining_score c) (b ∷ rest) none) (Lru.select_victim s (b ∷ rest)))
          v
          (λ w q.
            or_next-contains c (remaining_score c) (b ∷ rest) (Lru.select_victim s (b ∷ rest)) w
              (λ x r. Lru.select_victim-contains s (b ∷ rest) x r) q)
          (unfold select_victim in h)

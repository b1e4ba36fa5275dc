-- ===== src/Eviction/Features/History.antt =====
-- eviction/features.py: `record_access` over a sequence of accesses, against the whole log.
use kv_cache_tier_persistenc.Prelude.{
  ℕ, zero, suc, ◌-◌, ◌≤◌, String, ◌≡◌, refl, ◌∙◌, List, [], ◌∷◌, ◌++◌, str_eq, eq_iff, ltb,
  if◌then◌else◌, length, drop, length-append, drop-sum, arith, Bool-cases, inl, inr,
}
use kv_cache_tier_persistenc.Dict
use kv_cache_tier_persistenc.Eviction.Features.{
  Access, FeatureExtractor, append_access, record_access, history_of, history_limit,
}

-- one call of `record_access`
pub record Call : Type 0 where
  pub user_id : String
  pub access : Access

unfoldable pub run : FeatureExtractor → List Call → FeatureExtractor
run x [] = x
run x (c ∷ calls) =
    run (record_access x c.access.timestamp c.user_id c.access.session_id c.access.token_count)
      calls

-- Every access of the user, in order: what is there, then those of the calls.
unfoldable pub log : List Access → String → List Call → List Access
log l user_id [] = l
log l user_id (c ∷ calls) =
    log (if str_eq c.user_id user_id then l ++ c.access ∷ [] else l) user_id calls

-- the last `history_limit` elements
unfoldable pub last_accesses : List Access → List Access
last_accesses l = drop (length l - history_limit) l

length-drop {ℓ} : {A : Type ℓ} (n : ℕ) (l : List A) → length (drop n l) ≡ length l - n
length-drop zero l = omega arith
length-drop (suc n) [] = omega arith
length-drop (suc n) (x ∷ l) = omega (arith, length-drop n l)

drop_within {ℓ} :
    {A : Type ℓ} (n : ℕ) (l r : List A) → n ≤ length l → drop n l ++ r ≡ drop n (l ++ r)
drop_within zero l r h = refl
drop_within (suc n) [] r h = absurd (omega arith)
drop_within (suc n) (x ∷ l) r h = drop_within n l r (omega arith)

append_access_lem : (a : Access) (l : List Access) → append_access a l ≡ last_accesses (l ++ a ∷ [])
unfolding append_access last_accesses
append_access_lem a l = elim (Bool-cases (ltb 50 (length (l ++ a ∷ [])))) [
  | inl t ↦ rw t refl
  | inr t ↦ let e : length (l ++ a ∷ []) - 50 ≡ 0 = ground arith in rw (t, e) refl
]

-- What is kept of a history that is then extended is what is kept of the whole.
append-last :
    (a : Access) (l : List Access) → append_access a (last_accesses l) ≡ last_accesses (l ++ a ∷ [])
append-last a l = append_access_lem a (last_accesses l) ∙ again
  where
    again : last_accesses (last_accesses l ++ a ∷ []) ≡ last_accesses (l ++ a ∷ [])
    again =
        unfold last_accesses in
        rw (drop_within (length l - 50) l (a ∷ []) (omega arith)) (
          drop-sum (length l - 50) (length (drop (length l - 50) (l ++ a ∷ [])) - 50)
            (length (l ++ a ∷ []) - 50) (l ++ a ∷ [])
            (omega
              (arith, length-drop {0} (length l - 50) (l ++ a ∷ []), length-append {0} l (a ∷ []))))

history_of-record :
    (x : FeatureExtractor) (c : Call) (user_id : String)
    → history_of
        (record_access x c.access.timestamp c.user_id c.access.session_id c.access.token_count)
        user_id
      ≡ (if str_eq c.user_id user_id
          then append_access c.access (history_of x user_id)
          else history_of x user_id)
unfolding record_access
history_of-record x c user_id = ground (
  arith,
  eq_iff c.user_id user_id,
  Dict.get-put x c.user_id user_id (append_access c.access (history_of x c.user_id)),
)

-- After any calls of `record_access`, where the history of a user was the last 50 accesses of a
-- log, it is the last 50 of that log extended by the user's accesses, in their order.
pub history_of-run :
    (x : FeatureExtractor) (l : List Access) (user_id : String) (calls : List Call)
    → history_of x user_id ≡ last_accesses l
    → history_of (run x calls) user_id ≡ last_accesses (log l user_id calls)
unfolding run log
history_of-run x l user_id [] h = h
history_of-run x l user_id (c ∷ calls) h =
    history_of-run
      (record_access x c.access.timestamp c.user_id c.access.session_id c.access.token_count)
      (if str_eq c.user_id user_id then l ++ c.access ∷ [] else l) user_id calls
      (history_of-record x c user_id
        ∙ rw h (elim (Bool-cases (str_eq c.user_id user_id)) [
          | inl t ↦ rw t (append-last c.access l)
          | inr t ↦ rw t refl
        ]))

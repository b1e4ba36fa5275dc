-- ===== src/Eviction/Lru/Recency.antt =====
-- eviction/lru.py: the order against a stamp of each session's last use, which only the
-- specification keeps.
use mathlib.Core.Path.{subst}
use kv_cache_tier_persistenc.Prelude.{
  ℕ, suc, ◌≤◌, ◌<◌, String, ◌≡◌, refl, true, false, some, List, [], ◌∷◌, ◌++◌, arith, str_eq,
  eq_iff, eq_refl, sym, if◌then◌else◌, Bool-cases, inl, inr,
}
use kv_cache_tier_persistenc.Dict
use kv_cache_tier_persistenc.Dict.{Dict}
use kv_cache_tier_persistenc.Index.{CacheEntry}
use kv_cache_tier_persistenc.Eviction.Lru.{
  tracked, without, on_access, on_insert, on_remove, first_candidate, select_victim,
}

-- Every session of the order has a stamp of at least `n`.
abbrev pub AllFrom : (String → ℕ) → ℕ → List String → Type 0
AllFrom stamp n [] = Unit
AllFrom stamp n (k ∷ order) = (n ≤ stamp k) × AllFrom stamp n order

-- The order is strictly by stamp, and all stamps are below the time `now`.
abbrev pub IsOrdered : (String → ℕ) → ℕ → List String → Type 0
IsOrdered stamp now [] = Unit
IsOrdered stamp now (k ∷ order) =
    (stamp k < now) × AllFrom stamp (suc (stamp k)) order × IsOrdered stamp now order

-- The session is used at time `now`.
abbrev pub use_at : (String → ℕ) → String → ℕ → String → ℕ
use_at stamp sid now j = if str_eq sid j then now else stamp j

AllFrom-without :
    (stamp : String → ℕ) (n : ℕ) (order : List String) (sid : String)
    → AllFrom stamp n order
    → AllFrom stamp n (without order sid)
unfolding without
AllFrom-without stamp n [] sid h = tt
AllFrom-without stamp n (k ∷ order) sid h = ground (arith, AllFrom-without stamp n order sid h.1)

AllFrom-use_at :
    (stamp : String → ℕ) (n : ℕ) (order : List String) (sid : String) (now : ℕ)
    → AllFrom stamp n order
    → n ≤ now
    → AllFrom (use_at stamp sid now) n order
AllFrom-use_at stamp n [] sid now h le = tt
AllFrom-use_at stamp n (k ∷ order) sid now h le =
    (ground arith, AllFrom-use_at stamp n order sid now h.1 le)

AllFrom-append :
    (stamp : String → ℕ) (n : ℕ) (order : List String) (sid : String)
    → AllFrom stamp n order
    → n ≤ stamp sid
    → AllFrom stamp n (order ++ sid ∷ [])
AllFrom-append stamp n [] sid h le = (le, tt)
AllFrom-append stamp n (k ∷ order) sid h le = (h.0, AllFrom-append stamp n order sid h.1 le)

-- A use at `now` of a session that is not in the order, which then goes to the end.
IsOrdered-use :
    (stamp : String → ℕ) (now : ℕ) (order : List String) (sid : String)
    → tracked order sid ≡ false
    → IsOrdered stamp now order
    → IsOrdered (use_at stamp sid now) (suc now) (order ++ sid ∷ [])
unfolding tracked
IsOrdered-use stamp now [] sid t h = ground (arith, eq_refl sid)
IsOrdered-use stamp now (k ∷ order) sid t h =
    let e : use_at stamp sid now k ≡ stamp k = ground (arith, eq_iff k sid, eq_iff sid k) in
    (
      ground arith,
      AllFrom-append (use_at stamp sid now) (suc (use_at stamp sid now k)) order sid
          (subst (λ n. AllFrom (use_at stamp sid now) (suc n) order) (sym e)
            (AllFrom-use_at stamp (suc (stamp k)) order sid now h.1 h.0))
          (ground (arith, eq_refl sid)),
      IsOrdered-use stamp now order sid (ground arith) h.2,
    )

IsOrdered-without :
    (stamp : String → ℕ) (now : ℕ) (order : List String) (sid : String)
    → IsOrdered stamp now order
    → IsOrdered stamp now (without order sid)
unfolding without
IsOrdered-without stamp now [] sid h = tt
IsOrdered-without stamp now (k ∷ order) sid h = ground (
  arith,
  AllFrom-without stamp (suc (stamp k)) order sid h.1,
  IsOrdered-without stamp now order sid h.2,
)

tracked-without : (order : List String) (sid : String) → tracked (without order sid) sid ≡ false
unfolding tracked without
tracked-without [] sid = refl
tracked-without (k ∷ order) sid = ground (arith, tracked-without order sid)

-- Where the order is that of the last uses, before `now`, an access at `now` leaves it so, with
-- the session used last.
pub on_access-IsOrdered :
    (stamp : String → ℕ) (now : ℕ) (order : List String) (sid : String)
    → IsOrdered stamp now order
    → IsOrdered (use_at stamp sid now) (suc now) (on_access order sid)
unfolding on_access
on_access-IsOrdered stamp now order sid h = elim (Bool-cases (tracked order sid)) [
  | inl t ↦ rw t (
      IsOrdered-use stamp now (without order sid) sid (tracked-without order sid)
        (IsOrdered-without stamp now order sid h))
  | inr t ↦ rw t (IsOrdered-use stamp now order sid t h)
]

-- Where the order is that of the last uses, before `now`, and does not hold the session, its
-- insertion at `now` leaves it so, with the session used last.
pub on_insert-IsOrdered :
    (stamp : String → ℕ) (now : ℕ) (order : List String) (sid : String)
    → tracked order sid ≡ false
    → IsOrdered stamp now order
    → IsOrdered (use_at stamp sid now) (suc now) (on_insert order sid)
unfolding on_insert
on_insert-IsOrdered stamp now order sid t h = rw t (IsOrdered-use stamp now order sid t h)

-- Where the order is that of the last uses, a removal leaves it so, and the session is not in it
-- any more.
pub on_remove-IsOrdered :
    (stamp : String → ℕ) (now : ℕ) (order : List String) (sid : String)
    → IsOrdered stamp now order
    → IsOrdered stamp now (on_remove order sid) × (tracked (on_remove order sid) sid ≡ false)
unfolding on_remove
on_remove-IsOrdered stamp now order sid h =
    ground (arith, IsOrdered-without stamp now order sid h, tracked-without order sid)

AllFrom-tracked :
    (stamp : String → ℕ) (n : ℕ) (order : List String) (w : String)
    → AllFrom stamp n order
    → tracked order w ≡ true
    → n ≤ stamp w
unfolding tracked
AllFrom-tracked stamp n [] w h t = cc
AllFrom-tracked stamp n (k ∷ order) w h t =
    ground (arith, eq_iff k w, AllFrom-tracked stamp n order w h.1)

-- Where a candidate is tracked, the scan finds one, and none that is tracked has an earlier last use.
first_candidate_least :
    (stamp : String → ℕ) (now : ℕ) (order : List String) (entries : Dict CacheEntry) (w : String)
    → IsOrdered stamp now order
    → tracked order w ≡ true
    → Dict.contains entries w ≡ true
    → (v : String) × (first_candidate order entries ≡ some v) × (stamp v ≤ stamp w)
unfolding first_candidate tracked
first_candidate_least stamp now [] entries w o t c = cc
first_candidate_least stamp now (k ∷ order) entries w o t c =
    elim (Bool-cases (Dict.contains entries k)) [
      | inl q ↦
          (k, rw q, ground (arith, eq_iff k w, AllFrom-tracked stamp (suc (stamp k)) order w o.1))
      | inr q ↦
          let (v, f, le) =
            first_candidate_least stamp now order entries w o.2 (ground (arith, eq_iff k w)) c in
          (v, rw q f, le)
    ]

-- Where the order is that of the last uses, a victim was used no later than any candidate that
-- the order holds.
pub select_victim_least :
    (stamp : String → ℕ) (now : ℕ) (order : List String) (entries : Dict CacheEntry) (v w : String)
    → IsOrdered stamp now order
    → select_victim order entries ≡ some v
    → tracked order w ≡ true
    → Dict.contains entries w ≡ true
    → stamp v ≤ stamp w
unfolding select_victim Dict.get
select_victim_least stamp now order [] v w o s t c = cc
select_victim_least stamp now order (e ∷ entries) v w o s t c =
    let (u, f, le) = first_candidate_least stamp now order (e ∷ entries) w o t c in ground (arith)

-- ===== src/Eviction/Oracle/Trace.antt =====
-- eviction/oracle.py: `next_resume_after`, against the events of the trace.
pub mod Built
use mathlib.Core.Option
use mathlib.Core.Path.{subst}
use mathlib.Core.List.{append_assoc, append-nil}
use kv_cache_tier_persistenc.Prelude.{
  ℕ, zero, suc, ◌≤◌, ◌<◌, ◌≡◌, refl, sym, ap, ◌∙◌, ◌⊎◌, inl, inr, String, Bool, true, false, Option,
  none, some, List, [], ◌∷◌, ◌++◌, str_eq, eq_iff, ltb, leb, if◌then◌else◌, take, drop, arith,
  Bool-cases, Option-cases,
}
use kv_cache_tier_persistenc.Dict
use kv_cache_tier_persistenc.Eviction.Oracle.{
  TraceEvent, TraceOracle, times_of, add_event, gather, insert_time, sort_times, sort_values,
  trace_oracle, first_of, next_in, next_resume_after,
}

-- The times of the session's resumes, in the order of the trace.
unfoldable pub resumes : List TraceEvent → String → List ℕ
resumes [] sid = []
resumes (e ∷ events) sid =
    let rest = resumes events sid in
    if str_eq e.action "resume"
    then (if str_eq e.session_id sid then e.timestamp ∷ rest else rest)
    else rest

abbrev pub Among : ℕ → List ℕ → Type 0
Among s [] = ⊥
Among s (t ∷ l) = (t ≡ s) ⊎ Among s l

abbrev pub AllFrom : ℕ → List ℕ → Type 0
AllFrom n [] = Unit
AllFrom n (t ∷ l) = (n ≤ t) × AllFrom n l

abbrev pub AllUpTo : ℕ → List ℕ → Type 0
AllUpTo n [] = Unit
AllUpTo n (t ∷ l) = (t ≤ n) × AllUpTo n l

abbrev pub IsSorted : List ℕ → Type 0
IsSorted [] = Unit
IsSorted (t ∷ l) = AllFrom t l × IsSorted l

-- What numpy documents of `searchsorted(arr, t, side="right")` on a sorted array: the elements
-- before the index are at most `t`, those from it on are greater.
abbrev pub IsSearchsorted : (List ℕ → ℕ → ℕ) → Type 0
IsSearchsorted ss =
    (arr : List ℕ) (t : ℕ)
    → IsSorted arr
    → AllUpTo t (take (ss arr t) arr) × AllFrom (suc t) (drop (ss arr t) arr)

-- The least time of the list after `t`, or none where there is no later one.
abbrev pub IsNext : List ℕ → ℕ → Option ℕ → Type 0
IsNext l t none = (s : ℕ) → Among s l → s ≤ t
IsNext l t (some r) = Among r l × (t < r) × ((s : ℕ) → Among s l → t < s → r ≤ s)

AllFrom-Among : (n s : ℕ) (l : List ℕ) → AllFrom n l → Among s l → n ≤ s
AllFrom-Among n s [] h a = elim a [ ]
AllFrom-Among n s (t ∷ l) h (inl e) = omega (arith, e)
AllFrom-Among n s (t ∷ l) h (inr a) = AllFrom-Among n s l h.1 a

AllUpTo-Among : (n s : ℕ) (l : List ℕ) → AllUpTo n l → Among s l → s ≤ n
AllUpTo-Among n s [] h a = elim a [ ]
AllUpTo-Among n s (t ∷ l) h (inl e) = omega (arith, e)
AllUpTo-Among n s (t ∷ l) h (inr a) = AllUpTo-Among n s l h.1 a

Among-split : (n s : ℕ) (l : List ℕ) → Among s l → Among s (take n l) ⊎ Among s (drop n l)
Among-split zero s l a = inr a
Among-split (suc n) s [] a = elim a [ ]
Among-split (suc n) s (t ∷ l) (inl e) = inl (inl e)
Among-split (suc n) s (t ∷ l) (inr a) = elim (Among-split n s l a) [
  | inl b ↦ inl (inr b)
  | inr b ↦ inr b
]

Among-drop : (n s : ℕ) (l : List ℕ) → Among s (drop n l) → Among s l
Among-drop zero s l a = a
Among-drop (suc n) s [] a = a
Among-drop (suc n) s (t ∷ l) a = inr (Among-drop n s l a)

drop-IsSorted : (n : ℕ) (l : List ℕ) → IsSorted l → IsSorted (drop n l)
drop-IsSorted zero l h = h
drop-IsSorted (suc n) [] h = h
drop-IsSorted (suc n) (t ∷ l) h = drop-IsSorted n l h.1

-- The first of the elements that are greater is the next.
first_of-IsNext :
    (n t : ℕ) (l d : List ℕ)
    → drop n l ≡ d
    → IsSorted d
    → AllUpTo t (take n l)
    → AllFrom (suc t) d
    → IsNext l t (first_of d)
first_of-IsNext n t l [] e o u f = λ s a. elim (Among-split n s l a) [
  | inl b ↦ AllUpTo-Among t s (take n l) u b
  | inr b ↦ absurd (subst (Among s) e b)
]
first_of-IsNext n t l (r ∷ d) e o u f = (
  Among-drop n r l (subst (Among r) (sym e) (inl refl)),
  f.0,
  λ s a lt. elim (Among-split n s l a) [
    | inl b ↦ absurd (omega (arith, AllUpTo-Among t s (take n l) u b))
    | inr b ↦ elim (subst (Among s) e b) [
      | inl q ↦ omega (arith, q)
      | inr c ↦ AllFrom-Among r s d o.0 c
    ]
  ],
)

next_in-IsNext :
    (ss : List ℕ → ℕ → ℕ) (l : List ℕ) (t : ℕ)
    → IsSearchsorted ss
    → IsSorted l
    → IsNext l t (next_in ss l t)
unfolding next_in
next_in-IsNext ss l t k o =
    first_of-IsNext (ss l t) t l (drop (ss l t) l) refl (drop-IsSorted (ss l t) l o) (k l t o).0
      (k l t o).1

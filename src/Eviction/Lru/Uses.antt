-- ===== src/Eviction/Lru/Uses.antt =====
-- eviction/lru.py: any sequence of the policy's hooks, with the time of each session's last use.
use kv_cache_tier_persistenc.Prelude.{
  ℕ, suc, String, Bool-cases, inl, inr, List, [], ◌∷◌, arith, if◌then◌else◌,
}
use kv_cache_tier_persistenc.Eviction.Lru.{tracked, on_access, on_insert, on_remove}
use kv_cache_tier_persistenc.Eviction.Lru.Recency.{
  IsOrdered, use_at, on_access-IsOrdered, on_insert-IsOrdered, on_remove-IsOrdered,
}

pub data Hook : Type 0 where
  access insertion removal : String → Hook

-- The order, and what only the specification keeps: the last use of each session, and the time.
pub record Used : Type 0 where
  pub order : List String
  pub stamp : String → ℕ
  pub now : ℕ

-- An access is a use; an insertion is one where the session is new to the order.
unfoldable pub after_hook : Hook → Used → Used
after_hook (access sid) u = record {
  order = on_access u.order sid;
  stamp = use_at u.stamp sid u.now;
  now = suc u.now;
}
after_hook (insertion sid) u = record {
  order = on_insert u.order sid;
  stamp = if tracked u.order sid then u.stamp else use_at u.stamp sid u.now;
  now = suc u.now;
}
after_hook (removal sid) u = record u { order = on_remove u.order sid; now = suc u.now }

unfoldable pub after_hooks : List Hook → Used → Used
after_hooks [] u = u
after_hooks (h ∷ hooks) u = after_hooks hooks (after_hook h u)

later-IsOrdered :
    (stamp : String → ℕ) (now : ℕ) (order : List String)
    → IsOrdered stamp now order
    → IsOrdered stamp (suc now) order
later-IsOrdered stamp now [] o = tt
later-IsOrdered stamp now (k ∷ order) o = (omega arith, o.1, later-IsOrdered stamp now order o.2)

hook-IsOrdered :
    (h : Hook) (u : Used)
    → IsOrdered u.stamp u.now u.order
    → IsOrdered (after_hook h u).stamp (after_hook h u).now (after_hook h u).order
unfolding after_hook
hook-IsOrdered (access sid) u o = on_access-IsOrdered u.stamp u.now u.order sid o
hook-IsOrdered (insertion sid) u o = elim (Bool-cases (tracked u.order sid)) [
  | inl t ↦ rw t (unfold on_insert in rw t (later-IsOrdered u.stamp u.now u.order o))
  | inr t ↦ rw t (on_insert-IsOrdered u.stamp u.now u.order sid t o)
]
hook-IsOrdered (removal sid) u o =
    later-IsOrdered u.stamp u.now (on_remove u.order sid)
      (on_remove-IsOrdered u.stamp u.now u.order sid o).0

-- Where the order is by the last use of each session, it is so after any accesses, insertions and
-- removals; an insertion of a session that the order holds is no use.
pub after_hooks-IsOrdered :
    (hooks : List Hook) (u : Used)
    → IsOrdered u.stamp u.now u.order
    → IsOrdered (after_hooks hooks u).stamp (after_hooks hooks u).now (after_hooks hooks u).order
unfolding after_hooks
after_hooks-IsOrdered [] u o = o
after_hooks-IsOrdered (h ∷ hooks) u o =
    after_hooks-IsOrdered hooks (after_hook h u) (hook-IsOrdered h u o)

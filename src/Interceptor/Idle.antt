-- ===== src/Interceptor/Idle.antt =====
-- interceptor/kv_cache_interceptor.py: the cleanup of idle sessions, with the callback that
-- demotes.
use kv_cache_tier_persistenc.Prelude.{ℕ, String}
use kv_cache_tier_persistenc.Exec.{◌>>=◌, pure}
use kv_cache_tier_persistenc.Exec.Hoare.{Triple}
use kv_cache_tier_persistenc.Dict
use kv_cache_tier_persistenc.Dict.Bytes.{Bytes}
use kv_cache_tier_persistenc.Eviction.Policy.{EvictionPolicy, IsSound}
use kv_cache_tier_persistenc.Manager.{Manager}
use kv_cache_tier_persistenc.Manager.Ready.{IsReady}
use kv_cache_tier_persistenc.Manager.Holds.{Holds}
use kv_cache_tier_persistenc.Manager.Requests.{Settings}
use kv_cache_tier_persistenc.Manager.Requests.Holds.{demote-Holds}
use kv_cache_tier_persistenc.Manager.Requests.Total.{demote_total}
use kv_cache_tier_persistenc.Sessions.{SessionInfo}
use kv_cache_tier_persistenc.Sessions.Stale.{Cleaned, cleanup_stale-Cleaned}
use kv_cache_tier_persistenc.Interceptor.{KvCacheInterceptor, on_session_idle, cleanup}

-- The cache is ready, and each of its sessions holds its content.
abbrev pub ReadyHolding : {S : Type 0} → (String → Bytes) → Manager S → Type 0
ReadyHolding content m = IsReady m × Holds content m

module _ {S : Type 0} (p : EvictionPolicy S) (c : Settings) (sound : IsSound p)
    (content : String → Bytes) where
  on_session_idle-keeps :
      (sid : String) (info : SessionInfo)
      → Triple
          (ReadyHolding {S = S} content)
          (on_session_idle p c sid info)
          (λ _. ReadyHolding content)
          (λ _ _. ⊥)
  unfolding on_session_idle ◌>>=◌ pure
  on_session_idle-keeps sid info = record {
    at = λ m h.
        let (b, n, r, ready) = demote_total p sound sid m h.0 in
        rw r (ready, rw r at (demote-Holds p c content sid m h.1));
  }

  -- With a sound policy, over a cache that is ready and in which each session holds its content,
  -- and with each tracked session once, the cleanup returns the number of the idle sessions,
  -- marks each of them as ended and no other, and leaves the cache ready, with each of its
  -- sessions holding its content.
  pub cleanup-Cleaned :
      (timeout now : ℕ) (s : KvCacheInterceptor p c)
      → ReadyHolding content s.world
      → Dict.IsUnique s.sessions
      → Cleaned (ReadyHolding content) timeout now s.sessions (cleanup p c timeout now s)
  unfolding cleanup
  cleanup-Cleaned timeout now s h u =
      cleanup_stale-Cleaned (ReadyHolding content) now (on_session_idle p c) on_session_idle-keeps
        timeout s h u

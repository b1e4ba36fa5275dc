-- ===== src/Interceptor/Resume.antt =====
-- interceptor/kv_cache_interceptor.py: a request that completes, and one that starts later for
-- the same session.
use kv_cache_tier_persistenc.Prelude.{ℕ, String, ◌≡◌, refl, false, Option, none, some, eq_refl}
use kv_cache_tier_persistenc.Result.{Result, ok, raise}
use kv_cache_tier_persistenc.Exec.{◌>>=◌, lift, gets, modify, pure}
use kv_cache_tier_persistenc.Exec.Hoare.{Outcome}
use kv_cache_tier_persistenc.Dict
use kv_cache_tier_persistenc.Dict.Bytes.{Bytes}
use kv_cache_tier_persistenc.Tensor.{KvData, token_count}
use kv_cache_tier_persistenc.Eviction.Policy.{EvictionPolicy, IsSound}
use kv_cache_tier_persistenc.Manager.{Manager, is_empty, num_blocks}
use kv_cache_tier_persistenc.Manager.Ready.{IsReady}
use kv_cache_tier_persistenc.Manager.Holds.{Holds}
use kv_cache_tier_persistenc.Manager.Requests.{Settings, save, load}
use kv_cache_tier_persistenc.Manager.Requests.Saved.{with_content}
use kv_cache_tier_persistenc.Manager.Requests.RoundTrip.{Loaded, OtherwiseKept, save-load}
use kv_cache_tier_persistenc.Sessions.{SessionInfo, SessionManager, on_world, update_session}
use kv_cache_tier_persistenc.Interceptor.{KvCacheInterceptor, on_request_start, on_request_complete}

-- The hook returned `r`, over a cache that is ready and holds `content`.
pub record Resumed {S : Type 0} (content : String → Bytes) (r : Option KvData)
    (x : Result (Option KvData) × SessionManager (Manager S)) : Type 0 where
  pub state : SessionManager (Manager S)
  pub returned : x ≡ (ok r, state)
  pub ready : IsReady state.world
  pub holds : Holds content state.world

module _ {S : Type 0} (p : EvictionPolicy S) (c : Settings) (sound : IsSound p)
    (content : String → Bytes) where
  start-Resumed :
      (content : String → Bytes) (r : Option KvData) (fresh sid user_id : String) (now : ℕ)
      (s : KvCacheInterceptor p c)
      → Loaded content r (load p c sid s.world)
      → Resumed content r (on_request_start p c fresh now sid user_id s)
  unfolding on_request_start on_world ◌>>=◌ modify
  start-Resumed content r fresh sid user_id now s h = record {
    state = record (on_request_start p c fresh now sid user_id s).1 { world = h.state };
    returned = rw h.returned refl;
    ready = h.ready;
    holds = h.holds;
  }

  -- Where the session is known, the data serialize to bytes that are not empty and deserialize,
  -- with token and block counts, the policy is sound, and the cache is ready and holds
  -- `content`: if `on_request_complete` returns, then `on_request_start` for the session, at
  -- whatever time and for whatever user, returns what the bytes deserialize to, and each session
  -- of the cache holds what it should; if it raises, it raises `MemoryError`, and the other
  -- sessions hold what they held.
  pub complete-start :
      (fresh sid user_id : String) (now later : ℕ) (kv kv' : KvData) (s : KvCacheInterceptor p c)
      (info : SessionInfo) (b : Bytes) (tokens blocks : ℕ)
      → Dict.get s.sessions sid ≡ some info
      → c.serializer.serialize kv c.model ≡ ok b
      → c.serializer.deserialize b ≡ ok kv'
      → is_empty b ≡ false
      → token_count kv ≡ ok tokens
      → num_blocks c.model tokens ≡ ok blocks
      → IsReady s.world
      → Holds content s.world
      → Outcome
          (λ _ t.
            Resumed
              (with_content content sid b)
              (some kv')
              (on_request_start p c fresh later sid user_id t))
          (λ e t. OtherwiseKept content sid e t.world)
          (on_request_complete p c now sid kv s)
  unfolding on_request_complete ◌>>=◌ lift modify gets update_session pure on_world
  complete-start fresh sid user_id now later kv kv' s info b tokens blocks g es ed full et eb ready
        holds =
      rw (et, Dict.get-adjust s.sessions sid sid, eq_refl sid, g)
        (joined _ (save p c sid info.user_id kv none s.world) (
          save-load p c sound content sid info.user_id kv kv' none s.world b tokens blocks es ed
            full et eb ready holds))
    where
      joined :
          (sessions : Dict.Dict SessionInfo)
          → (r : Result (Unit {0}) × Manager S)
          → Outcome
              (λ _ m. Loaded (with_content content sid b) (some kv') (load p c sid m))
              (OtherwiseKept content sid)
              r
          → Outcome {S = KvCacheInterceptor p c}
              (λ _ t.
                Resumed
                  (with_content content sid b)
                  (some kv')
                  (on_request_start p c fresh later sid user_id t))
              (λ e t. OtherwiseKept content sid e t.world)
              (r.0, record s { sessions = sessions; world = r.1 })
      joined sessions (raise e, m) k = k
      joined sessions (ok x, m) k =
          start-Resumed (with_content content sid b) (some kv') fresh sid user_id later _ k

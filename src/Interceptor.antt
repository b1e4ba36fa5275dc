-- ===== src/Interceptor.antt =====
-- interceptor/kv_cache_interceptor.py: the hooks of a serving engine, over the cache manager and the
-- session manager whose callback demotes. The two swap hooks have empty bodies.
pub mod Resume
pub mod Idle
use kv_cache_tier_persistenc.Prelude.{ℕ, String, Option, none, some}
use kv_cache_tier_persistenc.Result.{attribute_error}
use kv_cache_tier_persistenc.Exec.{Exec, pure, throw, lift, gets, modify, ◌>>=◌, ◌>>◌}
use kv_cache_tier_persistenc.Dict
use kv_cache_tier_persistenc.Tensor.{KvData, token_count}
use kv_cache_tier_persistenc.Eviction.Policy.{EvictionPolicy}
use kv_cache_tier_persistenc.Manager.{Manager}
use kv_cache_tier_persistenc.Manager.Requests.{Settings, load, save, demote}
use kv_cache_tier_persistenc.Sessions.{
  SessionManager, SessionInfo, start_session, update_session, on_world, cleanup_stale, end_session,
}

module _ {S : Type 0} (p : EvictionPolicy S) (c : Settings) where
  abbrev pub KvCacheInterceptor : Type 0
  KvCacheInterceptor = SessionManager (Manager S)

  -- `_on_session_idle`; the answer of `demote` is dropped
  unfoldable pub on_session_idle : String → SessionInfo → Exec (Manager S) (Unit {0})
  on_session_idle sid info = do demote p sid; pure tt

  unfoldable pub on_request_start :
      String → ℕ → String → String → Exec KvCacheInterceptor (Option KvData)
  on_request_start fresh now sid user_id = do
    modify (λ s. record s { sessions = (start_session s.sessions user_id (some sid) fresh now).1 })
    on_world (load p c sid)

  -- `self.sessions.get_session(session_id).user_id`
  abbrev pub user_of : Option SessionInfo → Exec KvCacheInterceptor String
  user_of none = throw attribute_error
  user_of (some info) = pure info.user_id

  unfoldable pub on_request_complete : ℕ → String → KvData → Exec KvCacheInterceptor (Unit {0})
  on_request_complete now sid kv = do
    tokens ← lift (token_count kv)
    modify (λ s. record s { sessions = update_session s.sessions sid tokens now })
    info ← gets (λ s. Dict.get s.sessions sid)
    user_id ← user_of info
    on_world (save p c sid user_id kv none)

  -- `self.sessions.cleanup_stale(timeout)`, with the callback that the constructor sets
  unfoldable pub cleanup : ℕ → ℕ → Exec KvCacheInterceptor ℕ
  unfolding on_session_idle
  cleanup = cleanup_stale (some on_session_idle)

-- ===== src/Tests/Serving.antt =====
-- Instances of what is proved of the sessions and of the interceptor.
use kv_cache_tier_persistenc.Prelude.{ℕ, String, ◌≡◌, refl, true, some, [], ◌∷◌}
use kv_cache_tier_persistenc.Result.{ok}
use kv_cache_tier_persistenc.Exec.Hoare.{Outcome}
use kv_cache_tier_persistenc.Dict
use kv_cache_tier_persistenc.Dict.{Dict}
use kv_cache_tier_persistenc.Dict.Bytes.{Bytes}
use kv_cache_tier_persistenc.Tensor.{KvData, token_count}
use kv_cache_tier_persistenc.Eviction.Lru.{lru, lru-IsSound}
use kv_cache_tier_persistenc.Manager.{num_blocks}
use kv_cache_tier_persistenc.Manager.Requests.Saved.{with_content}
use kv_cache_tier_persistenc.Manager.Requests.RoundTrip.{OtherwiseKept}
use kv_cache_tier_persistenc.Sessions.{SessionInfo}
use kv_cache_tier_persistenc.Sessions.Stale.{Cleaned}
use kv_cache_tier_persistenc.Interceptor.{
  KvCacheInterceptor, on_request_start, on_request_complete, cleanup,
}
use kv_cache_tier_persistenc.Interceptor.Idle.{ReadyHolding, cleanup-Cleaned}
use kv_cache_tier_persistenc.Interceptor.Resume.{Resumed, complete-start}
use kv_cache_tier_persistenc.Tests.Data.{
  system, settings, content, kv_of, system-IsReady, system-Holds,
}

abbrev info : String → ℕ → SessionInfo
info sid last = record {
  session_id = sid;
  user_id = "u";
  started_at = 0;
  last_active = last;
  token_count = 0;
  is_active = true;
}

-- `a` was active at 15 and `d` at 2.
abbrev tracked_sessions : Dict SessionInfo
tracked_sessions = ("a", info "a" 15) ∷ ("d", info "d" 2) ∷ []

abbrev serving : KvCacheInterceptor lru settings
serving = record { sessions = tracked_sessions; world = system }

serving-IsUnique : Dict.IsUnique tracked_sessions
unfolding Dict.get
serving-IsUnique = (refl, (refl, tt))

cleanup-Cleaned_example :
    Cleaned (ReadyHolding content) 10 20 tracked_sessions (cleanup lru settings 10 20 serving)
cleanup-Cleaned_example =
    cleanup-Cleaned lru settings lru-IsSound content 10 20 serving (system-IsReady, system-Holds)
      serving-IsUnique

abbrev turn_bytes : Bytes
turn_bytes = 7 ∷ 8 ∷ []

abbrev turn : KvData
turn = kv_of turn_bytes

turn_tokens : token_count turn ≡ ok 2
unfolding token_count
turn_tokens = refl

turn_blocks : num_blocks settings.model 2 ≡ ok 1
unfolding num_blocks
turn_blocks = refl

known : Dict.get tracked_sessions "d" ≡ some (info "d" 2)
unfolding Dict.get
known = refl

complete-start_example :
    Outcome
      (λ _ t.
        Resumed
          (with_content content "d" turn_bytes)
          (some turn)
          (on_request_start lru settings "f" 30 "d" "u" t))
      (λ e t. OtherwiseKept content "d" e t.world)
      (on_request_complete lru settings 20 "d" turn serving)
complete-start_example =
    complete-start lru settings lru-IsSound content "f" "d" "u" 20 30 turn turn serving (info "d" 2)
      turn_bytes 2 1 known refl refl refl turn_tokens turn_blocks system-IsReady system-Holds

-- ===== src/Tests/Cascade.antt =====
-- Runs of the manager on the system of Data, and instances of what is proved of its operations.
use kv_cache_tier_persistenc.Prelude.{String, ◌≡◌, refl, Bool, true, none, some, List, [], ◌∷◌, ◌<◌}
use kv_cache_tier_persistenc.Result.{Result, ok}
use kv_cache_tier_persistenc.Exec.Hoare.{Outcome}
use kv_cache_tier_persistenc.Dict
use kv_cache_tier_persistenc.Dict.Bytes.{Bytes, total, sizes_of}
use kv_cache_tier_persistenc.Exec.{◌>>=◌, gets, lift, modify, pure, throw}
use kv_cache_tier_persistenc.Index
use kv_cache_tier_persistenc.Tiers.Hot
use kv_cache_tier_persistenc.Tiers.Warm
use kv_cache_tier_persistenc.Tiers.Cold
use kv_cache_tier_persistenc.Eviction.Lru
use kv_cache_tier_persistenc.Eviction.Lru.{
  first_candidate, first_key, on_access, on_insert, on_remove, tracked, without,
}
use kv_cache_tier_persistenc.Manager.{
  ensure_space, tier, set_tier, put_in, delete_in, evict_at, victim, in_tier, demote_with, relocate,
  move_entry, forget, delete,
}
use kv_cache_tier_persistenc.Manager.Requests.{
  make_room, record_entry, insert_entry, new_entry, refresh, refreshed, save_to_tier, record_hit,
  touch,
}
use kv_cache_tier_persistenc.Tensor.{KvData, token_count, layer}
use kv_cache_tier_persistenc.Tiers.Storage
use kv_cache_tier_persistenc.Tiers.Storage.{TierName, hot, warm, cold}
use kv_cache_tier_persistenc.Eviction.Lru.{lru, lru-IsSound}
use kv_cache_tier_persistenc.Manager.{Manager, num_blocks}
use kv_cache_tier_persistenc.Manager.Holds.{Holds}
use kv_cache_tier_persistenc.Manager.Fits.{Fits}
use kv_cache_tier_persistenc.Manager.Ready.{IsReady}
use kv_cache_tier_persistenc.Manager.Count.{count}
use kv_cache_tier_persistenc.Manager.Requests.{evict_from_tier, promote, save, load}
use kv_cache_tier_persistenc.Manager.Requests.Saved.{
  HoldsSaved, HoldsOthers, with_content, save-Holds,
}
use kv_cache_tier_persistenc.Manager.Requests.Total.{evict_from_tier_total}
use kv_cache_tier_persistenc.Manager.Requests.Fits.{after, save_request}
use kv_cache_tier_persistenc.Manager.Requests.SaveReady.{OutOfMemory, save-Ready}
use kv_cache_tier_persistenc.Manager.Requests.RoundTrip.{
  Loaded, OtherwiseKept, load-Loaded, save-load,
}
use kv_cache_tier_persistenc.Tests.Data.{
  system, settings, content, bytes_b, kv_of, entry, system-IsReady, system-Holds,
}
use kv_cache_tier_persistenc.Prelude.{[], ◌∷◌}
use kv_cache_tier_persistenc.Manager.Requests.Fits.{
  Request, load_request, promote_request, delete_request, maintenance_request,
}
use kv_cache_tier_persistenc.Manager.Requests.Traces.{
  promotion, after-Holds, Completes, moves_total,
}

abbrev new_bytes : Bytes
new_bytes = 7 ∷ 8 ∷ []

abbrev new_kv : KvData
new_kv = kv_of new_bytes

new_tokens : token_count new_kv ≡ ok 2
unfolding token_count
new_tokens = refl

new_blocks : num_blocks settings.model 2 ≡ ok 1
unfolding num_blocks
new_blocks = refl

indexed_b : Dict.get system.index "b" ≡ some (entry "b" warm 5 2)
unfolding Dict.get
indexed_b = refl

-- A save of two bytes evicts `a` into the warm tier, which evicts `b` into the cold tier.
abbrev saved : Result (Unit {0}) × Manager (List String)
saved = save lru settings "d" "u" new_kv none system

save_runs : (saved.0 ≡ ok tt) × (Storage.list_entries saved.1.cold_tier ≡ "c" ∷ "b" ∷ [])
unfolding save load ◌>>=◌ gets lift modify pure throw ensure_space make_room Storage.is_full
    Storage.usage Storage.put Storage.get Storage.delete Storage.list_entries tier set_tier put_in
    delete_in evict_at victim in_tier lru Lru.select_victim first_candidate first_key on_access
    on_insert on_remove tracked without Dict.get Dict.put Dict.remove Dict.adjust total sizes_of
    demote_with relocate move_entry forget delete record_entry insert_entry new_entry refresh
    refreshed save_to_tier num_blocks token_count layer Index.add record_hit touch promote Hot.put
    Hot.delete Warm.put Warm.get Warm.delete Cold.put Cold.get Cold.delete
save_runs = (refl, refl)

save-load_example :
    Outcome
      (λ _ m'. Loaded (with_content content "d" new_bytes) (some new_kv) (load lru settings "d" m'))
      (OtherwiseKept content "d")
      (save lru settings "d" "u" new_kv none system)
save-load_example =
    save-load lru settings lru-IsSound content "d" "u" new_kv new_kv none system new_bytes 2 1 refl
      refl refl new_tokens new_blocks system-IsReady system-Holds

save-Holds_example :
    Outcome
      (λ _. HoldsSaved "d" (with_content content "d" new_bytes))
      (λ _. HoldsOthers "d" content)
      (save lru settings "d" "u" new_kv none system)
save-Holds_example =
    save-Holds lru settings content "d" "u" new_kv none system new_bytes refl system-Holds

save-Ready_example :
    Outcome (λ _. IsReady) OutOfMemory (save lru settings "d" "u" new_kv none system)
save-Ready_example =
    save-Ready lru settings lru-IsSound "d" "u" new_kv none system new_bytes 2 1 refl new_tokens
      new_blocks system-IsReady

load-Loaded_example : Loaded content (some (kv_of bytes_b)) (load lru settings "b" system)
load-Loaded_example =
    load-Loaded lru settings lru-IsSound content "b" (entry "b" warm 5 2) (kv_of bytes_b) system
      system-IsReady system-Holds indexed_b refl refl

moves_total_example : Completes lru settings (promotion "c" hot) system
moves_total_example = moves_total lru settings (promotion "c" hot) system lru-IsSound system-IsReady

evict_from_tier_total_example :
    (b : Bool) × (m' : Manager (List String)) × (evict_from_tier lru hot system ≡ (ok b, m'))
    × IsReady m'
    × (b ≡ true → count hot m'.index < count hot system.index)
evict_from_tier_total_example = evict_from_tier_total lru lru-IsSound hot system system-IsReady

after-Holds_example : Holds content (after lru settings (load_request "c") system)
after-Holds_example = after-Holds lru settings content (load_request "c") system refl system-Holds

abbrev requests : List Request
requests =
    save_request "d" "u" new_kv none
    ∷ promote_request "c" hot
    ∷ maintenance_request
    ∷ delete_request "a"
    ∷ []

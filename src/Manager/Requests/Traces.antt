-- ===== src/Manager/Requests/Traces.antt =====
-- core/tiered_manager.py: the calls of a client one by one and in a sequence.
use kv_cache_tier_persistenc.Prelude.{String, ◌≡◌, Bool, true, false, List, [], ◌∷◌}
use kv_cache_tier_persistenc.Exec.Hoare.{state_of_outcome}
use kv_cache_tier_persistenc.Dict.Bytes.{Bytes}
use kv_cache_tier_persistenc.Tiers.Storage.{TierName}
use kv_cache_tier_persistenc.Eviction.Policy.{EvictionPolicy, IsSound}
use kv_cache_tier_persistenc.Manager.{Manager}
use kv_cache_tier_persistenc.Manager.Holds.{Holds, Holds-IsStable}
use kv_cache_tier_persistenc.Manager.Fits.{Fits}
use kv_cache_tier_persistenc.Manager.Ready.{IsReady}
use kv_cache_tier_persistenc.Manager.Demotion.{delete-Keeps}
use kv_cache_tier_persistenc.Manager.Requests.{Settings, demote, promote, run_maintenance}
use kv_cache_tier_persistenc.Manager.Requests.Fits.{
  Request, save_request, load_request, promote_request, demote_request, delete_request,
  evict_request, maintenance_request, after,
}
use kv_cache_tier_persistenc.Manager.Requests.Holds.{
  evict_from_tier-Holds, promote-Holds, demote-Holds, run_maintenance-Holds, load-Holds,
}
use kv_cache_tier_persistenc.Manager.Requests.Total.{
  Returns, promote_total, demote_total, run_maintenance_total,
}

abbrev pub is_save : Request → Bool
is_save (save_request sid uid kv md) = true
is_save _ = false

-- The calls that move sessions between the tiers and answer how it went.
pub data Move : Type 0 where
  promotion : String → TierName → Move
  demotion : String → Move
  maintenance : Move

module _ {S : Type 0} (p : EvictionPolicy S) (c : Settings) where
  -- The state after the calls, one after the other, whether each returned or raised.
  unfoldable pub after_all : List Request → Manager S → Manager S
  after_all [] m = m
  after_all (r ∷ requests) m = after_all requests (after p c r m)

  -- Where each session of the index is stored in the tier of its entry, with its content and size,
  -- the same is so after a load, promotion, demotion, deletion, eviction or maintenance run, whether
  -- it returns or raises, and whatever it moves or drops on the way.
  pub after-Holds :
      (content : String → Bytes) (r : Request) (m : Manager S)
      → is_save r ≡ false
      → Holds content m
      → Holds content (after p c r m)
  unfolding after
  after-Holds content (save_request sid uid kv md) m n h = cc
  after-Holds content (load_request sid) m n h = load-Holds p c content sid m h
  after-Holds content (promote_request sid t) m n h = promote-Holds p c content sid t m h
  after-Holds content (demote_request sid) m n h = demote-Holds p c content sid m h
  after-Holds content (delete_request sid) m n h =
      state_of_outcome (Holds content) _ ((delete-Keeps (Holds-IsStable content p) sid).at m h)
  after-Holds content (evict_request t) m n h = evict_from_tier-Holds p c content t m h
  after-Holds content maintenance_request m n h = run_maintenance-Holds p c content m h

  abbrev pub Completes : Move → Manager S → Type 0
  Completes (promotion sid t) m = Returns (promote p sid t m)
  Completes (demotion sid) m = Returns (demote p sid m)
  Completes maintenance m = Returns (run_maintenance p m)

  -- With a sound policy, from a ready state, a promotion, a demotion and a maintenance run each
  -- return and leave a ready state: the loop of the promotion ends within its rounds, and the
  -- cascade that makes room in the colder tiers ends and does not raise.
  pub moves_total : (v : Move) (m : Manager S) → IsSound p → IsReady m → Completes v m
  moves_total (promotion sid t) m sound h = promote_total p sound sid t m h
  moves_total (demotion sid) m sound h = demote_total p sound sid m h
  moves_total maintenance m sound h = run_maintenance_total p sound m h

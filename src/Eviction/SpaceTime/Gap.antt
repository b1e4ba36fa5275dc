-- ===== src/Eviction/SpaceTime/Gap.antt =====
-- eviction/space_time.py: the expected gap, its bounds and what an access changes of it.
use kv_cache_tier_persistenc.Dict

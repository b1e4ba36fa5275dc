-- ===== src/Lib.antt =====
-- The tiered KV-cache store: sessions of a language model keep their key-value data in a hot, a
-- warm or a cold tier, and the manager moves them between the tiers.
--
-- The parts of the program and the files that model them (paths from the repository's root):
--   src/kv_cache_tier/core/tiered_manager.py   Manager.antt has the state of `TieredCacheManager`
--     (the tiers, the index, the policy's own state, the hit and miss records) and the operations that
--     call one another: `evict_from_tier` is `evict_at`, `demote` is `demote_with`,
--     `_ensure_space_in_tier` is `ensure_space`. Manager/Requests.antt has those a client calls:
--     `save`, `load`, `promote`, `demote`, `run_maintenance`, `stats`. Manager/Init.antt is the constructor,
--     over the parameter `Platform` (the file system, the store and the libraries). Manager/*.antt and
--     Manager/Requests/*.antt are the proofs, named for what they prove.
--   src/kv_cache_tier/core/cache_metadata.py   Index.antt: `CacheEntry` and `CacheIndex`; Index/Update is
--     `update`, Index/File is `save` and `load`, with Python's `json` as a parameter.
--   src/kv_cache_tier/tiers/   Tiers/Hot, Tiers/Warm, Tiers/Cold for the classes, and Tiers/Storage for
--     `StorageTier`, the sum of the classes, each method dispatching on the class. Tiers/Minio is the
--     object store, over an S3 client as a parameter; Tiers/Minio/Connect has the constructors and the
--     factory `ColdTier.create`.
--   src/kv_cache_tier/eviction/base.py, lru.py, ttl.py   Eviction/Policy is the interface, a record of
--     operations on the policy's state, which the manager takes as a parameter; Eviction/Lru and
--     Eviction/Ttl fill it. A policy is sound (`IsSound`) when its victim is one of the candidates.
--   src/kv_cache_tier/eviction/predictive.py, value_density.py, space_time.py   Eviction/Predictive,
--     Eviction/ValueDensity and Eviction/SpaceTime: the policies that score. Eviction/Scores is what they
--     share (the dict of scores, one call of the predictor for all candidates, the least score), and
--     Eviction/MinKey the scan of `min`. The fitted predictor of predictors.py is the parameter
--     `ResumePredictor`. Eviction/Features is the access history and the features of features.py.
--   src/kv_cache_tier/eviction/__init__.py   Eviction/Factory.antt: `create_eviction_policy`, and a policy that
--     it made as one policy of a manager.
--   src/kv_cache_tier/eviction/oracle.py   Eviction/Oracle.antt: `TraceOracle`; its children are the three
--     oracle policies. `searchsorted` of numpy is a parameter, with the law `IsSearchsorted`.
--   src/kv_cache_tier/eviction/predictors.py   Predictors.antt: the two learned predictors, over the
--     parameter `Sklearn`.
--   src/kv_cache_tier/eviction/train_predictors.py   Training.antt: `extract_training_data`.
--   src/kv_cache_tier/utils/hardware.py, cost_model.py   Hardware.antt and CostModel.antt.
--   src/kv_cache_tier/utils/metrics.py   Metrics.antt: `MetricsCollector` and its timer, over the parameter
--     `Numpy`.
--   src/kv_cache_tier/utils/clock.py   Clock.antt: `SimulatedClock`.
--   src/kv_cache_tier/config.py   Config.antt: the configuration records.
--   src/kv_cache_tier/core/cache_block.py   Blocks.antt: the table of blocks; what it calls of numpy is
--     the parameter `Arrays`, with the laws `IsArrays`.
--   src/kv_cache_tier/utils/tensor_utils.py   TensorUtils.antt: generation, check, size and
--     quantization of KV data; TensorUtils/Compare is `kv_caches_equal`.
--   src/kv_cache_tier/core/session.py   Sessions.antt: the session table, whose callback acts on a world.
--   src/kv_cache_tier/interceptor/kv_cache_interceptor.py   Interceptor.antt: the serving hooks, the session
--     table over the cache manager.
--   src/kv_cache_tier/serialization/   `CacheSerializer` in Manager.antt is what the manager uses of a
--     serializer. Serialization/Raw.antt is `RawBinarySerializer`, over the parameter `Codec` (the CRC32 of
--     zlib and numpy's bytes of an array, with the laws `IsCodec`); Serialization/Compressed.antt is
--     `CompressedSerializer` over the parameter `Compressor`; Serialization/Safetensors.antt is
--     `SafetensorsSerializer` over the parameter `Library`, with `create_serializer`; Decimal.antt is `str`
--     of a number and `int` of a text; Serialization/Compressed/Stored.antt puts them
--     under the manager.
--   Tensor.antt has the KV data (a dict from layers to pairs of arrays), Dict.antt Python's dict,
--   Result.antt the exceptions, Exec.antt methods that mutate an object and may raise: what was written
--   before a raise stays written. Exec/Hoare.antt has one rule for each way to build such a method.
--   Tests/ runs the definitions on concrete data.
--
-- How the code is read:
--   * A manager's method runs as one step for one caller, as its class comment asks, on a clock that
--     stands still during the call (`SimulatedClock`). Times are numbers in one unit; the differences
--     that the TTL policy takes are compared with both sides moved, which is exact.
--   * Tier names are a type of three values, so the `ValueError` of `_get_tier` does not arise.
--   * An entry of the index is a mutable object: a write through a reference is `Dict.adjust` on the
--     index, which does nothing when the entry has left it.
--   * Floats are the parameter `Floats`, of which only the laws of `<` without a NaN (`IsOrdered`) are
--     used. Float/Exact is arithmetic without rounding, on fractions of natural numbers whose difference
--     stops at 0; the code subtracts only where it keeps the positive part or where the difference is not
--     negative. Dividing by 0, which raises in Python, is left out: the code divides by sizes and gaps of
--     at least 1, by constants, and by the rates and the half-life that it was configured with.
--   * The search of `breakeven_tokens` runs on fuel, one round more than `max_tokens`; each round makes the
--     range smaller.
--   * A directory is a dict from keys to files, distinct keys being distinct files; `io_error` names the
--     files that the operating system refuses, which make `open` raise and `remove` fail.
--   * `victim_id` and the payloads are tested for truth by the code, so an empty id is no victim and an
--     empty payload is missing; the definitions do the same.
--   * The evictions that call one another descend the tiers, so `evict_at` is a recursion on a depth
--     and `levels` is 3; the loop of `promote` gets a round for each entry of the index and one more.
--     An eviction evicts from colder tiers only, of which there are three, and each round that goes on has
--     taken an entry out of the tier.
--   * A ready state (`IsReady`) has each session once in the index, as a Python dict has, and files that
--     the operating system does not refuse. `Holds content` says that each session of the index is stored
--     in the tier of its entry, with its content and the size that the entry says.
--
-- Not modelled: the MinIO backend under the manager, the script that trains the predictors and
-- their files, the counters of Prometheus, `SystemConfig.from_dict`, logs and locks.
pub mod Prelude
pub mod Dict
pub mod Result
pub mod Exec
pub mod Tiers
pub mod Config
pub mod Tensor
pub mod Clock
pub mod Float
pub mod Hardware
pub mod CostModel
pub mod Metrics
pub mod Decimal
pub mod Predictors
pub mod Training
pub mod Index
pub mod Eviction
pub mod Manager
pub mod Blocks
pub mod TensorUtils
pub mod Sessions
pub mod Interceptor
pub mod Serialization
mod Tests

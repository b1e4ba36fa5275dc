-- ===== src/Tiers/Minio/Connect/Chosen.antt =====
-- tiers/cold_tier.py: which backend `ColdTier.create` chooses.
use kv_cache_tier_persistenc.Prelude.{
  String, Bool, true, false, ◌≡◌, refl, ap, ◌∙◌, str_eq, eq_iff, if◌then◌else◌, ◌⊎◌, inl, inr,
  arith, Bool-cases,
}
use kv_cache_tier_persistenc.Result.{Result, ok, raise, import_error, ◌>>=◌}
use kv_cache_tier_persistenc.Dict.{Dict}
use kv_cache_tier_persistenc.Dict.Bytes.{Bytes}
use kv_cache_tier_persistenc.Tiers.Cold.{LocalColdBackend}
use kv_cache_tier_persistenc.Tiers.Minio.{MinioColdBackend}
use kv_cache_tier_persistenc.Tiers.Minio.Connect.{
  Boto, FileSystem, Options, ColdTier, minio, local, capacity_of, path_of, open_local, connected,
  disconnected, or_local, create,
}
use kv_cache_tier_persistenc.Tiers.Minio.Connect.Reached.{IsReached, connection, connect-Connects}

module _ {W : Type 0} (b : Boto W) (fs : FileSystem) (backend : String) (o : Options) (w : W)
    (files : Dict Bytes) where
  -- A MinIO tier was asked for and its bucket is reached; a local tier has the files of the directory, and
  -- a bucket that was asked for could not be reached. Both have the capacity that was asked for.
  abbrev pub Chosen : ColdTier W → Type 0
  Chosen (minio t) =
      (backend ≡ "minio") × ((w' : W) × (t ≡ connected b (capacity_of o) w') × IsReached b o w w')
  Chosen (local t) =
      (t.files ≡ files)
      × (t.capacity_bytes ≡ capacity_of o)
      × (backend ≡ "minio" → (w' : W) → IsReached b o w w' → ⊥)

  abbrev opened_with : Dict Bytes → LocalColdBackend
  opened_with held = record {
    capacity_bytes = capacity_of o;
    files = held;
    io_error = fs.io_error (path_of o);
  }

  abbrev opened : LocalColdBackend
  opened = opened_with files

  abbrev otherwise : Result (ColdTier W)
  otherwise = open_local fs (path_of o) (capacity_of o) >>= λ t. ok (local t)

  open_local-ok : fs.makedirs (path_of o) ≡ ok files → otherwise ≡ ok (local opened)
  unfolding open_local
  open_local-ok is_dir =
      ap (λ r. (r >>= λ held. ok (opened_with held)) >>= λ t. ok (local t)) is_dir

  create_asked :
      (a : Bool)
      → str_eq backend "minio" ≡ a
      → create b fs backend o w ≡ (if a then or_local b (connection b o w) otherwise else otherwise)
  unfolding create
  create_asked a e = ap (λ x. if x then or_local b (connection b o w) otherwise else otherwise) e

  or_local-connected :
      (r : Result (MinioColdBackend W)) (rest : Result (ColdTier W)) (w' : W)
      → r ≡ ok (connected b (capacity_of o) w')
      → or_local b r rest ≡ ok (minio (connected b (capacity_of o) w'))
  unfolding or_local
  or_local-connected r rest w' e = ap (λ x. or_local b x rest) e

  or_local-disconnected :
      (r : Result (MinioColdBackend W)) (rest : Result (ColdTier W))
      → (r ≡ ok (disconnected b (capacity_of o) w)) ⊎ (r ≡ raise import_error)
      → or_local b r rest ≡ rest
  unfolding or_local
  or_local-disconnected r rest (inl e) = ap (λ x. or_local b x rest) e
  or_local-disconnected r rest (inr e) = ap (λ x. or_local b x rest) e

  -- Where the directory can be made, `create` gives a tier: MinIO exactly where it was asked for, boto3 is
  -- there, the client can be made, and the bucket is there or `head_bucket` answers 404 and it can be
  -- made; else the local backend with the files of the directory.
  pub create-Chosen :
      fs.makedirs (path_of o) ≡ ok files
      → (t : ColdTier W) × (create b fs backend o w ≡ ok t) × Chosen t
  create-Chosen is_dir = elim (Bool-cases (str_eq backend "minio")) [
    | inr other ↦ (
      local opened,
      create_asked false other ∙ open_local-ok is_dir,
      (refl, refl, λ e. ground (arith, eq_iff backend "minio", other, e)),
    )
    | inl asked ↦ elim (connect-Connects b o w) [
      | inl (w', e, h) ↦ (
        minio (connected b (capacity_of o) w'),
        create_asked true asked ∙ or_local-connected (connection b o w) otherwise w' e,
        ((eq_iff backend "minio").0 asked, (w', refl, h)),
      )
      | inr (e, none_reached) ↦ (
        local opened,
        create_asked true asked
            ∙ or_local-disconnected (connection b o w) otherwise e
            ∙ open_local-ok is_dir,
        (refl, refl, λ _. none_reached),
      )
    ]
  ]

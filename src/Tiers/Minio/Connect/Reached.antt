-- ===== src/Tiers/Minio/Connect/Reached.antt =====
-- tiers/cold_tier.py: when the constructor of the MinIO backend has a connection.
use kv_cache_tier_persistenc.Prelude.{
  ℕ, String, Bool, true, false, ◌≡◌, ◌≢◌, refl, sym, ap, ◌∙◌, str_eq, eq_iff, if◌then◌else◌, ◌⊎◌,
  inl, inr, arith, Bool-cases,
}
use kv_cache_tier_persistenc.Result.{Result, ok, raise, import_error, Result-cases}
use kv_cache_tier_persistenc.Tiers.Minio.{MinioColdBackend}
use kv_cache_tier_persistenc.Tiers.Minio.Connect.{
  BucketAnswer, found, other_exception, client_error, Boto, Options, or_default, bucket_of,
  capacity_of, connected, disconnected, with_bucket, connect,
}

-- The bucket of the name is there, or `head_bucket` answers 404 and it can be made; the last argument is
-- the state of the client then.
pub data Reaches {W : Type 0} (b : Boto W) (name : String) (w : W) : W → Type 0 where
  there : b.head_bucket w name ≡ found → Reaches b name w w
  made :
      (w' : W)
      → b.head_bucket w name ≡ client_error "404"
      → b.create_bucket w name ≡ ok w'
      → Reaches b name w w'

client_error-injective : {x y : String} → client_error x ≡ client_error y → x ≡ y
client_error-injective h = cc

module _ {W : Type 0} (b : Boto W) (o : Options) (w : W) where
  -- boto3 is there, the client can be made, and the bucket is reached.
  pub record IsReached (w' : W) : Type 0 where
    pub installed : b.installed ≡ true
    pub client :
        b.client_made
          (or_default o.endpoint "localhost:9000")
          (or_default o.access_key "minioadmin")
          (or_default o.secret_key "minioadmin")
        ≡ true
    pub reached : Reaches b (bucket_of o) w w'

  abbrev cap : ℕ
  cap = capacity_of o

  -- A bucket that is reached gives a connection, and only such a bucket.
  abbrev Bucketed : MinioColdBackend W → Type 0
  Bucketed t =
      ((w' : W) × (t ≡ connected b cap w') × Reaches b (bucket_of o) w w')
      ⊎ ((t ≡ disconnected b cap w) × ((w' : W) → Reaches b (bucket_of o) w w' → ⊥))

  not_404 : (code : String) → str_eq code "404" ≡ false → client_error code ≢ client_error "404"
  not_404 code other h = ground (arith, eq_iff code "404", other, client_error-injective h)

  unreached :
      (a : BucketAnswer)
      → b.head_bucket w (bucket_of o) ≡ a
      → a ≢ found
      → (a ≡ client_error "404" → (w' : W) → b.create_bucket w (bucket_of o) ≢ ok w')
      → (w' : W) → Reaches b (bucket_of o) w w'
      → ⊥
  unreached a e absent unmade w' (there h) = absent (sym e ∙ h)
  unreached a e absent unmade _ (made v h c) = unmade (sym e ∙ h) v c

  with_bucket-Bucketed :
      (a : BucketAnswer)
      → b.head_bucket w (bucket_of o) ≡ a
      → Bucketed (with_bucket b cap (bucket_of o) w a)
  unfolding with_bucket
  with_bucket-Bucketed found e = inl (w, refl, there e)
  with_bucket-Bucketed other_exception e =
      inr (refl, unreached other_exception e (λ h. cc) (λ h. absurd (cc)))
  with_bucket-Bucketed (client_error code) e = elim (Bool-cases (str_eq code "404")) [
    | inr other ↦
        rw other (
          inr
            (refl, unreached (client_error code) e (λ h. cc) (λ h. absurd (not_404 code other h))))
    | inl same ↦ elim (Result-cases (b.create_bucket w (bucket_of o))) [
      | inl (w', c) ↦
          rw (same, c)
            (inl (w', refl, made w' (e ∙ ap client_error ((eq_iff code "404").0 same)) c))
      | inr (err, c) ↦
          rw (same, c) (inr (refl, unreached (client_error code) e (λ h. cc) (λ h v d. cc)))
    ]
  ]

  abbrev endpoint_of : String
  endpoint_of = or_default o.endpoint "localhost:9000"

  abbrev access_of : String
  access_of = or_default o.access_key "minioadmin"

  abbrev secret_of : String
  secret_of = or_default o.secret_key "minioadmin"

  abbrev pub connection : Result (MinioColdBackend W)
  connection = connect b endpoint_of access_of secret_of (bucket_of o) cap w

  -- A constructor that connect-Connects has reached the bucket; one that does not, or raises, could not.
  abbrev Connects : Result (MinioColdBackend W) → Type 0
  Connects r =
      ((w' : W) × (r ≡ ok (connected b cap w')) × IsReached w')
      ⊎ (((r ≡ ok (disconnected b cap w)) ⊎ (r ≡ raise import_error))
          × ((w' : W) → IsReached w' → ⊥))

  connect_absent : b.installed ≡ false → connection ≡ raise import_error
  unfolding connect
  connect_absent h =
      ap
        (λ x.
          if x
          then (if b.client_made endpoint_of access_of secret_of
              then ok (with_bucket b cap (bucket_of o) w (b.head_bucket w (bucket_of o)))
              else ok (disconnected b cap w))
          else raise import_error)
        h

  connect_here :
      b.installed ≡ true
      → connection ≡ (
          if b.client_made endpoint_of access_of secret_of
          then ok (with_bucket b cap (bucket_of o) w (b.head_bucket w (bucket_of o)))
          else ok (disconnected b cap w))
  unfolding connect
  connect_here h =
      ap
        (λ x.
          if x
          then (if b.client_made endpoint_of access_of secret_of
              then ok (with_bucket b cap (bucket_of o) w (b.head_bucket w (bucket_of o)))
              else ok (disconnected b cap w))
          else raise import_error)
        h

  either :
      {A : Type 0} (c : Bool) (x y : A)
      → ((c ≡ true) × ((if c then x else y) ≡ x)) ⊎ ((c ≡ false) × ((if c then x else y) ≡ y))
  either true x y = inl (refl, refl)
  either false x y = inr (refl, refl)

  pub connect-Connects : Connects connection
  connect-Connects = elim (Bool-cases b.installed) [
    | inr absent ↦ inr (inr (connect_absent absent), λ w' h. ground (arith, absent, h.installed))
    | inl here ↦
        elim (either (b.client_made endpoint_of access_of secret_of)
          (ok (with_bucket b cap (bucket_of o) w (b.head_bucket w (bucket_of o))))
          (ok (disconnected b cap w))) [
            | inr (unmade, e) ↦
                inr (inl (connect_here here ∙ e), λ w' h. ground (arith, unmade, h.client))
            | inl (client, e) ↦ elim (with_bucket-Bucketed (b.head_bucket w (bucket_of o)) refl) [
              | inl (w', t, r) ↦ inl (
                w',
                connect_here here ∙ e ∙ ap ok t,
                record { installed = here; client = client; reached = r },
              )
              | inr (t, none_reached) ↦
                  inr (inl (connect_here here ∙ e ∙ ap ok t), λ w' h. none_reached w' h.reached)
            ]
          ]
  ]

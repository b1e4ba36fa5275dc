-- ===== src/Hardware.antt =====
-- utils/hardware.py: the geometry of a model, the accelerators and the storage that prices are
-- computed from.
use kv_cache_tier_persistenc.Prelude.{ℕ, ◌*◌, String, List, [], ◌∷◌}
use kv_cache_tier_persistenc.Dict.{Dict}
use kv_cache_tier_persistenc.Float.{Floats}

pub record ModelSpec (F : Type 0) : Type 0 where
  pub name : String
  pub params_b : F
  pub layers : ℕ
  pub q_heads : ℕ
  pub kv_heads : ℕ
  pub head_dim : ℕ

pub record GpuSpec (F : Type 0) : Type 0 where
  pub name : String
  pub peak_flops : F
  pub mfu : F

pub record StorageSpec (F : Type 0) : Type 0 where
  pub name : String
  pub latency_s : F
  pub bandwidth_bytes_s : F

-- 2 * 2 * 2 * 32 * 2
abbrev pub sim_geometry_bytes_per_token : ℕ
sim_geometry_bytes_per_token = 512

unfoldable pub kv_bytes_per_token : {F : Type 0} → ModelSpec F → ℕ → ℕ
kv_bytes_per_token m bytes_per_elem = 2 * m.layers * m.kv_heads * m.head_dim * bytes_per_elem

module _ {F : Type 0} (f : Floats F) where
  -- 2.0 * self.params_b * 1e9 * n
  unfoldable pub weight_flops : ModelSpec F → F → F
  weight_flops m n = f.mul (f.mul (f.mul (f.of_nat 2) m.params_b) (f.of_nat 1000000000)) n

  -- 4.0 * self.layers * self.q_heads * self.head_dim * n * n
  unfoldable pub attn_flops : ModelSpec F → F → F
  attn_flops m n =
      let heads = f.mul (f.mul (f.of_nat 4) (f.of_nat m.layers)) (f.of_nat m.q_heads) in
      f.mul (f.mul (f.mul heads (f.of_nat m.head_dim)) n) n

  unfoldable pub prefill_flops : ModelSpec F → ℕ → F
  unfolding weight_flops attn_flops
  prefill_flops m n_tokens =
      f.add (weight_flops m (f.of_nat n_tokens)) (attn_flops m (f.of_nat n_tokens))

  unfoldable pub effective_flops : GpuSpec F → F
  effective_flops g = f.mul g.peak_flops g.mfu

  unfoldable pub transfer_time_s : StorageSpec F → F → F
  transfer_time_s s size_bytes = f.add s.latency_s (f.div size_bytes s.bandwidth_bytes_s)

  unfoldable pub sim_capacity_equivalent_bytes : ModelSpec F → F → F
  unfolding kv_bytes_per_token
  sim_capacity_equivalent_bytes spec sim_capacity_bytes =
      f.mul sim_capacity_bytes
        (f.div (f.of_nat (kv_bytes_per_token spec 2)) (f.of_nat sim_geometry_bytes_per_token))

  abbrev pub tinyllama_1_1b : ModelSpec F
  tinyllama_1_1b = record {
    name = "TinyLlama-1.1B";
    params_b = f.literal 11 10;
    layers = 22;
    q_heads = 32;
    kv_heads = 4;
    head_dim = 64;
  }

  abbrev pub llama_2_7b : ModelSpec F
  llama_2_7b = record {
    name = "Llama-2-7B";
    params_b = f.of_nat 7;
    layers = 32;
    q_heads = 32;
    kv_heads = 32;
    head_dim = 128;
  }

  abbrev pub llama_2_70b : ModelSpec F
  llama_2_70b = record {
    name = "Llama-2-70B";
    params_b = f.of_nat 70;
    layers = 80;
    q_heads = 64;
    kv_heads = 8;
    head_dim = 128;
  }

  abbrev pub models : List (ModelSpec F)
  models = tinyllama_1_1b ∷ llama_2_7b ∷ llama_2_70b ∷ []

  abbrev pub models_by_key : Dict (ModelSpec F)
  models_by_key =
      ("tinyllama", tinyllama_1_1b) ∷ ("llama7b", llama_2_7b) ∷ ("llama70b", llama_2_70b) ∷ []

  abbrev pub a100 : GpuSpec F
  a100 = record {
    name = "A100 80GB";
    peak_flops = f.of_nat 312000000000000;
    mfu = f.literal 45 100;
  }

  abbrev pub t4 : GpuSpec F
  t4 = record { name = "Tesla T4"; peak_flops = f.of_nat 65000000000000; mfu = f.literal 30 100 }

  abbrev pub nvme : StorageSpec F
  nvme = record {
    name = "NVMe (warm)";
    latency_s = f.literal 10 1000;
    bandwidth_bytes_s = f.of_nat 2000000000;
  }

  abbrev pub object_store : StorageSpec F
  object_store = record {
    name = "S3/MinIO (cold)";
    latency_s = f.literal 100 1000;
    bandwidth_bytes_s = f.of_nat 500000000;
  }

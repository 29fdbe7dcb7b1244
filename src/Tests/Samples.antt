-- ===== src/Tests/Samples.antt =====
-- Data for the tests: a hasher, small pools and their memories.
use native.Mathlib.Omega.{arith}
use fence.Prelude.{ℕ, ◌+◌, ◌*◌, ◌%◌, ◌^◌, ◌<◌, List, [], ◌∷◌, true}
use fence.Backend.{Memory}
use fence.Layout.{PoolGeometry}
use fence.Checksum.{Hasher}
use fence.Engine.{PoolConfig, FenceRuntime}

abbrev pub mix : ℕ → List ℕ → ℕ
mix s [] = s
mix s (b ∷ bs) = mix ((s * 31 + b + 7) % 2 ^ 32) bs

pub mix_lt : (s : ℕ) → s % 2 ^ 32 < 2 ^ 32
mix_lt s = omega arith

abbrev pub sample_hasher : Hasher
sample_hasher = record {
  State = ℕ;
  new = 1;
  update = mix;
  finalize = λ s. s % 2 ^ 32;
  finalize_lt = mix_lt;
}

abbrev pub zeros : Memory
zeros = record { size = 64 + 3 * 72 + 2 * 64; cache = λ a. 0; media = λ a. 0 }

abbrev pub sample_config : PoolConfig
sample_config = record { capacity = 3; payload_size = 8; max_hosts = 2; host_id = 1; create = true }

abbrev pub sample_geometry : PoolGeometry
sample_geometry = record {
  capacity = 3;
  payload_size = 8;
  max_hosts = 2;
  record_size = 72;
  total_size = 64 + 3 * 72 + 2 * 64;
}

abbrev pub sample_runtime : FenceRuntime
sample_runtime = record { geometry = sample_geometry; host_id = 1 }

-- The geometry of a pool of the unit tests.
abbrev pub test_pool : ℕ → ℕ → ℕ → PoolGeometry
test_pool capacity payload_size max_hosts = record {
  capacity = capacity;
  payload_size = payload_size;
  max_hosts = max_hosts;
  record_size = 64 + payload_size;
  total_size = 64 + (64 + payload_size) * capacity + 64 * max_hosts;
}

-- A new temporary file, of the size of the pool.
abbrev pub test_file : PoolGeometry → Memory
test_file geometry = record { size = geometry.total_size; cache = λ a. 0; media = λ a. 0 }

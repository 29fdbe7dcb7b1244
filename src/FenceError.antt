-- ===== src/FenceError.antt =====
-- crates/fence-core/src/error.rs: the errors of the engine, with the context that they carry.
-- The texts behind `MmapFailed` and `Io` come from the operating system and are not modelled.
use fence.Prelude.{ℕ}

pub data FenceError : Type 0 where
  pool_full : ℕ → ℕ → FenceError
  payload_too_large : ℕ → ℕ → FenceError
  checksum_mismatch : ℕ → FenceError
  mmap_failed : FenceError
  invalid_magic : ℕ → ℕ → FenceError
  io : FenceError
  index_out_of_bounds : ℕ → ℕ → FenceError
  trim_beyond_committed : ℕ → ℕ → FenceError

pub data Result (A : Type 0) : Type 0 where
  ok : A → Result A
  err : FenceError → Result A

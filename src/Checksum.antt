-- ===== src/Checksum.antt =====
-- crates/fence-core/src/checksum.rs: the checksum of a record.
-- The hash itself is the third-party crate `crc32fast`, and so a parameter: a streaming hasher with a
-- 32-bit result.
use fence.Prelude.{ℕ, ◌^◌, ◌<◌, Bool, List, ◌==◌}
use fence.Prelude.Bytes.{to_le}

pub record Hasher : Type 1 where
  pub State : Type 0
  pub new : State
  pub update : State → List ℕ → State
  pub finalize : State → ℕ
  pub finalize_lt : (s : State) → finalize s < 2 ^ 32

module _ (h : Hasher) where
  unfoldable pub compute : ℕ → ℕ → List ℕ → ℕ
  compute term index payload =
      h.finalize (h.update (h.update (h.update h.new (to_le 8 term)) (to_le 8 index)) payload)

  unfoldable pub verify : ℕ → ℕ → List ℕ → ℕ → Bool
  verify term index payload expected = compute term index payload == expected

  pub compute_lt : (term index : ℕ) (payload : List ℕ) → compute term index payload < 2 ^ 32
  unfolding compute
  compute_lt term index payload = h.finalize_lt _

-- ===== src/Compaction.antt =====
-- crates/fence-runtime/src/compaction.rs: trimming the log.
pub mod Trim
use fence.Prelude.{ℕ, zero, suc, ◌+◌, ltb, ◌==◌, if◌then◌else◌, as_u32}
use fence.Backend.{load_u64, load_u8, store_u8, flush}
use fence.Program.{Prog, ret, perform, ◌>>=◌, ◌>>◌}
use fence.FenceError.{Result, ok, err, trim_beyond_committed}
use fence.Layout.{
  PoolGeometry, record_offset, cacheline, hdr_committed_tail, rec_state, state_committed,
  state_abandoned,
}

pub record TrimResult : Type 0 where
  pub trimmed_count : ℕ

module _ (g : PoolGeometry) where
  unfoldable pub trim_slot : ℕ → Prog ℕ
  trim_slot slot = do
    let r = record_offset g slot
    state ← perform (load_u8 (r + rec_state))
    if state == state_committed
        then (do
          perform (store_u8 (r + rec_state) state_abandoned)
          perform (flush r cacheline)
          ret 1)
        else ret 0

  -- `for slot in 0..up_to`: `n` slots are left.
  unfoldable pub trim_scan : ℕ → ℕ → ℕ → Prog ℕ
  trim_scan zero slot trimmed_count = ret trimmed_count
  trim_scan (suc n) slot trimmed_count =
      trim_slot slot >>= (λ k. trim_scan n (suc slot) (trimmed_count + k))

  unfoldable pub trim : ℕ → Prog (Result TrimResult)
  trim up_to = do
    committed_tail ← perform (load_u64 hdr_committed_tail)
    if ltb committed_tail up_to
        then ret (err (trim_beyond_committed up_to committed_tail))
        else (do n ← trim_scan (as_u32 up_to) 0 0; ret (ok (record { trimmed_count = n })))

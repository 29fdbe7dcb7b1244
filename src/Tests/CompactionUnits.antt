-- ===== src/Tests/CompactionUnits.antt =====
-- crates/fence-runtime/src/compaction.rs: its unit tests, run on the model.
use fence.Prelude.{
  ℕ, Bool, false, List, [], ◌∷◌, ◌==◌, ◌&&◌, if◌then◌else◌, length, ◌≡◌, refl, ◌+◌, ltb, as_u32,
}
use fence.Prelude.Bytes.{to_le, from_le, peek, poke}
use fence.Backend.{get_le, put_le, flush_range, flush_lines, clwb, store_u64, store_u8, write}
use fence.Program.{Prog, ret, perform, done, run, ◌>>=◌, ◌>>◌}
use fence.FenceError.{Result, err, trim_beyond_committed}
use fence.Layout
use fence.Layout.{
  PoolGeometry, record_offset, metrics_offset, magic, record_meta_size, hdr_magic, hdr_capacity,
  hdr_record_size, hdr_max_hosts, hdr_committed_tail, hdr_reserve_tail, hdr_epoch, rec_state,
  rec_term, rec_index, rec_data_len, rec_checksum, state_writing, state_committed, state_abandoned,
}
use fence.Checksum
use fence.Checksum.{Hasher, compute}
use fence.Compaction
use fence.Compaction.{TrimResult, trim}
use fence.Harness.{expect, assert_eq, assert_record_state}
use fence.Tests.Samples.{sample_hasher, test_pool, test_file}
use fence.Tests.EngineUnits.{assert, unwrap}

-- The header of a pool.
abbrev setup_pool : ℕ → ℕ → Prog PoolGeometry
setup_pool capacity payload_size = do
  geometry ← unwrap (Layout.new capacity payload_size 2)
  perform (store_u64 hdr_magic magic)
  perform (store_u64 hdr_capacity capacity)
  perform (store_u64 hdr_record_size geometry.record_size)
  perform (store_u64 hdr_max_hosts 2)
  perform (store_u64 hdr_committed_tail 0)
  perform (store_u64 hdr_reserve_tail 0)
  perform (store_u64 hdr_epoch 1)
  ret geometry

module _ (h : Hasher) where
  -- Write a valid committed record at the given slot.
  abbrev write_committed_record : PoolGeometry → ℕ → List ℕ → Prog (Unit {0})
  write_committed_record geometry slot payload = do
    let r = record_offset geometry slot
    let term : ℕ = 1
    let index = slot + 1
    perform (store_u64 (r + rec_term) term)
    perform (store_u64 (r + rec_index) index)
    perform (write (r + rec_data_len) (to_le 4 (as_u32 (length payload))))
    if ltb 0 (length payload) then perform (write (r + record_meta_size) payload) else ret tt
    perform (store_u64 (r + rec_checksum) (compute h term index payload))
    perform (store_u8 (r + rec_state) state_committed)

  abbrev trim_zero_is_noop : Prog (Unit {0})
  trim_zero_is_noop = do
    geometry ← setup_pool 8 64
    result ← trim geometry 0 >>= expect
    assert_eq result.trimmed_count 0

  abbrev trim_committed_records : Prog (Unit {0})
  trim_committed_records = do
    geometry ← setup_pool 8 64
    perform (store_u64 hdr_reserve_tail 4)
    perform (store_u64 hdr_committed_tail 4)
    write_committed_record geometry 0 (100 ∷ 97 ∷ 116 ∷ 97 ∷ [])
    write_committed_record geometry 1 (100 ∷ 97 ∷ 116 ∷ 97 ∷ [])
    write_committed_record geometry 2 (100 ∷ 97 ∷ 116 ∷ 97 ∷ [])
    write_committed_record geometry 3 (100 ∷ 97 ∷ 116 ∷ 97 ∷ [])
    result ← trim geometry 2 >>= expect
    assert_eq result.trimmed_count 2
    assert_record_state geometry 0 state_abandoned
    assert_record_state geometry 1 state_abandoned
    assert_record_state geometry 2 state_committed
    assert_record_state geometry 3 state_committed

  abbrev is_refused : Result TrimResult → Bool
  is_refused (err (trim_beyond_committed requested tail)) = requested == 5 && tail == 3
  is_refused r = false

  abbrev trim_beyond_committed_errors : Prog (Unit {0})
  trim_beyond_committed_errors = do
    geometry ← setup_pool 8 64
    perform (store_u64 hdr_committed_tail 3)
    result ← trim geometry 5
    assert (is_refused result)

  abbrev trim_skips_already_abandoned : Prog (Unit {0})
  trim_skips_already_abandoned = do
    geometry ← setup_pool 8 64
    perform (store_u64 hdr_reserve_tail 3)
    perform (store_u64 hdr_committed_tail 3)
    write_committed_record geometry 0 (97 ∷ [])
    perform (store_u8 (record_offset geometry 1 + rec_state) state_abandoned)
    write_committed_record geometry 2 (99 ∷ [])
    result ← trim geometry 3 >>= expect
    assert_eq result.trimmed_count 2

-- Each test runs to its end.
units_compaction :
    ((run (trim_zero_is_noop sample_hasher) (test_file (test_pool 8 64 2))).0 ≡ done tt)
    × ((run (trim_committed_records sample_hasher) (test_file (test_pool 8 64 2))).0 ≡ done tt)
    × ((run (trim_beyond_committed_errors sample_hasher) (test_file (test_pool 8 64 2))).0
        ≡ done tt)
    × ((run (trim_skips_already_abandoned sample_hasher) (test_file (test_pool 8 64 2))).0
        ≡ done tt)
unfolding run to_le from_le peek poke get_le put_le flush_range flush_lines clwb Layout.new
    Checksum.compute Checksum.verify trim Compaction.trim_scan Compaction.trim_slot
    assert_record_state
units_compaction = (refl, refl, refl, refl)

-- ===== src/Tests/RecoveryUnits.antt =====
-- crates/fence-runtime/src/recovery.rs: its unit tests, run on the model.
use fence.Prelude.{ℕ, List, [], ◌∷◌, if◌then◌else◌, length, ◌≡◌, refl, ◌+◌, ltb, as_u32}
use fence.Prelude.Bytes.{to_le, from_le, peek, poke}
use fence.Backend.{
  get_le, put_le, flush_range, flush_lines, clwb, store_u64, load_u8, store_u8, write,
}
use fence.Program.{Prog, ret, perform, done, run, ◌>>=◌, ◌>>◌}
use fence.Layout
use fence.Layout.{
  PoolGeometry, record_offset, metrics_offset, magic, record_meta_size, hdr_magic, hdr_capacity,
  hdr_record_size, hdr_max_hosts, hdr_committed_tail, hdr_reserve_tail, hdr_epoch, rec_state,
  rec_term, rec_index, rec_data_len, rec_checksum, state_writing, state_committed, state_abandoned,
}
use fence.Checksum
use fence.Checksum.{Hasher, compute}
use fence.Recovery
use fence.Recovery.{RecoveryReport, recover}
use fence.Harness.{assert_eq}
use fence.Tests.Samples.{sample_hasher, test_pool, test_file}
use fence.Tests.EngineUnits.{unwrap}

-- The header of a pool.
abbrev setup_pool : ℕ → ℕ → ℕ → Prog PoolGeometry
setup_pool capacity payload_size max_hosts = do
  geometry ← unwrap (Layout.new capacity payload_size max_hosts)
  perform (store_u64 hdr_magic magic)
  perform (store_u64 hdr_capacity capacity)
  perform (store_u64 hdr_record_size geometry.record_size)
  perform (store_u64 hdr_max_hosts max_hosts)
  perform (store_u64 hdr_committed_tail 0)
  perform (store_u64 hdr_reserve_tail 0)
  perform (store_u64 hdr_epoch 1)
  ret geometry

module _ (h : Hasher) where
  -- Write a valid committed record at the given slot.
  abbrev write_committed_record : PoolGeometry → ℕ → ℕ → List ℕ → Prog (Unit {0})
  write_committed_record geometry slot term payload = do
    let r = record_offset geometry slot
    let index = slot + 1
    perform (store_u64 (r + rec_term) term)
    perform (store_u64 (r + rec_index) index)
    perform (write (r + rec_data_len) (to_le 4 (as_u32 (length payload))))
    if ltb 0 (length payload) then perform (write (r + record_meta_size) payload) else ret tt
    perform (store_u64 (r + rec_checksum) (compute h term index payload))
    perform (store_u8 (r + rec_state) state_committed)

  abbrev empty_pool_recovery_is_noop : Prog (Unit {0})
  empty_pool_recovery_is_noop = do
    geometry ← setup_pool 16 64 2
    report ← recover h geometry
    assert_eq report.abandoned_count 0
    assert_eq report.committed_tail 0
    assert_eq report.slots_scanned 0

  abbrev writing_state_becomes_abandoned : Prog (Unit {0})
  writing_state_becomes_abandoned = do
    geometry ← setup_pool 16 64 2
    perform (store_u64 hdr_reserve_tail 2)
    perform (store_u8 (record_offset geometry 0 + rec_state) state_writing)
    report ← recover h geometry
    assert_eq report.abandoned_count 1
    assert_eq report.slots_scanned 2
    state ← perform (load_u8 (record_offset geometry 0 + rec_state))
    assert_eq state state_abandoned

  abbrev committed_tail_advances_through_committed_slots : Prog (Unit {0})
  committed_tail_advances_through_committed_slots = do
    geometry ← setup_pool 16 64 2
    perform (store_u64 hdr_reserve_tail 3)
    write_committed_record geometry 0 1 (115 ∷ 108 ∷ 111 ∷ 116 ∷ 48 ∷ [])
    write_committed_record geometry 1 1 (115 ∷ 108 ∷ 111 ∷ 116 ∷ 49 ∷ [])
    write_committed_record geometry 2 1 (115 ∷ 108 ∷ 111 ∷ 116 ∷ 50 ∷ [])
    report ← recover h geometry
    assert_eq report.abandoned_count 0
    assert_eq report.committed_tail 3

  abbrev committed_tail_stops_at_abandoned : Prog (Unit {0})
  committed_tail_stops_at_abandoned = do
    geometry ← setup_pool 16 64 2
    perform (store_u64 hdr_reserve_tail 4)
    write_committed_record geometry 0 1 (111 ∷ 107 ∷ [])
    perform (store_u8 (record_offset geometry 1 + rec_state) state_writing)
    write_committed_record geometry 2 1 (111 ∷ 107 ∷ 50 ∷ [])
    write_committed_record geometry 3 1 (111 ∷ 107 ∷ 51 ∷ [])
    report ← recover h geometry
    assert_eq report.abandoned_count 1
    assert_eq report.committed_tail 1

  abbrev corrupted_checksum_becomes_abandoned : Prog (Unit {0})
  corrupted_checksum_becomes_abandoned = do
    geometry ← setup_pool 16 64 2
    perform (store_u64 hdr_reserve_tail 1)
    write_committed_record geometry 0 1 (100 ∷ 97 ∷ 116 ∷ 97 ∷ [])
    perform (store_u64 (record_offset geometry 0 + rec_checksum) 0xBADBADBAD)
    report ← recover h geometry
    assert_eq report.abandoned_count 1
    assert_eq report.committed_tail 0

  abbrev recovery_is_idempotent : Prog (Unit {0})
  recovery_is_idempotent = do
    geometry ← setup_pool 16 64 2
    perform (store_u64 hdr_reserve_tail 3)
    write_committed_record geometry 0 1 (97 ∷ [])
    perform (store_u8 (record_offset geometry 1 + rec_state) state_writing)
    write_committed_record geometry 2 1 (99 ∷ [])
    report₁ ← recover h geometry
    report₂ ← recover h geometry
    assert_eq report₁.committed_tail report₂.committed_tail
    assert_eq report₂.abandoned_count 0

  abbrev unknown_state_becomes_abandoned : Prog (Unit {0})
  unknown_state_becomes_abandoned = do
    geometry ← setup_pool 16 64 2
    perform (store_u64 hdr_reserve_tail 1)
    perform (store_u8 (record_offset geometry 0 + rec_state) 0xFF)
    report ← recover h geometry
    assert_eq report.abandoned_count 1

-- Each test runs to its end.
units_recovery :
    ((run (empty_pool_recovery_is_noop sample_hasher) (test_file (test_pool 16 64 2))).0 ≡ done tt)
    × ((run (writing_state_becomes_abandoned sample_hasher) (test_file (test_pool 16 64 2))).0
        ≡ done tt)
    × ((run
          (committed_tail_advances_through_committed_slots sample_hasher)
          (test_file (test_pool 16 64 2))).0
        ≡ done tt)
    × ((run (committed_tail_stops_at_abandoned sample_hasher) (test_file (test_pool 16 64 2))).0
        ≡ done tt)
    × ((run (corrupted_checksum_becomes_abandoned sample_hasher) (test_file (test_pool 16 64 2))).0
        ≡ done tt)
    × ((run (recovery_is_idempotent sample_hasher) (test_file (test_pool 16 64 2))).0 ≡ done tt)
    × ((run (unknown_state_becomes_abandoned sample_hasher) (test_file (test_pool 16 64 2))).0
        ≡ done tt)
unfolding run to_le from_le peek poke get_le put_le flush_range flush_lines clwb Layout.new
    Checksum.compute Checksum.verify recover Recovery.recover_scan Recovery.recover_slot
    Recovery.check_record Recovery.abandon Recovery.advance_committed_tail Recovery.scan_committed
    Recovery.advance_loop
units_recovery = (refl, refl, refl, refl, refl, refl, refl)

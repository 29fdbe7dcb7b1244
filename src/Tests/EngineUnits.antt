-- ===== src/Tests/EngineUnits.antt =====
-- crates/fence-runtime/src/engine.rs: its unit tests, run on the model. A failed assertion and an `unwrap`
-- of an error panic. Each check says that its test runs to the end.
use fence.Prelude.{
  ℕ, Bool, true, false, List, [], ◌∷◌, Option, none, some, ◌==◌, ◌&&◌, not, if◌then◌else◌, length,
  replicate, get_elem?, ◌≡◌, refl, same_string,
}
use fence.Prelude.Bytes.{to_le, from_le, peek, poke}
use fence.Backend.{get_le, put_le, flush_range, flush_lines, clwb, load_u64}
use fence.Program.{Prog, ret, panic, perform, done, run, ◌>>=◌, ◌>>◌}
use fence.FenceError.{
  Result, ok, err, pool_full, payload_too_large, index_out_of_bounds, invalid_magic,
  trim_beyond_committed,
}
use fence.Layout
use fence.Layout.{hdr_magic, magic}
use fence.Checksum
use fence.Checksum.{Hasher}
use fence.Metrics
use fence.Metrics.{PoolStats}
use fence.Compaction
use fence.Compaction.{TrimResult}
use fence.Recovery
use fence.Recovery.{RecoveryReport}
use fence.Engine
use fence.Engine.{
  PoolConfig, FenceRuntime, Record, open_pool, append, read_index, read_range, trim, recover, stats,
  committed_tail,
}
use fence.Harness.{expect, assert_eq}
use fence.Tests.Samples.{sample_hasher, test_pool, test_file}

abbrev pub assert : Bool → Prog (Unit {0})
assert b = if b then ret tt else panic

abbrev pub unwrap : {A : Type 0} → Option A → Prog A
unwrap none = panic
unwrap (some a) = ret a

abbrev is_pool_full : {A : Type 0} → Result A → Bool
is_pool_full (err (pool_full capacity slot)) = capacity == 2
is_pool_full r = false

abbrev is_too_large : {A : Type 0} → Result A → Bool
is_too_large (err (payload_too_large max got)) = max == 32 && got == 64
is_too_large r = false

abbrev is_out_of_bounds : {A : Type 0} → Result A → Bool
is_out_of_bounds (err (index_out_of_bounds index tail)) = true
is_out_of_bounds r = false

abbrev is_beyond : {A : Type 0} → Result A → Bool
is_beyond (err (trim_beyond_committed up_to tail)) = true
is_beyond r = false

abbrev is_invalid_magic : {A : Type 0} → Result A → Bool
is_invalid_magic (err (invalid_magic expected actual)) = true
is_invalid_magic r = false

abbrev is_none : Option Record → Bool
is_none none = true
is_none (some r) = false

abbrev config : ℕ → ℕ → ℕ → Bool → PoolConfig
config capacity payload_size host_id create = record {
  capacity = capacity;
  payload_size = payload_size;
  max_hosts = 4;
  host_id = host_id;
  create = create;
}

abbrev create_runtime : ℕ → ℕ → Prog FenceRuntime
create_runtime capacity payload_size =
    open_pool (config capacity payload_size 0 true) (ok tt) >>= expect

module _ (h : Hasher) where
  -- `append(...).unwrap()`, and `read(...).unwrap()` and its `unwrap()`.
  abbrev appends : FenceRuntime → ℕ → List ℕ → Prog ℕ
  appends runtime term payload = append h runtime term payload >>= expect

  abbrev reads : FenceRuntime → ℕ → Prog (Option Record)
  reads runtime index = read_index h runtime index >>= expect

  abbrev reads_some : FenceRuntime → ℕ → Prog Record
  reads_some runtime index = reads runtime index >>= unwrap

  abbrev create_pool_sets_magic : Prog (Unit {0})
  create_pool_sets_magic = do
    runtime ← create_runtime 16 64
    found ← perform (load_u64 hdr_magic)
    assert_eq found magic

  abbrev append_single_record_roundtrip : Prog (Unit {0})
  append_single_record_roundtrip = do
    runtime ← create_runtime 16 128
    index ←
        appends runtime 1
          (104 ∷ 101 ∷ 108 ∷ 108 ∷ 111 ∷ 44 ∷ 32 ∷ 102 ∷ 101 ∷ 110 ∷ 99 ∷ 101 ∷ 33 ∷ [])
    assert_eq index 1
    entry ← reads_some runtime 1
    assert_eq entry.index 1
    assert_eq entry.term 1
    assert_eq entry.writer_id 0
    assert (
        same_string entry.bytes
          (104 ∷ 101 ∷ 108 ∷ 108 ∷ 111 ∷ 44 ∷ 32 ∷ 102 ∷ 101 ∷ 110 ∷ 99 ∷ 101 ∷ 33 ∷ []))

  abbrev append_multiple_records : Prog (Unit {0})
  append_multiple_records = do
    runtime ← create_runtime 16 64
    idx1 ← appends runtime 1 (102 ∷ 105 ∷ 114 ∷ 115 ∷ 116 ∷ [])
    idx2 ← appends runtime 1 (115 ∷ 101 ∷ 99 ∷ 111 ∷ 110 ∷ 100 ∷ [])
    idx3 ← appends runtime 2 (116 ∷ 104 ∷ 105 ∷ 114 ∷ 100 ∷ [])
    assert_eq idx1 1
    assert_eq idx2 2
    assert_eq idx3 3
    r1 ← reads_some runtime 1
    r2 ← reads_some runtime 2
    r3 ← reads_some runtime 3
    assert (same_string r1.bytes (102 ∷ 105 ∷ 114 ∷ 115 ∷ 116 ∷ []))
    assert (same_string r2.bytes (115 ∷ 101 ∷ 99 ∷ 111 ∷ 110 ∷ 100 ∷ []))
    assert (same_string r3.bytes (116 ∷ 104 ∷ 105 ∷ 114 ∷ 100 ∷ []))
    assert_eq r3.term 2

  abbrev append_pool_full : Prog (Unit {0})
  append_pool_full = do
    runtime ← create_runtime 2 64
    appends runtime 1 (111 ∷ 110 ∷ 101 ∷ [])
    appends runtime 1 (116 ∷ 119 ∷ 111 ∷ [])
    result ← append h runtime 1 (116 ∷ 104 ∷ 114 ∷ 101 ∷ 101 ∷ [])
    assert (is_pool_full result)

  abbrev append_payload_too_large : Prog (Unit {0})
  append_payload_too_large = do
    runtime ← create_runtime 16 32
    result ← append h runtime 1 (replicate 64 0)
    assert (is_too_large result)

  abbrev read_out_of_bounds : Prog (Unit {0})
  read_out_of_bounds = do
    runtime ← create_runtime 16 64
    appends runtime 1 (100 ∷ 97 ∷ 116 ∷ 97 ∷ [])
    result ← read_index h runtime 5
    assert (is_out_of_bounds result)

  abbrev read_index_zero_errors : Prog (Unit {0})
  read_index_zero_errors = do
    runtime ← create_runtime 16 64
    result ← read_index h runtime 0
    assert (is_out_of_bounds result)

  abbrev committed_tail_advances : Prog (Unit {0})
  committed_tail_advances = do
    runtime ← create_runtime 16 64
    tail₀ ← committed_tail
    assert_eq tail₀ 0
    appends runtime 1 (97 ∷ [])
    tail₁ ← committed_tail
    assert_eq tail₁ 1
    appends runtime 1 (98 ∷ [])
    tail₂ ← committed_tail
    assert_eq tail₂ 2

  abbrev read_range_works : Prog (Unit {0})
  read_range_works = do
    runtime ← create_runtime 16 64
    appends runtime 1 (111 ∷ 110 ∷ 101 ∷ [])
    appends runtime 1 (116 ∷ 119 ∷ 111 ∷ [])
    appends runtime 1 (116 ∷ 104 ∷ 114 ∷ 101 ∷ 101 ∷ [])
    records ← read_range h runtime 1 4 >>= expect
    assert_eq (length records) 3
    r₀ ← unwrap (get_elem? records 0)
    r₁ ← unwrap (get_elem? records 1)
    r₂ ← unwrap (get_elem? records 2)
    assert (same_string r₀.bytes (111 ∷ 110 ∷ 101 ∷ []))
    assert (same_string r₁.bytes (116 ∷ 119 ∷ 111 ∷ []))
    assert (same_string r₂.bytes (116 ∷ 104 ∷ 114 ∷ 101 ∷ 101 ∷ []))

  abbrev trim_marks_records_abandoned : Prog (Unit {0})
  trim_marks_records_abandoned = do
    runtime ← create_runtime 16 64
    appends runtime 1 (97 ∷ [])
    appends runtime 1 (98 ∷ [])
    appends runtime 1 (99 ∷ [])
    result ← trim h runtime 2 >>= expect
    assert_eq result.trimmed_count 2
    r₁ ← reads runtime 1
    assert (is_none r₁)
    r₂ ← reads runtime 2
    assert (is_none r₂)
    r₃ ← reads runtime 3
    assert (not (is_none r₃))

  abbrev trim_beyond_committed_fails : Prog (Unit {0})
  trim_beyond_committed_fails = do
    runtime ← create_runtime 16 64
    appends runtime 1 (97 ∷ [])
    result ← trim h runtime 5
    assert (is_beyond result)

  abbrev recover_on_clean_pool : Prog (Unit {0})
  recover_on_clean_pool = do
    runtime ← create_runtime 16 64
    appends runtime 1 (97 ∷ [])
    appends runtime 1 (98 ∷ [])
    report ← recover h runtime
    assert_eq report.abandoned_count 0
    assert_eq report.committed_tail 2

  abbrev stats_after_operations : Prog (Unit {0})
  stats_after_operations = do
    runtime ← create_runtime 16 64
    appends runtime 1 (104 ∷ 101 ∷ 108 ∷ 108 ∷ 111 ∷ [])
    appends runtime 1 (119 ∷ 111 ∷ 114 ∷ 108 ∷ 100 ∷ [])
    reads runtime 1
    counts ← stats h runtime
    assert_eq counts.appends_total 2
    assert_eq counts.bytes_written 10
    assert_eq counts.reads_total 1

  abbrev open_existing_pool : Prog (Unit {0})
  open_existing_pool = do
    first ← create_runtime 16 64
    appends first 1 (112 ∷ 101 ∷ 114 ∷ 115 ∷ 105 ∷ 115 ∷ 116 ∷ 101 ∷ 110 ∷ 116 ∷ [])
    runtime ← open_pool (config 16 64 1 false) (ok tt) >>= expect
    entry ← reads_some runtime 1
    assert
        (same_string entry.bytes (112 ∷ 101 ∷ 114 ∷ 115 ∷ 105 ∷ 115 ∷ 116 ∷ 101 ∷ 110 ∷ 116 ∷ []))
    assert_eq runtime.host_id 1

  abbrev open_invalid_magic_errors : Prog (Unit {0})
  open_invalid_magic_errors = do
    result ← open_pool (config 16 64 0 false) (ok tt)
    assert (is_invalid_magic result)

  abbrev empty_payload_roundtrip : Prog (Unit {0})
  empty_payload_roundtrip = do
    runtime ← create_runtime 16 64
    idx ← appends runtime 1 []
    entry ← reads_some runtime idx
    assert (same_string entry.bytes [])

  abbrev geometry_accessible : Prog (Unit {0})
  geometry_accessible = do
    runtime ← create_runtime 32 128
    assert_eq runtime.geometry.capacity 32
    assert_eq runtime.geometry.payload_size 128
    assert_eq runtime.geometry.max_hosts 4

-- Each test runs to its end.
units_engine :
    ((run (create_pool_sets_magic sample_hasher) (test_file (test_pool 16 64 4))).0 ≡ done tt)
    × ((run (append_single_record_roundtrip sample_hasher) (test_file (test_pool 16 128 4))).0
        ≡ done tt)
    × ((run (append_multiple_records sample_hasher) (test_file (test_pool 16 64 4))).0 ≡ done tt)
    × ((run (append_pool_full sample_hasher) (test_file (test_pool 2 64 4))).0 ≡ done tt)
    × ((run (append_payload_too_large sample_hasher) (test_file (test_pool 16 32 4))).0 ≡ done tt)
    × ((run (read_out_of_bounds sample_hasher) (test_file (test_pool 16 64 4))).0 ≡ done tt)
    × ((run (read_index_zero_errors sample_hasher) (test_file (test_pool 16 64 4))).0 ≡ done tt)
    × ((run (committed_tail_advances sample_hasher) (test_file (test_pool 16 64 4))).0 ≡ done tt)
    × ((run (read_range_works sample_hasher) (test_file (test_pool 16 64 4))).0 ≡ done tt)
    × ((run (trim_marks_records_abandoned sample_hasher) (test_file (test_pool 16 64 4))).0
        ≡ done tt)
    × ((run (trim_beyond_committed_fails sample_hasher) (test_file (test_pool 16 64 4))).0
        ≡ done tt)
    × ((run (recover_on_clean_pool sample_hasher) (test_file (test_pool 16 64 4))).0 ≡ done tt)
    × ((run (stats_after_operations sample_hasher) (test_file (test_pool 16 64 4))).0 ≡ done tt)
    × ((run (open_existing_pool sample_hasher) (test_file (test_pool 16 64 4))).0 ≡ done tt)
    × ((run (open_invalid_magic_errors sample_hasher) (test_file (test_pool 16 64 4))).0 ≡ done tt)
    × ((run (empty_payload_roundtrip sample_hasher) (test_file (test_pool 16 64 4))).0 ≡ done tt)
    × ((run (geometry_accessible sample_hasher) (test_file (test_pool 32 128 4))).0 ≡ done tt)
unfolding run open_pool Engine.write_header append Engine.append_at Engine.append_full
    Engine.write_record Engine.commit_record read_index Engine.read_committed read_range
    Engine.read_range_from trim recover stats committed_tail Recovery.recover Recovery.recover_scan
    Recovery.recover_slot Recovery.check_record Recovery.advance_committed_tail
    Recovery.scan_committed Recovery.advance_loop Compaction.trim Compaction.trim_scan
    Compaction.trim_slot to_le from_le peek poke get_le put_le flush_range flush_lines clwb
    Layout.new Checksum.compute Checksum.verify Metrics.increment_appends
    Metrics.increment_appends_failed Metrics.increment_bytes_written Metrics.increment_reads
    Metrics.increment_recovery_runs Metrics.read_stats Metrics.read_stats_from Metrics.add_block
units_engine = (
  refl, refl, refl, refl, refl, refl, refl, refl, refl, refl, refl, refl, refl, refl, refl, refl,
  refl,
)

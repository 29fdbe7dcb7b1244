-- ===== src/Tests/MetricsUnits.antt =====
-- crates/fence-runtime/src/metrics.rs: its unit tests, run on the model.
use fence.Prelude.{Bool, ◌==◌, ◌&&◌, ◌≡◌, refl, ◌+◌}
use fence.Prelude.Bytes.{to_le, from_le, peek, poke}
use fence.Backend.{get_le, put_le, flush_range, flush_lines, clwb, load_u64}
use fence.Program.{Prog, perform, done, run, ◌>>=◌, ◌>>◌}
use fence.Layout
use fence.Layout.{
  PoolGeometry, record_offset, metrics_offset, magic, record_meta_size, hdr_magic, hdr_capacity,
  hdr_record_size, hdr_max_hosts, hdr_committed_tail, hdr_reserve_tail, hdr_epoch, rec_state,
  rec_term, rec_index, rec_data_len, rec_checksum, state_writing, state_committed, state_abandoned,
}
use fence.Checksum
use fence.Checksum.{Hasher, compute}
use fence.Metrics
use fence.Metrics.{
  PoolStats, read_stats, increment_appends, increment_appends_failed, increment_bytes_written,
  increment_reads, increment_checksum_failures, increment_recovery_runs, increment_abandoned_found,
  metrics_appends_total,
}
use fence.Harness.{assert_eq}
use fence.Tests.Samples.{test_pool, test_file}
use fence.Tests.EngineUnits.{assert, unwrap}

abbrev setup : Prog PoolGeometry
setup = unwrap (Layout.new 16 64 4)

abbrev is_default : PoolStats → Bool
is_default s =
    s.appends_total == 0
    && (s.appends_failed == 0
        && (s.bytes_written == 0
            && (s.reads_total == 0
                && (s.checksum_failures == 0 && (s.recovery_runs == 0 && s.abandoned_found == 0)))))

abbrev initial_stats_are_zero : Prog (Unit {0})
initial_stats_are_zero = do geometry ← setup; stats ← read_stats geometry; assert (is_default stats)

abbrev increment_appends_counted : Prog (Unit {0})
increment_appends_counted = do
  geometry ← setup
  increment_appends geometry 0
  increment_appends geometry 0
  increment_appends geometry 1
  stats ← read_stats geometry
  assert_eq stats.appends_total 3

abbrev increment_bytes_written_accumulated : Prog (Unit {0})
increment_bytes_written_accumulated = do
  geometry ← setup
  increment_bytes_written geometry 0 100
  increment_bytes_written geometry 2 200
  stats ← read_stats geometry
  assert_eq stats.bytes_written 300

abbrev all_counters_independent : Prog (Unit {0})
all_counters_independent = do
  geometry ← setup
  increment_appends geometry 0
  increment_appends_failed geometry 0
  increment_bytes_written geometry 0 50
  increment_reads geometry 0
  increment_checksum_failures geometry 0
  increment_recovery_runs geometry 0
  increment_abandoned_found geometry 0 3
  stats ← read_stats geometry
  assert_eq stats.appends_total 1
  assert_eq stats.appends_failed 1
  assert_eq stats.bytes_written 50
  assert_eq stats.reads_total 1
  assert_eq stats.checksum_failures 1
  assert_eq stats.recovery_runs 1
  assert_eq stats.abandoned_found 3

abbrev metrics_per_host_isolation : Prog (Unit {0})
metrics_per_host_isolation = do
  geometry ← setup
  increment_appends geometry 0
  increment_appends geometry 0
  increment_appends geometry 3
  host0_appends ← perform (load_u64 (metrics_offset geometry 0 + metrics_appends_total))
  assert_eq host0_appends 2
  host3_appends ← perform (load_u64 (metrics_offset geometry 3 + metrics_appends_total))
  assert_eq host3_appends 1

-- Each test runs to its end.
units_metrics :
    ((run initial_stats_are_zero (test_file (test_pool 16 64 4))).0 ≡ done tt)
    × ((run increment_appends_counted (test_file (test_pool 16 64 4))).0 ≡ done tt)
    × ((run increment_bytes_written_accumulated (test_file (test_pool 16 64 4))).0 ≡ done tt)
    × ((run all_counters_independent (test_file (test_pool 16 64 4))).0 ≡ done tt)
    × ((run metrics_per_host_isolation (test_file (test_pool 16 64 4))).0 ≡ done tt)
unfolding run to_le from_le peek poke get_le put_le flush_range flush_lines clwb Layout.new
    Checksum.compute Checksum.verify increment_appends increment_appends_failed
    increment_bytes_written increment_reads increment_checksum_failures increment_recovery_runs
    increment_abandoned_found read_stats Metrics.read_stats_from Metrics.add_block
units_metrics = (refl, refl, refl, refl, refl)

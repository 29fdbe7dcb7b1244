-- ===== src/Metrics.antt =====
-- crates/fence-runtime/src/metrics.rs: the counters of each host, and their sums.
pub mod Counters
pub mod Sums
use fence.Prelude.{ℕ, zero, suc, ◌+◌, ltb, if◌then◌else◌}
use fence.Backend.{load_u64, fetch_add_u64, u64_mod}
use fence.Program.{Prog, ret, panic, call, perform, ◌>>=◌}
use fence.Layout.{PoolGeometry, metrics_offset}

pub record PoolStats : Type 0 where
  pub appends_total : ℕ
  pub appends_failed : ℕ
  pub bytes_written : ℕ
  pub reads_total : ℕ
  pub checksum_failures : ℕ
  pub recovery_runs : ℕ
  pub abandoned_found : ℕ

abbrev pub metrics_appends_total : ℕ
metrics_appends_total = 0

abbrev pub metrics_appends_failed : ℕ
metrics_appends_failed = 8

abbrev pub metrics_bytes_written : ℕ
metrics_bytes_written = 16

abbrev pub metrics_reads_total : ℕ
metrics_reads_total = 24

abbrev pub metrics_checksum_failures : ℕ
metrics_checksum_failures = 32

abbrev pub metrics_recovery_runs : ℕ
metrics_recovery_runs = 40

abbrev pub metrics_abandoned_found : ℕ
metrics_abandoned_found = 48

-- One counter of one host's block.
abbrev pub bump : PoolGeometry → ℕ → ℕ → ℕ → Prog (Unit {0})
bump g host_id field n = call (fetch_add_u64 (metrics_offset g host_id + field) n) (λ _. ret tt)

unfoldable pub increment_appends : PoolGeometry → ℕ → Prog (Unit {0})
increment_appends g host_id = bump g host_id metrics_appends_total 1

unfoldable pub increment_appends_failed : PoolGeometry → ℕ → Prog (Unit {0})
increment_appends_failed g host_id = bump g host_id metrics_appends_failed 1

unfoldable pub increment_bytes_written : PoolGeometry → ℕ → ℕ → Prog (Unit {0})
increment_bytes_written g host_id n = bump g host_id metrics_bytes_written n

unfoldable pub increment_reads : PoolGeometry → ℕ → Prog (Unit {0})
increment_reads g host_id = bump g host_id metrics_reads_total 1

unfoldable pub increment_checksum_failures : PoolGeometry → ℕ → Prog (Unit {0})
increment_checksum_failures g host_id = bump g host_id metrics_checksum_failures 1

unfoldable pub increment_recovery_runs : PoolGeometry → ℕ → Prog (Unit {0})
increment_recovery_runs g host_id = bump g host_id metrics_recovery_runs 1

unfoldable pub increment_abandoned_found : PoolGeometry → ℕ → ℕ → Prog (Unit {0})
increment_abandoned_found g host_id n = bump g host_id metrics_abandoned_found n

-- `+=` on a u64.
abbrev pub add_u64 : ℕ → ℕ → Prog ℕ
add_u64 a b = if ltb (a + b) u64_mod then ret (a + b) else panic

abbrev pub add_counter : ℕ → ℕ → Prog ℕ
add_counter total offset = do n ← perform (load_u64 offset); add_u64 total n

unfoldable pub add_block : ℕ → PoolStats → Prog PoolStats
add_block base s = do
  appends_total ← add_counter s.appends_total (base + metrics_appends_total)
  appends_failed ← add_counter s.appends_failed (base + metrics_appends_failed)
  bytes_written ← add_counter s.bytes_written (base + metrics_bytes_written)
  reads_total ← add_counter s.reads_total (base + metrics_reads_total)
  checksum_failures ← add_counter s.checksum_failures (base + metrics_checksum_failures)
  recovery_runs ← add_counter s.recovery_runs (base + metrics_recovery_runs)
  abandoned_found ← add_counter s.abandoned_found (base + metrics_abandoned_found)
  ret (record {
    appends_total = appends_total;
    appends_failed = appends_failed;
    bytes_written = bytes_written;
    reads_total = reads_total;
    checksum_failures = checksum_failures;
    recovery_runs = recovery_runs;
    abandoned_found = abandoned_found;
  })

abbrev pub no_stats : PoolStats
no_stats = record {
  appends_total = 0;
  appends_failed = 0;
  bytes_written = 0;
  reads_total = 0;
  checksum_failures = 0;
  recovery_runs = 0;
  abandoned_found = 0;
}

-- `for host_id in 0..max_hosts`: `n` hosts are left.
unfoldable pub read_stats_from : PoolGeometry → ℕ → ℕ → PoolStats → Prog PoolStats
read_stats_from g zero host_id s = ret s
read_stats_from g (suc n) host_id s =
    add_block (metrics_offset g host_id) s >>= read_stats_from g n (suc host_id)

unfoldable pub read_stats : PoolGeometry → Prog PoolStats
read_stats g = read_stats_from g g.max_hosts 0 no_stats

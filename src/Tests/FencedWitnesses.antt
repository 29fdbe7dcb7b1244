-- ===== src/Tests/FencedWitnesses.antt =====
-- The theorems on the command line tool, applied to a small configuration.
use fence.Prelude.{ℕ, ◌≤◌, ◌≡◌, arith, refl, List, [], ◌∷◌, Option, none, some}
use fence.Backend.{Memory, get_le, put_le}
use fence.Prelude.Bytes.{from_le, to_le, peek, poke}
use fence.Program.{Ensures, ◌>>◌}
use fence.FenceError
use fence.FenceError.{Result, invalid_magic}
use fence.Layout.{magic}
use fence.Config
use fence.Config.{
  FenceConfig, ConfigError, ConfigResult, from_file, from_str, validate, resolve_path,
  default_overflow, default_recovery, file_not_found, default_config_path,
}
use fence.Config.Pool.{geometry_of}
use fence.Metrics.Sums.{sums, total}
use fence.Recovery.{RecoveryReport}
use fence.Fenced
use fence.Fenced.{Exit, success, opening_error, config_error, pool_status, recovery_complete}
use fence.Fenced.Reports.{fenced, mapped_lem}
use fence.Fenced.Status.{init-status_lem}
use fence.Fenced.Recover.{Repaired, recover-command_lem, host_of}
use fence.Tests.Samples.{sample_hasher, zeros}

abbrev small_config : FenceConfig
small_config = record {
  pool = record { path = 112 ∷ []; capacity = 3; payload_size = 8; max_hosts = 2 };
  host = record { host_id = 1; name = none };
  overflow = default_overflow;
  recovery = default_recovery;
}

-- A file system with one text, a parser that makes the configuration of it, and a mapping that succeeds.
abbrev files : List ℕ → Option (List ℕ)
files path = some []

abbrev parser : List ℕ → ConfigResult FenceConfig
parser text = Config.ok small_config

abbrev mapping : List ℕ → Result (Unit {0})
mapping path = FenceError.ok tt

small_config_loads : from_file files parser (resolve_path none none) ≡ Config.ok small_config
unfolding from_file from_str validate
small_config_loads = refl

init-status_lem_example :
    Ensures
      (λ e n.
        (e
          ≡ success (
              pool_status (112 ∷ []) 0 0 (geometry_of small_config) (
                sums (geometry_of small_config) zeros (
                  mapped_lem sample_hasher files parser mapping none none small_config zeros
                    small_config_loads
                    (omega arith)
                    refl
                    (omega arith)))))
        × ((a : ℕ) → 56 ≤ a → n.cache a ≡ 0))
      (fenced sample_hasher files parser mapping none none (some Fenced.init)
        >> fenced sample_hasher files parser mapping none none (some Fenced.status))
      zeros
unfolding total get_le from_le peek
init-status_lem_example =
    init-status_lem sample_hasher files parser mapping none none small_config zeros
      small_config_loads (omega arith) refl (omega arith)
      (record {
        appends = omega arith;
        failed = omega arith;
        bytes = omega arith;
        reads = omega arith;
        failures = omega arith;
        runs = omega arith;
        abandoned = omega arith;
      })

-- The mapping of a pool: the magic number, and zeros.
abbrev titled : Memory
titled = record zeros { cache = put_le 8 zeros.cache 0 magic }

recover-command_lem_example :
    Ensures
      (λ e n.
        (report : RecoveryReport) × (e ≡ success (recovery_complete report))
        × Repaired sample_hasher
            (host_of sample_hasher files parser mapping none none small_config titled
              small_config_loads
              (omega arith)
              refl
              (omega arith))
            titled
            report
            n)
      (fenced sample_hasher files parser mapping none none (some Fenced.recover))
      titled
unfolding get_le from_le peek put_le to_le poke
recover-command_lem_example =
    recover-command_lem sample_hasher files parser mapping none none small_config titled
      small_config_loads (omega arith) refl (omega arith) refl (omega arith)

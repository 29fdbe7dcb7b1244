-- ===== src/Fenced/Reports.antt =====
-- crates/fenced/src/main.rs: what the commands print, and what they do to the pool.
use mathlib.Core.Path.{subst}
use fence.Prelude.{ℕ, ◌+◌, ◌^◌, ◌≤◌, ◌<◌, ◌≡◌, refl, ap, arith, true, List, Option, none, some}
use fence.Backend.{Memory, with_cache, flushed}
use fence.Program.{Prog, Runs, Runs-bind}
use fence.FenceError
use fence.FenceError.{FenceError, Result, invalid_magic}
use fence.Layout.{new}
use fence.Checksum.{Hasher}
use fence.Config
use fence.Config.{
  FenceConfig, ConfigError, ConfigResult, from_file, from_str, resolve_path, validate,
  file_not_found,
}
use fence.Config.Pool.{geometry_of, validate-IsRuntime}
use fence.Metrics.{PoolStats}
use fence.Metrics.Counters.{IsMapped}
use fence.Metrics.Sums.{total-congr, sums}
use fence.Engine.{open_pool}
use fence.Engine.Open.{headed, create-Runs, headed-above, opened}
use fence.Fenced
use fence.Fenced.{
  Cli, Commands, Report, Exit, success, pool_initialized, config_error, opening_error, pool_status,
  pool_config, main, cmd_validate, cmd_init, cmd_status, cmd_recover, opened_init, opened_status,
  opened_recover,
}

-- A configuration that was loaded has been validated.
checked-str :
    (v : ConfigResult (Unit {0})) (config c : FenceConfig)
    → validate config ≡ v
    → (elim v [ Config.err e ↦ Config.err e | Config.ok _ ↦ Config.ok config ]) ≡ Config.ok c
    → validate c ≡ Config.ok tt
checked-str (Config.err e) config c was same = absurd (ground (arith, same))
checked-str (Config.ok u) config c was same =
    let e : config ≡ c = cc (same) in subst (λ d. validate d ≡ Config.ok tt) e was

from_str-validated :
    (r : ConfigResult FenceConfig) (c : FenceConfig)
    → from_str r ≡ Config.ok c
    → validate c ≡ Config.ok tt
unfolding from_str
from_str-validated (Config.err e) c same = absurd (ground (arith, same))
from_str-validated (Config.ok config) c same = checked-str (validate config) config c refl same

loaded-validated :
    (content : Option (List ℕ)) (toml : List ℕ → ConfigResult FenceConfig) (path : List ℕ)
    (c : FenceConfig)
    → (elim content [ none ↦ Config.err (file_not_found path) | some text ↦ from_str (toml text) ])
      ≡ Config.ok c
    → validate c ≡ Config.ok tt
loaded-validated none toml path c same = absurd (ground (arith, same))
loaded-validated (some text) toml path c same = from_str-validated (toml text) c same

module _ (h : Hasher) (read_to_string : List ℕ → Option (List ℕ))
    (toml : List ℕ → ConfigResult FenceConfig) (mapped : List ℕ → Result (Unit {0}))
    (env_path : Option (List ℕ)) (config_path : Option (List ℕ)) where
  -- The tool with a command.
  abbrev pub fenced : Option Commands → Prog Exit
  fenced command =
      main h read_to_string toml mapped env_path
        (record { config = config_path; command = command })

  abbrev pub loading : ConfigResult FenceConfig
  loading = from_file read_to_string toml (resolve_path config_path env_path)

  module _ (c : FenceConfig) (m : Memory) (good : loading ≡ Config.ok c)
      (u32 : c.pool.capacity < 2 ^ 32) (there : mapped c.pool.path ≡ FenceError.ok tt)
      (large : (geometry_of c).total_size ≤ m.size) where
    pub valid : validate c ≡ Config.ok tt
    unfolding from_file
    valid = loaded-validated (read_to_string (resolve_path config_path env_path)) toml _ c good

    pub made : new c.pool.capacity c.pool.payload_size c.pool.max_hosts ≡ some (geometry_of c)
    made = (validate-IsRuntime c u32 valid).0

    pub mapped_lem : IsMapped (geometry_of c) m.size
    mapped_lem =
        let v = (validate-IsRuntime c u32 valid).1.mapped in
        record { geometry = v.geometry; aligned = v.aligned; within = large }

    -- What `status` prints of a memory.
    abbrev pub shown : Memory → ℕ → ℕ → PoolStats → Exit
    shown n committed reserve counts =
        success (pool_status c.pool.path committed reserve (geometry_of c) counts)

    -- The header that `init` writes.
    abbrev pub initialized : Memory
    initialized = flushed (with_cache m (headed (pool_config c true) (geometry_of c) m.cache)) 0 64

    pub init-Runs :
        Runs
          (fenced (some Fenced.init))
          m
          (success (pool_initialized c (geometry_of c)))
          initialized
    unfolding main cmd_init
    init-Runs =
        rw (good, there)
          (Runs-bind _ (opened_init c) (open_pool (pool_config c true) (FenceError.ok tt)) m
            (FenceError.ok (opened (pool_config c true) (geometry_of c) m made mapped_lem))
            initialized (create-Runs (pool_config c true) (geometry_of c) m made mapped_lem refl)
            (refl, refl))

    pub same-sums : sums (geometry_of c) initialized mapped_lem ≡ sums (geometry_of c) m mapped_lem
    same-sums =
        ap
          (λ (t : ℕ → ℕ → ℕ → ℕ). record {
            appends_total = 0 + t 0 c.pool.max_hosts 0;
            appends_failed = 0 + t 8 c.pool.max_hosts 0;
            bytes_written = 0 + t 16 c.pool.max_hosts 0;
            reads_total = 0 + t 24 c.pool.max_hosts 0;
            checksum_failures = 0 + t 32 c.pool.max_hosts 0;
            recovery_runs = 0 + t 40 c.pool.max_hosts 0;
            abandoned_found = 0 + t 48 c.pool.max_hosts 0;
          })
          (total-congr (geometry_of c) m.cache initialized.cache (λ a lo.
            headed-above (pool_config c true) (geometry_of c) m made mapped_lem m.cache a
              (omega arith)))

-- ===== src/Fenced.antt =====
-- crates/fenced/src/main.rs: the commands of the tool.
-- What the operating system and the packages do is a parameter: the files, the TOML package, and whether
-- the mapping of a pool's file succeeds. The memory that a command runs on is that mapping. What is
-- printed is the data that it shows.
pub mod Reports
pub mod Status
pub mod Recover
use fence.Prelude.{ℕ, Bool, true, false, List, Option, none, some}
use fence.Backend.{Memory}
use fence.Program.{Prog, ret, ◌>>=◌}
use fence.FenceError
use fence.FenceError.{FenceError, Result}
use fence.Layout.{PoolGeometry}
use fence.Checksum.{Hasher}
use fence.Config
use fence.Config.{FenceConfig, ConfigError, ConfigResult, from_file, resolve_path}
use fence.Metrics.{PoolStats}
use fence.Recovery.{RecoveryReport}
use fence.Engine
use fence.Engine.{PoolConfig, FenceRuntime, open_pool, committed_tail, reserve_tail, stats}

pub data Commands : Type 0 where
  init : Commands
  status : Commands
  recover : Commands
  validate : Commands

pub record Cli : Type 0 where
  pub config : Option (List ℕ)
  pub command : Option Commands

-- What a command prints where it succeeds.
pub data Report : Type 0 where
  configuration_valid : List ℕ → Report
  pool_initialized : FenceConfig → PoolGeometry → Report
  pool_status : List ℕ → ℕ → ℕ → PoolGeometry → PoolStats → Report
  recovery_complete : RecoveryReport → Report

-- How a command ends: the exit code 0, or 1 with the error printed.
pub data Exit : Type 0 where
  success : Report → Exit
  config_error : ConfigError → Exit
  initializing_error : FenceError → Exit
  opening_error : FenceError → Exit

abbrev pub pool_config : FenceConfig → Bool → PoolConfig
pool_config config create = record {
  capacity = config.pool.capacity;
  payload_size = config.pool.payload_size;
  max_hosts = config.pool.max_hosts;
  host_id = config.host.host_id;
  create = create;
}

-- The match on what `FenceRuntime::open` answered.
abbrev pub opened_init : FenceConfig → Result FenceRuntime → Prog Exit
opened_init config (FenceError.ok rt) = ret (success (pool_initialized config rt.geometry))
opened_init config (FenceError.err e) = ret (initializing_error e)

module _ (h : Hasher) where
  abbrev pub opened_status : FenceConfig → Result FenceRuntime → Prog Exit
  opened_status config (FenceError.ok rt) = do
    sums ← stats h rt
    committed ← committed_tail
    reserve ← reserve_tail
    ret (success (pool_status config.pool.path committed reserve rt.geometry sums))
  opened_status config (FenceError.err e) = ret (opening_error e)

  abbrev pub opened_recover : Result FenceRuntime → Prog Exit
  opened_recover (FenceError.ok rt) =
      Engine.recover h rt >>= (λ report. ret (success (recovery_complete report)))
  opened_recover (FenceError.err e) = ret (opening_error e)

  module _ (read_to_string : List ℕ → Option (List ℕ)) (toml : List ℕ → ConfigResult FenceConfig)
      (mapped : List ℕ → Result (Unit {0})) where
    -- `load_config`, and what the command does with the configuration.
    abbrev pub loaded : (FenceConfig → Prog Exit) → ConfigResult FenceConfig → Prog Exit
    loaded run (Config.err e) = ret (config_error e)
    loaded run (Config.ok config) = run config

    abbrev pub load_config : List ℕ → (FenceConfig → Prog Exit) → Prog Exit
    load_config config_path run = loaded run (from_file read_to_string toml config_path)

    unfoldable pub cmd_validate : List ℕ → Prog Exit
    cmd_validate config_path =
        load_config config_path (λ _. ret (success (configuration_valid config_path)))

    unfoldable pub cmd_init : List ℕ → Prog Exit
    cmd_init config_path = load_config config_path (λ config.
        open_pool (pool_config config true) (mapped config.pool.path) >>= opened_init config)

    unfoldable pub cmd_status : List ℕ → Prog Exit
    cmd_status config_path = load_config config_path (λ config.
        open_pool (pool_config config false) (mapped config.pool.path) >>= opened_status config)

    unfoldable pub cmd_recover : List ℕ → Prog Exit
    cmd_recover config_path = load_config config_path (λ config.
        open_pool (pool_config config false) (mapped config.pool.path) >>= opened_recover)

    abbrev pub dispatch : Option Commands → List ℕ → Prog Exit
    dispatch (some validate) config_path = cmd_validate config_path
    dispatch (some init) config_path = cmd_init config_path
    dispatch (some status) config_path = cmd_status config_path
    dispatch (some recover) config_path = cmd_recover config_path
    dispatch none config_path = cmd_status config_path

    -- `main`, given the value of FENCE_CONFIG.
    unfoldable pub main : Option (List ℕ) → Cli → Prog Exit
    main env_path cli = dispatch cli.command (resolve_path cli.config env_path)

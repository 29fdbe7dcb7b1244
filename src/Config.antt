-- ===== src/Config.antt =====
-- crates/fence-config/src/config.rs, defaults.rs: the configuration of a pool and its validation.
-- Strings and paths are lists of bytes. The text of an error is what it is made of. Parsing TOML is the
-- work of a package, and reading a file or the environment of the operating system: their results are
-- arguments.
pub mod Pool
use fence.Prelude.{
  ℕ, ◌%◌, ◌<◌, ◌||◌, not, Bool, true, List, [], ◌∷◌, Option, none, some, ltb, leb, ◌==◌,
  if◌then◌else◌, same_string,
}

-- "/etc/fence/conf.toml"
abbrev pub default_config_path : List ℕ
default_config_path =
    47 ∷ 101 ∷ 116 ∷ 99 ∷ 47 ∷ 102 ∷ 101 ∷ 110 ∷ 99 ∷ 101 ∷ 47 ∷ 99 ∷ 111 ∷ 110 ∷ 102 ∷ 46 ∷ 116
    ∷ 111 ∷ 109 ∷ 108 ∷ []

abbrev pub default_capacity : ℕ
default_capacity = 1000000

abbrev pub default_payload_size : ℕ
default_payload_size = 128

abbrev pub default_max_hosts : ℕ
default_max_hosts = 16

abbrev pub default_host_id : ℕ
default_host_id = 0

-- "error"
abbrev pub default_overflow_strategy : List ℕ
default_overflow_strategy = 101 ∷ 114 ∷ 114 ∷ 111 ∷ 114 ∷ []

abbrev pub default_auto_recover : Bool
default_auto_recover = true

abbrev pub default_recovery_timeout_ms : ℕ
default_recovery_timeout_ms = 5000

pub record PoolSection : Type 0 where
  pub path : List ℕ
  pub capacity : ℕ
  pub payload_size : ℕ
  pub max_hosts : ℕ

pub record HostSection : Type 0 where
  pub host_id : ℕ
  pub name : Option (List ℕ)

pub record OverflowSection : Type 0 where
  pub strategy : List ℕ
  pub max_segments : Option ℕ
  pub backpressure : Option (List ℕ)

pub record RecoverySection : Type 0 where
  pub auto_recover : Bool
  pub recovery_timeout_ms : ℕ

pub record FenceConfig : Type 0 where
  pub pool : PoolSection
  pub host : HostSection
  pub overflow : OverflowSection
  pub recovery : RecoverySection

abbrev pub default_host : HostSection
default_host = record { host_id = default_host_id; name = none }

abbrev pub default_overflow : OverflowSection
default_overflow = record {
  strategy = default_overflow_strategy;
  max_segments = none;
  backpressure = none;
}

abbrev pub default_recovery : RecoverySection
default_recovery = record {
  auto_recover = default_auto_recover;
  recovery_timeout_ms = default_recovery_timeout_ms;
}

-- The field and the detail of a `ValidationError`.
pub data Invalid : Type 0 where
  capacity_zero : Invalid
  payload_size_zero : Invalid
  payload_size_large : Invalid
  payload_size_unaligned : Invalid
  max_hosts_range : Invalid
  host_id_range : ℕ → Invalid
  strategy_unknown : Invalid

pub data ConfigError : Type 0 where
  file_not_found : List ℕ → ConfigError
  parse_error : List ℕ → ConfigError
  validation_error : Invalid → ConfigError

pub data ConfigResult (A : Type 0) : Type 0 where
  ok : A → ConfigResult A
  err : ConfigError → ConfigResult A

abbrev segmented : List ℕ
segmented = 115 ∷ 101 ∷ 103 ∷ 109 ∷ 101 ∷ 110 ∷ 116 ∷ 101 ∷ 100 ∷ []

abbrev circular : List ℕ
circular = 99 ∷ 105 ∷ 114 ∷ 99 ∷ 117 ∷ 108 ∷ 97 ∷ 114 ∷ []

abbrev pub is_strategy : List ℕ → Bool
is_strategy s =
    same_string default_overflow_strategy s || (same_string segmented s || same_string circular s)

abbrev invalid : Invalid → ConfigResult (Unit {0})
invalid i = err (validation_error i)

unfoldable pub validate : FenceConfig → ConfigResult (Unit {0})
validate c =
    if c.pool.capacity == 0
    then invalid capacity_zero
    else if c.pool.payload_size == 0
    then invalid payload_size_zero
    else if ltb 65536 c.pool.payload_size
    then invalid payload_size_large
    else if not (c.pool.payload_size % 8 == 0)
    then invalid payload_size_unaligned
    else if c.pool.max_hosts == 0 || ltb 256 c.pool.max_hosts
    then invalid max_hosts_range
    else if leb c.pool.max_hosts c.host.host_id
    then invalid (host_id_range c.pool.max_hosts)
    else if not (is_strategy c.overflow.strategy)
    then invalid strategy_unknown
    else ok tt

-- `from_str`, given what the TOML package made of the text.
unfoldable pub from_str : ConfigResult FenceConfig → ConfigResult FenceConfig
from_str (err e) = err e
from_str (ok config) = elim (validate config) [ err e ↦ err e | ok _ ↦ ok config ]

-- `from_file`, given what the operating system reads at a path and what the TOML package makes of a
-- text; an error of the package is a `ParseError` already.
unfoldable pub from_file :
    (List ℕ → Option (List ℕ))
    → (List ℕ → ConfigResult FenceConfig)
    → List ℕ
    → ConfigResult FenceConfig
from_file read_to_string toml path = elim (read_to_string path) [
  | none ↦ err (file_not_found path)
  | some content ↦ from_str (toml content)
]

-- `resolve_path`, given the path of the command line and the value of FENCE_CONFIG.
unfoldable pub resolve_path : Option (List ℕ) → Option (List ℕ) → List ℕ
resolve_path (some cli_path) env_path = cli_path
resolve_path none (some env_path) = env_path
resolve_path none none = default_config_path

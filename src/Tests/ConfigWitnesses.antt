-- ===== src/Tests/ConfigWitnesses.antt =====
-- The theorem on configurations, applied to the default one.
use native.Mathlib.Omega.{arith}
use fence.Prelude.{◌≡◌, refl, some, [], ◌∷◌}
use fence.Layout.{new}
use fence.Engine.Stored.{IsRuntime}
use fence.Config
use fence.Config.{
  FenceConfig, default_capacity, default_payload_size, default_max_hosts, default_host,
  default_overflow, default_recovery,
}
use fence.Config.Pool.{geometry_of, validate-IsRuntime}

-- The defaults, for a pool at "/a".
abbrev default_config : FenceConfig
default_config = record {
  pool = record {
    path = 47 ∷ 97 ∷ [];
    capacity = default_capacity;
    payload_size = default_payload_size;
    max_hosts = default_max_hosts;
  };
  host = default_host;
  overflow = default_overflow;
  recovery = default_recovery;
}

validate-IsRuntime_example :
    (new 1000000 128 16 ≡ some (geometry_of default_config))
    × IsRuntime
        (record { geometry = geometry_of default_config; host_id = 0 })
        (geometry_of default_config).total_size
unfolding Config.validate
validate-IsRuntime_example = validate-IsRuntime default_config (omega arith) refl

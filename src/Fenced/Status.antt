-- ===== src/Fenced/Status.antt =====
-- crates/fenced/src/main.rs: `status`, and `status` after `init`.
use mathlib.Core.Path.{subst}
use fence.Prelude.{
  ℕ, ◌^◌, ◌≤◌, ◌<◌, ◌≡◌, refl, sym, ◌∙◌, ap, arith, true, false, List, Option, some,
}
use fence.Backend.{Memory, get_le}
use fence.Program.{Prog, Ensures, Ensures-mono, Runs, Runs-bind, Runs-eq, ◌>>◌}
use fence.FenceError
use fence.FenceError.{FenceError, Result, invalid_magic}
use fence.Layout.{magic, new}
use fence.Metrics.Counters.{IsMapped}
use fence.Checksum.{Hasher}
use fence.Config
use fence.Config.{FenceConfig, ConfigResult, from_file, resolve_path}
use fence.Config.Pool.{geometry_of}
use fence.Metrics.{PoolStats, read_stats}
use fence.Metrics.Sums.{sums, IsSmall, read_stats_lem}
use fence.Recovery.Places.{header-Word}
use fence.Engine.{open_pool, committed_tail, reserve_tail, stats}
use fence.Engine.Open.{
  headed-above, tail-headed, reserve-headed, magic-headed, opened, existing, open_existing_lem,
}
use fence.Fenced
use fence.Fenced.{
  Commands, Exit, success, opening_error, pool_status, pool_config, pool_initialized, main,
  cmd_status, cmd_recover, opened_status, opened_recover,
}
use fence.Fenced.Reports.{fenced, mapped_lem, made, shown, initialized, init-Runs, same-sums}

module _ (h : Hasher) (read_to_string : List ℕ → Option (List ℕ))
    (toml : List ℕ → ConfigResult FenceConfig) (mapped : List ℕ → Result (Unit {0}))
    (env_path : Option (List ℕ)) (config_path : Option (List ℕ)) (c : FenceConfig) (m : Memory)
    (good : from_file read_to_string toml (resolve_path config_path env_path) ≡ Config.ok c)
    (u32 : c.pool.capacity < 2 ^ 32) (there : mapped c.pool.path ≡ FenceError.ok tt)
    (large : (geometry_of c).total_size ≤ m.size) where
  abbrev tool : Option Commands → Prog Exit
  tool = fenced h read_to_string toml mapped env_path config_path

  pub v : IsMapped (geometry_of c) m.size
  v = mapped_lem h read_to_string toml mapped env_path config_path c m good u32 there large

  pub new_lem : new c.pool.capacity c.pool.payload_size c.pool.max_hosts ≡ some (geometry_of c)
  new_lem = made h read_to_string toml mapped env_path config_path c m good u32 there large

  abbrev pub printed : ℕ → ℕ → PoolStats → Exit
  printed = shown h read_to_string toml mapped env_path config_path c m good u32 there large m

  pub open-Runs :
      Runs
        (open_pool (pool_config c false) (FenceError.ok tt))
        m
        (existing (pool_config c false) (geometry_of c) m new_lem v (get_le 8 m.cache 0))
        m
  open-Runs = open_existing_lem (pool_config c false) (geometry_of c) m new_lem v refl

  pub status-Runs :
      get_le 8 m.cache 0 ≡ magic
      → IsSmall (sums (geometry_of c) m v)
      → Runs
          (tool (some Fenced.status))
          m
          (printed (get_le 8 m.cache 32) (get_le 8 m.cache 40) (sums (geometry_of c) m v))
          m
  unfolding main cmd_status stats committed_tail reserve_tail
  status-Runs ours small =
      rw (good, there)
        (Runs-bind _ (opened_status h c) (open_pool (pool_config c false) (FenceError.ok tt)) m
          (FenceError.ok (opened (pool_config c false) (geometry_of c) m new_lem v)) m
          (Runs-eq (open_pool (pool_config c false) (FenceError.ok tt)) m
            (ap (existing (pool_config c false) (geometry_of c) m new_lem v) ours ∙ refl) refl
            open-Runs)
          (Runs-bind _ _ (read_stats (geometry_of c)) m (sums (geometry_of c) m v) m
            (read_stats_lem (geometry_of c) m v small)
            (
              header-Word (geometry_of c) m.size 32 v (omega arith) refl,
              (header-Word (geometry_of c) m.size 40 v (omega arith) refl, (refl, refl)),
            )))

module _ (h : Hasher) (read_to_string : List ℕ → Option (List ℕ))
    (toml : List ℕ → ConfigResult FenceConfig) (mapped : List ℕ → Result (Unit {0}))
    (env_path : Option (List ℕ)) (config_path : Option (List ℕ)) (c : FenceConfig) (m : Memory)
    (good : from_file read_to_string toml (resolve_path config_path env_path) ≡ Config.ok c)
    (u32 : c.pool.capacity < 2 ^ 32) (there : mapped c.pool.path ≡ FenceError.ok tt)
    (large : (geometry_of c).total_size ≤ m.size) where
  -- Where the configuration loads, its capacity is a u32, the mapping succeeds and is as large as
  -- the pool, and no sum of the counters reaches 2 ^ 64: `init` and then `status` print both tails
  -- as 0, the configured geometry, and for each counter the sum over all hosts of what the mapping
  -- held before `init`. Nothing behind the first 56 bytes is changed.
  pub init-status_lem :
      IsSmall (
        sums
          (geometry_of c)
          m
          (mapped_lem h read_to_string toml mapped env_path config_path c m good u32 there large))
      → Ensures
          (λ e n.
            (e
              ≡ success (
                  pool_status c.pool.path 0 0 (geometry_of c) (
                    sums (geometry_of c) m (
                      mapped_lem h read_to_string toml mapped env_path config_path c m good u32
                        there large))))
            × ((a : ℕ) → 56 ≤ a → n.cache a ≡ m.cache a))
          (fenced h read_to_string toml mapped env_path config_path (some Fenced.init)
            >> fenced h read_to_string toml mapped env_path config_path (some Fenced.status))
          m
  init-status_lem small =
      let v =
        mapped_lem h read_to_string toml mapped env_path config_path c m good u32 there large in
      let g = made h read_to_string toml mapped env_path config_path c m good u32 there large in
      let after : Memory =
        initialized h read_to_string toml mapped env_path config_path c m good u32 there large in
      let same =
        same-sums h read_to_string toml mapped env_path config_path c m good u32 there large in
      Runs-bind _ _ (fenced h read_to_string toml mapped env_path config_path (some Fenced.init)) m
        _ after
        (init-Runs h read_to_string toml mapped env_path config_path c m good u32 there large)
        (Ensures-mono _ _
          (λ e n a. (
            a.0
                ∙ cc (
                  tail-headed (pool_config c true) (geometry_of c) m g v m.cache,
                  reserve-headed (pool_config c true) (geometry_of c) m g v m.cache,
                  same,
                ),
            λ o lo.
                ap (λ (k : Memory). k.cache o) a.1
                ∙ headed-above (pool_config c true) (geometry_of c) m g v m.cache o lo,
          ))
          (fenced h read_to_string toml mapped env_path config_path (some Fenced.status)) after
          (status-Runs h read_to_string toml mapped env_path config_path c after good u32 there
            large (magic-headed (pool_config c true) (geometry_of c) m g v m.cache)
            (subst IsSmall (sym same) small)))

-- ===== src/Fenced/Recover.antt =====
-- crates/fenced/src/main.rs: `recover`.
use mathlib.Core.Path.{subst}
use fence.Prelude.{
  ℕ, ◌^◌, ◌≤◌, ◌<◌, ◌≡◌, refl, sym, ◌∙◌, ap, arith, List, Option, some, false, min, ltb, Bool-cases,
  inl, inr,
}
use fence.Backend.{Memory, get_le}
use fence.Program.{Ensures, Ensures-bind, Ensures-mono, Ensures-size, Runs-bind, Runs-eq}
use fence.FenceError
use fence.FenceError.{Result}
use fence.Layout.{metrics_offset, magic}
use fence.Checksum.{Hasher}
use fence.Config
use fence.Config.{FenceConfig, ConfigResult, from_file, resolve_path}
use fence.Config.Pool.{geometry_of, validate-IsRuntime}
use fence.Metrics
use fence.Metrics.Counters.{IsMapped, counted, counted-below, counter-Word}
use fence.Recovery
use fence.Recovery.{RecoveryReport}
use fence.Recovery.Outcome.{broken_count}
use fence.Recovery.Protocol.{recover_lem, Recovered}
use fence.Engine
use fence.Engine.{FenceRuntime, open_pool}
use fence.Engine.Open.{opened, existing}
use fence.Fenced
use fence.Fenced.{Exit, success, recovery_complete, pool_config, main, cmd_recover, opened_recover}
use fence.Fenced.Reports.{fenced, mapped_lem, valid}
use fence.Fenced.Status.{open-Runs, new_lem}

-- What recovery makes of the pool, but for the counters.
abbrev pub Repaired : Hasher → FenceRuntime → Memory → RecoveryReport → Memory → Type 0
Repaired h rt m report n =
    (report.slots_scanned ≡ min (get_le 8 m.cache 40) rt.geometry.capacity)
    × (report.abandoned_count ≡ broken_count h rt.geometry m.cache report.slots_scanned 0)
    × ((k : Memory) × Recovered h rt.geometry m k
        × (report.committed_tail ≡ get_le 8 k.cache 32)
        × ((a : ℕ) → a < metrics_offset rt.geometry 0 → n.cache a ≡ k.cache a))

module _ (h : Hasher) (rt : FenceRuntime) (m : Memory) (v : IsMapped rt.geometry m.size)
    (host : rt.host_id < rt.geometry.max_hosts)
    (le : get_le 8 m.cache 32 ≤ rt.geometry.capacity) where
  -- `FenceRuntime::recover`, with its counters.
  engine-recover_lem : Ensures (Repaired h rt m) (Engine.recover h rt) m
  unfolding Engine.recover Metrics.increment_recovery_runs Metrics.increment_abandoned_found
  engine-recover_lem = Ensures-bind (Repaired h rt m) _ (Recovery.recover h rt.geometry) m (
      Ensures-mono _ _
        (λ report k a.
          let w : IsMapped rt.geometry k.size = subst (IsMapped rt.geometry) (sym a.1) v in
          let one : Memory = counted rt.geometry rt.host_id 40 1 k in
          (
            counter-Word rt.geometry rt.host_id k.size 40 w host (omega arith) refl,
            elim (Bool-cases (ltb 0 report.abandoned_count)) [
              | inl some_found ↦ rw some_found (
                counter-Word rt.geometry rt.host_id k.size 48 w host (omega arith) refl,
                (
                  a.0.0,
                  a.0.1,
                  (
                    k,
                    a.0.3,
                    a.0.2,
                    λ o lt.
                        counted-below rt.geometry rt.host_id one 48 report.abandoned_count o
                          (omega arith)
                        ∙ counted-below rt.geometry rt.host_id k 40 1 o (omega arith),
                  ),
                ),
              )
              | inr none_found ↦ rw none_found (
                a.0.0,
                a.0.1,
                (
                  k,
                  a.0.3,
                  a.0.2,
                  λ o lt. counted-below rt.geometry rt.host_id k 40 1 o (omega arith),
                ),
              )
            ],
          ))
        (Recovery.recover h rt.geometry) m
        (Ensures-size _ m.size (Recovery.recover h rt.geometry) m refl
          (recover_lem h rt.geometry m v le)))

module _ (h : Hasher) (read_to_string : List ℕ → Option (List ℕ))
    (toml : List ℕ → ConfigResult FenceConfig) (mapped : List ℕ → Result (Unit {0}))
    (env_path : Option (List ℕ)) (config_path : Option (List ℕ)) (c : FenceConfig) (m : Memory)
    (good : from_file read_to_string toml (resolve_path config_path env_path) ≡ Config.ok c)
    (u32 : c.pool.capacity < 2 ^ 32) (there : mapped c.pool.path ≡ FenceError.ok tt)
    (large : (geometry_of c).total_size ≤ m.size) where
  abbrev pub host_of : FenceRuntime
  host_of = record { geometry = geometry_of c; host_id = c.host.host_id }

  -- Where the configuration loads, its capacity is a u32, the mapping succeeds and is as large as
  -- the pool and begins with the magic number, and the tail is within the capacity: the command
  -- `recover` ends without failure and prints the report, the slots below the reserve tail and
  -- within the capacity, how many of them were broken (WRITING, COMMITTED with a wrong
  -- checksum, or in an unknown state), and the new tail. Up to the counters the
  -- pool is as `recover` leaves it.
  pub recover-command_lem :
      get_le 8 m.cache 0 ≡ magic
      → get_le 8 m.cache 32 ≤ c.pool.capacity
      → Ensures
          (λ e n.
            (report : RecoveryReport) × (e ≡ success (recovery_complete report))
            × Repaired h host_of m report n)
          (fenced h read_to_string toml mapped env_path config_path (some Fenced.recover))
          m
  unfolding main cmd_recover
  recover-command_lem ours le =
      let v =
        mapped_lem h read_to_string toml mapped env_path config_path c m good u32 there large in
      let ok_new =
        new_lem h read_to_string toml mapped env_path config_path c m good u32 there large in
      let host =
        (validate-IsRuntime c u32 (
          valid h read_to_string toml mapped env_path config_path c m good u32 there
            large)).1.host in
      rw (good, there)
        (Runs-bind _ (opened_recover h) (open_pool (pool_config c false) (FenceError.ok tt)) m
          (FenceError.ok (opened (pool_config c false) (geometry_of c) m ok_new v)) m
          (Runs-eq (open_pool (pool_config c false) (FenceError.ok tt)) m
            (ap (existing (pool_config c false) (geometry_of c) m ok_new v) ours ∙ refl) refl
            (open-Runs h read_to_string toml mapped env_path config_path c m good u32 there large))
          (Ensures-bind _ _ (Engine.recover h host_of) m (
            Ensures-mono _ _ (λ report n a. (report, refl, a)) (Engine.recover h host_of) m
              (engine-recover_lem h host_of m v host le))))

-- ===== src/Config/Pool.antt =====
-- crates/fence-config/src/config.rs: what the checks of `validate` mean for the runtime.
use fence.Prelude.{
  ℕ, ◌+◌, ◌*◌, ◌%◌, ◌^◌, ◌≤◌, ◌<◌, ◌≡◌, ◌||◌, Bool, true, false, not, refl, arith, some, ltb, leb,
  ◌==◌, if◌then◌else◌, leb→false, ==_ne,
}
use fence.Layout.{PoolGeometry, new}
use fence.Layout.Bounds.{new-IsGeometry}
use fence.Engine.Stored.{IsRuntime}
use fence.Config.{
  FenceConfig, Invalid, ConfigResult, validate, ok, err, validation_error, capacity_zero,
  payload_size_zero, payload_size_large, payload_size_unaligned, max_hosts_range, host_id_range,
}

-- The geometry of a configuration.
abbrev pub geometry_of : FenceConfig → PoolGeometry
geometry_of c =
    let record_size = 64 + c.pool.payload_size in
    record {
      capacity = c.pool.capacity;
      payload_size = c.pool.payload_size;
      max_hosts = c.pool.max_hosts;
      record_size = record_size;
      total_size = 64 + record_size * c.pool.capacity + 64 * c.pool.max_hosts;
    }

positive : (n : ℕ) → (n == 0) ≡ false → 0 < n
positive n e = ground (arith, e)

below : (m n : ℕ) → ltb m n ≡ false → n ≤ m
below m n e = ground (arith, e)

above : (m n : ℕ) → leb m n ≡ false → n < m
above m n e = ground (arith, e)

divides : (n : ℕ) → not (n % 8 == 0) ≡ false → n % 8 ≡ 0
divides n e = ground (arith, e)

either : {a b : Bool} → (a || b) ≡ false → (a ≡ false) × (b ≡ false)
either {a = true} e = absurd (ground (arith, e))
either {a = false} e = (refl, e)

-- A check that was passed, and what is left to check.
passed :
    (failed : Bool) (i : Invalid) (rest : ConfigResult (Unit {0}))
    → (if failed then err (validation_error i) else rest) ≡ ok tt
    → (failed ≡ false) × (rest ≡ ok tt)
passed true i rest e = absurd (ground (arith, e))
passed false i rest e = (refl, e)

-- What `validate` has checked.
checked :
    (c : FenceConfig)
    → validate c ≡ ok tt
    → (0 < c.pool.capacity)
      × (0 < c.pool.payload_size)
      × (c.pool.payload_size ≤ 65536)
      × (c.pool.payload_size % 8 ≡ 0)
      × (0 < c.pool.max_hosts)
      × (c.pool.max_hosts ≤ 256)
      × (c.host.host_id < c.pool.max_hosts)
unfolding validate
checked c e =
    let k₁ = passed (c.pool.capacity == 0) capacity_zero _ e in
    let k₂ = passed (c.pool.payload_size == 0) payload_size_zero _ k₁.1 in
    let k₃ = passed (ltb 65536 c.pool.payload_size) payload_size_large _ k₂.1 in
    let k₄ = passed (not (c.pool.payload_size % 8 == 0)) payload_size_unaligned _ k₃.1 in
    let k₅ = passed (c.pool.max_hosts == 0 || ltb 256 c.pool.max_hosts) max_hosts_range _ k₄.1 in
    let k₆ = passed (leb c.pool.max_hosts c.host.host_id) (host_id_range c.pool.max_hosts) _ k₅.1 in
    (
      positive c.pool.capacity k₁.0,
      positive c.pool.payload_size k₂.0,
      below 65536 c.pool.payload_size k₃.0,
      divides c.pool.payload_size k₄.0,
      positive c.pool.max_hosts (either k₅.0).0,
      below 256 c.pool.max_hosts (either k₅.0).1,
      above c.pool.max_hosts c.host.host_id k₆.0,
    )

new-validated :
    (c : FenceConfig)
    → validate c ≡ ok tt
    → new c.pool.capacity c.pool.payload_size c.pool.max_hosts ≡ some (geometry_of c)
unfolding new
new-validated c e =
    let k = checked c e in
    rw
      (
        ==_ne c.pool.capacity 0 (omega (arith, k)),
        ==_ne c.pool.payload_size 0 (omega (arith, k)),
        ==_ne c.pool.max_hosts 0 (omega (arith, k)),
        leb→false (2 ^ 32) (64 + c.pool.payload_size) (omega (arith, k)),
      )
      refl

-- Where `validate` accepts a configuration, whose capacity is a u32, `PoolGeometry::new` does not panic,
-- and in a mapping of the geometry's total size the runtime is well formed: the host is one of the pool's,
-- every slot and counter lies in the mapping, and every atomic access is aligned.
pub validate-IsRuntime :
    (c : FenceConfig)
    → c.pool.capacity < 2 ^ 32
    → validate c ≡ ok tt
    → (new c.pool.capacity c.pool.payload_size c.pool.max_hosts ≡ some (geometry_of c))
      × IsRuntime
          (record { geometry = geometry_of c; host_id = c.host.host_id })
          (geometry_of c).total_size
validate-IsRuntime c u32 e =
    let k = checked c e in
    (
      new-validated c e,
      record {
        mapped = record {
          geometry =
              new-IsGeometry c.pool.capacity c.pool.payload_size c.pool.max_hosts u32
                (omega (arith, k)) (new-validated c e);
          aligned = omega (arith, k);
          within = omega arith;
        };
        host = omega (arith, k);
      },
    )

-- ===== src/Layout/Bounds.antt =====
-- Geometry of a pool: what `PoolGeometry::new` makes, and how large the offsets are.
use native.Mathlib.Nat.{mul_comm}
use fence.Prelude.{ℕ, ◌+◌, ◌-◌, ◌*◌, ◌^◌, ◌≤◌, ◌<◌, ◌≡◌, some, arith}
use fence.Layout.{PoolGeometry, new, record_offset, payload_offset, metrics_offset, cacheline}

-- What `new` guarantees of a geometry.
pub record IsGeometry (g : PoolGeometry) : Type 0 where
  pub capacity_pos : 0 < g.capacity
  pub capacity_u32 : g.capacity < 2 ^ 32
  pub payload_pos : 0 < g.payload_size
  pub hosts_pos : 0 < g.max_hosts
  pub hosts_u16 : g.max_hosts < 2 ^ 16
  pub record_u32 : g.record_size < 2 ^ 32
  pub record_lem : g.record_size ≡ 64 + g.payload_size
  pub total_lem : g.total_size ≡ 64 + g.capacity * g.record_size + g.max_hosts * 64

mul-le : (a b c d : ℕ) → a ≤ c → b ≤ d → a * b ≤ c * d
mul-le a b c d h k = grind arith

-- Where `PoolGeometry::new` does not panic, the geometry that it makes has positive capacity, payload
-- and host count, a record size that is 64 more than the payload and fits in a u32, and a total size
-- that is the sum of the header, the slots and the metrics blocks.
pub new-IsGeometry :
    (capacity payload_size max_hosts : ℕ) {g : PoolGeometry}
    → capacity < 2 ^ 32
    → max_hosts < 2 ^ 16
    → new capacity payload_size max_hosts ≡ some g
    → IsGeometry g
unfolding new
new-IsGeometry capacity payload_size max_hosts hc hh e =
    ground (arith, mul_comm (64 + payload_size) capacity)

-- The offsets of every slot and every host's block fit in `usize`, and lie in the pool in the order
-- header, records, metrics.
pub offsets_fit :
    (g : PoolGeometry) (slot host : ℕ)
    → IsGeometry g
    → slot < g.capacity
    → host < g.max_hosts
    → (record_offset g slot + g.record_size ≤ metrics_offset g 0)
      × (metrics_offset g host + cacheline ≤ g.total_size)
      × (g.total_size < 2 ^ 64)
      × (payload_offset g slot + g.payload_size ≡ record_offset g slot + g.record_size)
offsets_fit g slot host v hs hh = (
  omega
      (arith, mul-le (slot + 1) g.record_size g.capacity g.record_size (omega arith) (omega arith)),
  omega (arith, v.total_lem),
  omega (
    arith,
    mul-le g.capacity g.record_size (2 ^ 32 - 1) (2 ^ 32 - 1) (omega (arith, v.capacity_u32))
        (omega (arith, v.record_u32)),
    v.total_lem,
    v.hosts_u16,
  ),
  omega (arith, v.record_lem),
)

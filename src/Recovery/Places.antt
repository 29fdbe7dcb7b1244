-- ===== src/Recovery/Places.antt =====
-- Where the slots and the header's words lie in a mapped pool.
use fence.Prelude.{ℕ, ◌+◌, ◌%◌, ◌≤◌, ◌<◌, ◌≡◌, arith}
use fence.Backend.{Word}
use fence.Layout.{PoolGeometry, record_offset}
use fence.Layout.Bounds.{offsets_fit}
use fence.Layout.Regions.{record-aligned}
use fence.Metrics.Counters.{IsMapped}
use fence.Recovery.Check.{Fits}

pub slot-Fits :
    (g : PoolGeometry) (size slot : ℕ)
    → IsMapped g size
    → slot < g.capacity
    → Fits g size (record_offset g slot)
slot-Fits g size slot v h = record {
  aligned = record-aligned g slot v.aligned;
  above = omega arith;
  inside =
      omega (arith, offsets_fit g slot 0 v.geometry h v.geometry.hosts_pos, v.geometry.total_lem);
  sized = v.geometry.record_lem;
}

-- The words of the header are in bounds.
pub header-Word :
    (g : PoolGeometry) (size o : ℕ) → IsMapped g size → o ≤ 56 → o % 8 ≡ 0 → Word size o
header-Word g size o v h al = (omega (arith, v.within, v.geometry.total_lem), al)

pub states-fit :
    (g : PoolGeometry) (size : ℕ)
    → IsMapped g size
    → (slot : ℕ) → slot < g.capacity
    → record_offset g slot + 0 < size
states-fit g size v slot h =
    let f : Fits g size (record_offset g slot) = slot-Fits g size slot v h in
    omega (arith, f.inside, f.sized)

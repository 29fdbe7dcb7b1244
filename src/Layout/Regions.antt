-- ===== src/Layout/Regions.antt =====
-- Where the header, the record slots and the metrics blocks lie to each other.
use fence.Prelude.{ℕ, ◌+◌, ◌*◌, ◌/◌, ◌%◌, ◌≤◌, ◌<◌, ◌≡◌, ◌≢◌, ◌⊎◌, inl, inr, arith, ap}
use fence.Prelude.Bytes.{Apart}
use fence.Layout.{PoolGeometry, record_offset, metrics_offset}

mul-suc-le : (s t r : ℕ) → s < t → s * r + r ≤ t * r
mul-suc-le s t r h = grind arith

-- Different slots are different ranges of bytes.
pub records-Apart :
    (g : PoolGeometry) (s t : ℕ)
    → s ≢ t
    → Apart (record_offset g s) g.record_size (record_offset g t) g.record_size
records-Apart g s t ne = lt_cases (omega arith)
  where
    lt_cases :
        (s < t) ⊎ (t < s)
        → Apart (record_offset g s) g.record_size (record_offset g t) g.record_size
    lt_cases (inl h) = inl (omega (arith, mul-suc-le s t g.record_size h))
    lt_cases (inr h) = inr (omega (arith, mul-suc-le t s g.record_size h))

pub record_below_metrics :
    (g : PoolGeometry) (slot host : ℕ)
    → slot < g.capacity
    → record_offset g slot + g.record_size ≤ metrics_offset g host
record_below_metrics g slot host h = omega (arith, mul-suc-le slot g.capacity g.record_size h)

mul-mod-eight : (s r : ℕ) → r % 8 ≡ 0 → (s * r) % 8 ≡ 0
mul-mod-eight s r h =
    let e : r ≡ 8 * (r / 8) = omega arith in omega (arith, ap (λ (t : ℕ). s * t) e)

pub record-aligned :
    (g : PoolGeometry) (slot : ℕ) → g.record_size % 8 ≡ 0 → record_offset g slot % 8 ≡ 0
record-aligned g slot h = omega (arith, mul-mod-eight slot g.record_size h)

pub metrics-aligned :
    (g : PoolGeometry) (host : ℕ) → g.record_size % 8 ≡ 0 → metrics_offset g host % 8 ≡ 0
metrics-aligned g host h = omega (arith, mul-mod-eight g.capacity g.record_size h)

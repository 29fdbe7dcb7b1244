-- ===== src/Metrics/Counters.antt =====
-- What an increment does to a pool.
use fence.Prelude.{ℕ, ◌+◌, ◌%◌, ◌≤◌, ◌<◌, ◌≡◌, refl, arith}
use fence.Backend.{Memory, Word, with_cache, get_le, put_le, u64_mod}
use fence.Backend.Fields.{put_le-outside}
use fence.Program.{Runs}
use fence.Layout.{PoolGeometry, metrics_offset}
use fence.Layout.Bounds.{IsGeometry}
use fence.Layout.Regions.{metrics-aligned}
use fence.Metrics.{bump}

-- The memory with `n` added to a counter.
abbrev pub counted : PoolGeometry → ℕ → ℕ → ℕ → Memory → Memory
counted g host field n m =
    let o = metrics_offset g host + field in
    with_cache m (put_le 8 m.cache o ((get_le 8 m.cache o + n) % u64_mod))

-- The pool lies in a memory of `size` bytes, with its atomics aligned.
pub record IsMapped (g : PoolGeometry) (size : ℕ) : Type 0 where
  pub geometry : IsGeometry g
  pub aligned : g.record_size % 8 ≡ 0
  pub within : g.total_size ≤ size

module _ (g : PoolGeometry) (host : ℕ) where
  pub counter-Word :
      (size field : ℕ)
      → IsMapped g size
      → host < g.max_hosts
      → field ≤ 56
      → field % 8 ≡ 0
      → Word size (metrics_offset g host + field)
  counter-Word size field f h lo al = (
    omega (arith, f.geometry.total_lem, f.within),
    omega (arith, metrics-aligned g host f.aligned),
  )

  pub bump-Runs :
      (m : Memory) (field n : ℕ)
      → Word m.size (metrics_offset g host + field)
      → Runs (bump g host field n) m tt (counted g host field n m)
  bump-Runs m field n w = (w, (refl, refl))

  -- Records and header are not touched.
  pub counted-below :
      (m : Memory) (field n a : ℕ)
      → a < metrics_offset g host
      → (counted g host field n m).cache a ≡ m.cache a
  counted-below m field n a below =
      put_le-outside 8 _ (metrics_offset g host + field) _ a (omega arith)

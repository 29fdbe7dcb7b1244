-- ===== src/Tests/HarnessWitnesses.antt =====
-- The theorems on crashed writes and recovery, applied to a small pool.
use fence.Prelude.{ℕ, ◌<◌, ◌≡◌, ◌≢◌, arith, refl}
use fence.Backend.{get_le}
use fence.Prelude.Bytes.{from_le, peek}
use fence.Program.{Ensures, ret, ◌>>=◌}
use fence.FenceError.{ok}
use fence.Layout
use fence.Layout.{state_writing}
use fence.Recovery
use fence.Recovery.{RecoveryReport}
use fence.Recovery.Sweep.{state_at}
use fence.Engine.Pool.{IsPool}
use fence.Engine.Recovered.{recover-IsPool}
use fence.Harness.{simulate_crashed_write}
use fence.Harness.Crashed.{Survives, crashed-recovered}
use fence.Tests.Samples.{sample_hasher, zeros, sample_geometry, sample_runtime}
use fence.Tests.PoolWitnesses.{zeros-IsPool}

recover-IsPool_example :
    Ensures
      (λ report n.
        IsPool sample_hasher sample_runtime n
        × ((s : ℕ) → s < get_le 8 n.cache 40 → state_at sample_geometry n.cache s ≢ state_writing))
      (Recovery.recover sample_hasher sample_geometry)
      zeros
recover-IsPool_example = recover-IsPool sample_hasher sample_runtime zeros zeros-IsPool

zeros_room : get_le 8 zeros.cache 40 < 3
unfolding get_le from_le peek
zeros_room = omega arith

crashed-recovered_example :
    Ensures
      (λ (a : ℕ × RecoveryReport) n.
        (a.0 ≡ get_le 8 zeros.cache 40)
        × Survives sample_hasher sample_runtime zeros zeros-IsPool zeros_room n)
      (simulate_crashed_write (ok tt) 3 8 2
        >>= (λ s. Recovery.recover sample_hasher sample_geometry >>= (λ report. ret (s, report))))
      zeros
unfolding Layout.new
crashed-recovered_example =
    crashed-recovered sample_hasher sample_runtime zeros zeros-IsPool zeros_room 3 8 2 refl

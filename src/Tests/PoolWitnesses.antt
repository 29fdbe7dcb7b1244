-- ===== src/Tests/PoolWitnesses.antt =====
-- The theorems on pools, applied to small pools.
use native.Mathlib.Omega.{arith}
use fence.Prelude.{
  ℕ, ◌<◌, ◌≤◌, ◌≡◌, ◌+◌, ◌^◌, refl, [], ◌∷◌, ◌==◌, if◌then◌else◌, some, min, ◌⊎◌, false,
}
use fence.Backend.{Memory, get_le, flush_range}
use fence.Backend.Flush.{flush_range_lem}
use fence.Prelude.Bytes.{Apart, from_le, peek}
use fence.Program.{Ensures, Runs, ret, run, done, ◌>>=◌}
use fence.FenceError.{ok, err, pool_full}
use fence.Layout
use fence.Layout.{PoolGeometry, record_offset, metrics_offset, payload_offset, cacheline}
use fence.Layout.Bounds.{IsGeometry, offsets_fit}
use fence.Layout.Regions.{records-Apart}
use fence.Metrics.Counters.{IsMapped}
use fence.Recovery.{recover, RecoveryReport}
use fence.Recovery.Protocol.{recover_lem, recover_idempotent, Recovered}
use fence.Recovery.Outcome.{broken_count}
use fence.Compaction.{trim}
use fence.Compaction.Trim.{trim_lem, TrimAnswer}
use fence.Engine.{open_pool, append, read_index}
use fence.Engine.Stored.{IsRuntime}
use fence.Engine.Pool.{IsPool}
use fence.Engine.Read.{read_index-Runs, read_result, read_memory}
use fence.Engine.Full.{append-full}
use fence.Engine.Open.{create-IsPool, IsHeader}
use fence.Engine.Protocol.{append_lem, append-read, Appended}
use fence.Tests.Samples.{sample_hasher, zeros, sample_geometry, sample_config, sample_runtime}

pub sample-IsGeometry : IsGeometry sample_geometry
sample-IsGeometry = record {
  capacity_pos = omega arith;
  capacity_u32 = omega arith;
  payload_pos = omega arith;
  hosts_pos = omega arith;
  hosts_u16 = omega arith;
  record_u32 = omega arith;
  record_lem = refl;
  total_lem = refl;
}

pub sample-IsMapped : IsMapped sample_geometry zeros.size
sample-IsMapped = record { geometry = sample-IsGeometry; aligned = refl; within = omega arith }

pub sample-IsRuntime : IsRuntime sample_runtime zeros.size
sample-IsRuntime = record { mapped = sample-IsMapped; host = omega arith }

offsets_fit_example :
    (record_offset sample_geometry 2 + 72 ≤ metrics_offset sample_geometry 0)
    × (metrics_offset sample_geometry 1 + cacheline ≤ sample_geometry.total_size)
    × (sample_geometry.total_size < 2 ^ 64)
    × (payload_offset sample_geometry 2 + 8 ≡ record_offset sample_geometry 2 + 72)
offsets_fit_example = offsets_fit sample_geometry 2 1 sample-IsGeometry (omega arith) (omega arith)

records-Apart_example :
    Apart (record_offset sample_geometry 0) 72 (record_offset sample_geometry 2) 72
records-Apart_example = records-Apart sample_geometry 0 2 (omega arith)

flush_range_lem_example : flush_range (λ a. 7) (λ a. 0) 100 60 130 ≡ 7
flush_range_lem_example = flush_range_lem (λ a. 7) (λ a. 0) 100 60 130

pub zeros-IsPool : IsPool sample_hasher sample_runtime zeros
unfolding get_le from_le peek
zeros-IsPool = record {
  runtime = sample-IsRuntime;
  tail_le = omega arith;
  reserve_le = omega arith;
  fresh = λ s lo hi. refl;
  sound = λ s lt st. absurd (omega (arith, st));
  numbered = λ s lt st. absurd (omega (arith, st));
}

append_lem_example :
    Ensures
      (λ res n.
        (res ≡ ok (get_le 8 zeros.cache 40 + 1))
        × Appended sample_hasher sample_runtime zeros
            (get_le 8 zeros.cache 40)
            7
            (104 ∷ 105 ∷ [])
            n)
      (append sample_hasher sample_runtime 7 (104 ∷ 105 ∷ []))
      zeros
unfolding get_le from_le peek
append_lem_example =
    append_lem sample_hasher sample_runtime zeros 7 (104 ∷ 105 ∷ []) zeros-IsPool (omega arith)
      (omega arith) (omega arith)

append-read_example :
    Ensures
      (λ res n.
        res
        ≡ ok (
            some (record {
              index = get_le 8 zeros.cache 40 + 1;
              term = 7;
              writer_id = 1;
              bytes = 104 ∷ 105 ∷ [];
            })))
      (append sample_hasher sample_runtime 7 (104 ∷ 105 ∷ [])
        >>= (λ _. read_index sample_hasher sample_runtime (get_le 8 zeros.cache 40 + 1)))
      zeros
unfolding get_le from_le peek
append-read_example =
    append-read sample_hasher sample_runtime zeros 7 (104 ∷ 105 ∷ []) zeros-IsPool (omega arith)
      (omega arith) (omega arith) refl

-- A pool of which every slot is reserved.
abbrev full_pool : Memory
full_pool = record zeros { cache = λ a. if a == 40 then 3 else 0 }

append-full_example :
    Ensures
      (λ res n.
        (res ≡ err (pool_full 3 (get_le 8 full_pool.cache 40)))
        × (get_le 8 n.cache 40 ≡ get_le 8 full_pool.cache 40)
        × ((a : ℕ)
            → (a < 40) ⊎ (48 ≤ a)
            → a < metrics_offset sample_geometry 1
            → n.cache a ≡ full_pool.cache a))
      (append sample_hasher sample_runtime 7 (9 ∷ []))
      full_pool
unfolding get_le from_le peek
append-full_example =
    append-full sample_hasher sample_runtime full_pool 7 (9 ∷ []) sample-IsRuntime (omega arith)
      (omega arith) (omega arith)

-- A host died while it wrote the first of two records, the other of which is COMMITTED but corrupt.
abbrev crashed : Memory
crashed = record zeros {
  cache = λ a. if a == 40 then 2 else if a == 64 then 1 else if a == 136 then 2 else 0;
}

recover_lem_example :
    Ensures
      (λ rep k.
        (rep.slots_scanned ≡ min (get_le 8 crashed.cache 40) 3)
        × (rep.abandoned_count
            ≡ broken_count sample_hasher sample_geometry crashed.cache rep.slots_scanned 0)
        × (rep.committed_tail ≡ get_le 8 k.cache 32)
        × Recovered sample_hasher sample_geometry crashed k)
      (recover sample_hasher sample_geometry)
      crashed
unfolding get_le from_le peek
recover_lem_example =
    recover_lem sample_hasher sample_geometry crashed sample-IsMapped (omega arith)

recover_idempotent_example :
    Ensures
      (λ (reports : RecoveryReport × RecoveryReport) k.
        (run (recover sample_hasher sample_geometry) crashed ≡ (done reports.0, k))
        × (reports.1.abandoned_count ≡ 0)
        × (reports.1.committed_tail ≡ reports.0.committed_tail))
      (do
        first ← recover sample_hasher sample_geometry
        second ← recover sample_hasher sample_geometry
        ret (first, second))
      crashed
unfolding get_le from_le peek
recover_idempotent_example =
    recover_idempotent sample_hasher sample_geometry crashed sample-IsMapped (omega arith)

-- The first record is COMMITTED and below the tail.
abbrev one_record : Memory
one_record = record zeros {
  cache = λ a. if a == 32 then 1 else if a == 40 then 1 else if a == 64 then 2 else 0;
}

read_index-Runs_example :
    Runs
      (read_index sample_hasher sample_runtime 1)
      one_record
      (read_result sample_hasher sample_runtime one_record 1)
      (read_memory sample_hasher sample_runtime one_record 1)
unfolding get_le from_le peek
read_index-Runs_example =
    read_index-Runs sample_hasher sample_runtime one_record 1 sample-IsRuntime (omega arith)

trim_lem_example :
    Ensures (TrimAnswer sample_geometry one_record 1) (trim sample_geometry 1) one_record
unfolding get_le from_le peek
trim_lem_example = trim_lem sample_geometry one_record 1 sample-IsMapped (omega arith)

create-IsPool_example :
    Ensures
      (λ res n.
        (res ≡ ok sample_runtime)
        × IsPool sample_hasher sample_runtime n
        × (get_le 8 n.cache 32 ≡ 0)
        × (get_le 8 n.cache 40 ≡ 0)
        × IsHeader sample_geometry n
        × ((a : ℕ) → 56 ≤ a → n.cache a ≡ zeros.cache a)
        × Runs
            (open_pool (record sample_config { create = false }) (ok tt))
            n
            (ok sample_runtime)
            n)
      (open_pool sample_config (ok tt))
      zeros
unfolding Layout.new
create-IsPool_example =
    create-IsPool sample_config sample_geometry zeros refl sample-IsMapped sample_hasher
      (omega arith) refl (λ s lt. refl)

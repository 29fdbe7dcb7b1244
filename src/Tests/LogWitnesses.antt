-- ===== src/Tests/LogWitnesses.antt =====
-- The theorems on the abstract log and on the sums of the counters, applied to small pools.
use fence.Prelude.{◌==◌, if◌then◌else◌, ◌≡◌, arith, refl, List, [], ◌∷◌}
use fence.Backend.{Memory, get_le}
use fence.Prelude.Bytes.{from_le, peek}
use fence.Program.{Ensures, ◌>>=◌}
use fence.FenceError.{ok}
use fence.Layout
use fence.Layout.{new}
use fence.Metrics.{read_stats}
use fence.Metrics.Sums.{sums, total, read_stats_lem}
use fence.Engine.{append, read_index, open_pool}
use fence.Engine.Log.{Represents, log_append, log_read}
use fence.Engine.Log.Refine.{read-refines, append-refines}
use fence.Engine.Log.Session.{
  Call, append_call, read_call, range_call, AllProper, session, log_session, session-refines,
}
use fence.Engine.Log.Fresh.{run_session, create-session}
use fence.Engine.Log.Keep.{get_elem?-bound}
use fence.Tests.Samples.{sample_hasher, zeros, sample_geometry, sample_config, sample_runtime}
use fence.Tests.PoolWitnesses.{zeros-IsPool, sample-IsMapped}

zeros-Represents : Represents sample_hasher sample_runtime zeros []
unfolding get_le from_le peek
zeros-Represents = record {
  pool = zeros-IsPool;
  reserve = refl;
  tail = refl;
  entries = λ s e at. absurd (omega (arith, get_elem?-bound [] s e at));
}

read-refines_example :
    Ensures
      (λ res n. (res ≡ log_read [] 1) × Represents sample_hasher sample_runtime n [])
      (read_index sample_hasher sample_runtime 1)
      zeros
read-refines_example = read-refines sample_hasher sample_runtime zeros [] zeros-Represents 1

append-refines_example :
    Ensures
      (λ res n.
        (res ≡ (log_append sample_runtime [] 7 (104 ∷ 105 ∷ [])).0)
        × Represents sample_hasher sample_runtime n
            (log_append sample_runtime [] 7 (104 ∷ 105 ∷ [])).1)
      (append sample_hasher sample_runtime 7 (104 ∷ 105 ∷ []))
      zeros
append-refines_example =
    append-refines sample_hasher sample_runtime zeros [] zeros-Represents 7 (104 ∷ 105 ∷ [])
      (omega arith)

-- More appends than there are slots, and reads of all kinds.
abbrev some_calls : List Call
some_calls =
    append_call 1 (10 ∷ [])
    ∷ append_call 1 []
    ∷ read_call 1
    ∷ append_call 2 (20 ∷ 21 ∷ [])
    ∷ append_call 3 (30 ∷ [])
    ∷ read_call 4
    ∷ range_call 1 4
    ∷ []

some_calls-AllProper : AllProper some_calls
some_calls-AllProper = (
  omega arith,
  (omega arith, (tt, (omega arith, (omega arith, (tt, ((omega arith, omega arith), tt)))))),
)

session-refines_example :
    Ensures
      (λ replies n.
        (replies ≡ (log_session sample_runtime [] some_calls).0)
        × Represents sample_hasher sample_runtime n (log_session sample_runtime [] some_calls).1)
      (session sample_hasher sample_runtime some_calls)
      zeros
session-refines_example =
    session-refines sample_hasher sample_runtime [] some_calls zeros some_calls-AllProper
      zeros-Represents

create-session_example :
    Ensures
      (λ res n.
        (res ≡ ok (log_session sample_runtime [] some_calls).0)
        × Represents sample_hasher sample_runtime n (log_session sample_runtime [] some_calls).1)
      (open_pool sample_config (ok tt) >>= run_session sample_hasher some_calls)
      zeros
unfolding Layout.new
create-session_example =
    create-session sample_hasher sample_config sample_geometry zeros refl sample-IsMapped
      (omega arith) refl (λ s lt. refl) some_calls some_calls-AllProper

-- Both hosts have appended three records.
abbrev counted_pool : Memory
counted_pool = record zeros { cache = λ a. if a == 280 then 3 else if a == 344 then 3 else 0 }

read_stats_lem_example :
    Ensures
      (λ s n. (s ≡ sums sample_geometry counted_pool sample-IsMapped) × (n ≡ counted_pool))
      (read_stats sample_geometry)
      counted_pool
unfolding total get_le from_le peek
read_stats_lem_example = read_stats_lem sample_geometry counted_pool sample-IsMapped (record {
  appends = omega arith;
  failed = omega arith;
  bytes = omega arith;
  reads = omega arith;
  failures = omega arith;
  runs = omega arith;
  abandoned = omega arith;
})

-- ===== src/Tests/ConcurrentWitnesses.antt =====
-- The theorems on appends that take turns, applied to two hosts on a small pool.
use fence.Prelude.{
  ℕ, zero, suc, ◌%◌, ◌^◌, ◌<◌, ◌≤◌, ◌≡◌, ◌≢◌, arith, refl, List, [], ◌∷◌, ◌++◌, replicate, ◌+◌,
}
use fence.Backend.{get_le, put_le}
use fence.Prelude.Bytes.{from_le, to_le, peek, poke}
use fence.Program.{ret, Ensures}
use fence.FenceError.{Result, ok}
use fence.Layout.{state_committed, state_writing, record_offset}
use fence.Recovery.Check.{Agree}
use fence.Recovery.Sweep.{state_at}
use fence.Engine.Pool.{IsPool}
use fence.Engine
use fence.Recovery
use fence.Metrics
use fence.Checksum
use fence.Concurrent.{System, Request, start, turn, turns, AllBelow, CanGo}
use fence.Concurrent.Rely.{SameRecord}
use fence.Concurrent.Protocol.{Answered, turns-CanGo, answer_lem, append-ends}
use fence.Concurrent.Died.{died-recovered, Survives}
use fence.Concurrent.Settled.{indices_differ, settled-IsPool}
use fence.Tests.Samples.{sample_hasher, zeros, sample_geometry, sample_runtime}
use fence.Tests.PoolWitnesses.{zeros-IsPool}

-- Two hosts append one byte each.
abbrev two_requests : ℕ → Request
two_requests i = record { host_id = i % 2; term = 5; payload = 9 ∷ [] }

two_hosts : (i : ℕ) → i < 2 → (two_requests i).host_id < 2
two_hosts i lt = omega arith

two_terms : (i : ℕ) → i < 2 → (two_requests i).term < 2 ^ 64
two_terms i lt = omega arith

-- The hosts reserve one after the other, and then write in the other order.
abbrev crossed : List ℕ
crossed = 0 ∷ 1 ∷ replicate 40 1 ++ replicate 40 0

AllBelow-crossed : AllBelow 2 crossed
AllBelow-crossed = search (arith)

abbrev crossed_system : System
crossed_system = turns crossed (start sample_hasher sample_geometry two_requests zeros)

zero_answer : crossed_system.calls 0 ≡ ret (ok 1)
unfolding turns turn Engine.append Engine.append_at Engine.write_record Engine.commit_record
    Recovery.advance_committed_tail Recovery.advance_loop Recovery.scan_committed
    Metrics.increment_appends Metrics.increment_bytes_written get_le put_le from_le to_le peek poke
    Checksum.compute
zero_answer = refl

one_answer : crossed_system.calls 1 ≡ ret (ok 2)
unfolding turns turn Engine.append Engine.append_at Engine.write_record Engine.commit_record
    Recovery.advance_committed_tail Recovery.advance_loop Recovery.scan_committed
    Metrics.increment_appends Metrics.increment_bytes_written get_le put_le from_le to_le peek poke
    Checksum.compute
one_answer = refl

both_ended : (i : ℕ) → i < 2 → (res : Result ℕ) × (crossed_system.calls i ≡ ret res)
both_ended zero lt = (ok 1, zero_answer)
both_ended (suc zero) lt = (ok 2, one_answer)
both_ended (suc (suc i)) lt = absurd (omega (arith, lt))

turns-CanGo_example : CanGo (crossed_system.calls 0) crossed_system.memory
turns-CanGo_example =
    turns-CanGo sample_hasher sample_runtime zeros zeros-IsPool 2 two_requests (omega arith)
      two_hosts two_terms crossed AllBelow-crossed 0 (omega arith)

answer_lem_example :
    Answered sample_hasher sample_runtime zeros zeros-IsPool 2 two_requests
      (omega arith)
      two_hosts
      two_terms
      (two_requests 0)
      (ok 1)
      crossed_system.memory
answer_lem_example =
    answer_lem sample_hasher sample_runtime zeros zeros-IsPool 2 two_requests (omega arith)
      two_hosts two_terms crossed AllBelow-crossed 0 (ok 1) (omega arith) zero_answer

append-ends_example :
    (res : Result ℕ) × (crossed_system.calls 0 ≡ ret res)
    × Answered sample_hasher sample_runtime zeros zeros-IsPool 2 two_requests
        (omega arith)
        two_hosts
        two_terms
        (two_requests 0)
        res
        crossed_system.memory
append-ends_example =
    append-ends sample_hasher sample_runtime zeros zeros-IsPool 2 two_requests (omega arith)
      two_hosts two_terms crossed AllBelow-crossed 0 (omega arith) (omega arith)

indices_differ_example : ◌≢◌ {A = ℕ} 1 2
indices_differ_example =
    indices_differ sample_hasher sample_runtime zeros zeros-IsPool 2 two_requests (omega arith)
      two_hosts two_terms crossed AllBelow-crossed 0 1 1 2 (omega arith) (omega arith) (omega arith)
      zero_answer one_answer

settled-IsPool_example :
    IsPool sample_hasher sample_runtime crossed_system.memory
    × ((t : ℕ)
        → get_le 8 zeros.cache 40 ≤ t
        → t < get_le 8 crossed_system.memory.cache 40
        → state_at sample_geometry crossed_system.memory.cache t ≡ state_committed)
    × ((t : ℕ)
        → t < get_le 8 zeros.cache 40
        → SameRecord sample_geometry (get_le 8 zeros.cache 32) t zeros crossed_system.memory)
settled-IsPool_example =
    settled-IsPool sample_hasher sample_runtime zeros zeros-IsPool 2 two_requests (omega arith)
      two_hosts two_terms crossed AllBelow-crossed both_ended

-- The second host stops in the midst of its append, the first one has ended.
abbrev halted : List ℕ
halted = 0 ∷ 1 ∷ 1 ∷ 1 ∷ replicate 40 0

AllBelow-halted : AllBelow 2 halted
AllBelow-halted = search (arith)

abbrev halted_system : System
halted_system = turns halted (start sample_hasher sample_geometry two_requests zeros)

died-recovered_example :
    Ensures
      (λ report l.
        ((t : ℕ) → t < 3 → state_at sample_geometry l.cache t ≢ state_writing)
        × ((i a : ℕ)
            → i < 2
            → halted_system.calls i ≡ ret (ok a)
            → (s : ℕ) × (a ≡ s + 1)
              × Survives sample_hasher sample_runtime zeros zeros-IsPool 2 two_requests
                  (omega arith)
                  two_hosts
                  two_terms
                  halted
                  AllBelow-halted
                  (two_requests i)
                  s
                  l)
        × ((t : ℕ)
            → t < 3
            → state_at sample_geometry zeros.cache t ≡ state_committed
            → (state_at sample_geometry l.cache t ≡ state_committed)
              × Agree zeros.cache l.cache
                  (record_offset sample_geometry t + 1)
                  (record_offset sample_geometry t + sample_geometry.record_size))
        × (report.committed_tail ≡ get_le 8 l.cache 32)
        × (get_le 8 halted_system.memory.cache 32 ≤ get_le 8 l.cache 32)
        × ((t : ℕ)
            → get_le 8 halted_system.memory.cache 32 ≤ t
            → t < get_le 8 l.cache 32
            → state_at sample_geometry l.cache t ≡ state_committed))
      (Recovery.recover sample_hasher sample_geometry)
      halted_system.memory
died-recovered_example =
    died-recovered sample_hasher sample_runtime zeros zeros-IsPool 2 two_requests (omega arith)
      two_hosts two_terms halted AllBelow-halted

-- ===== src/Tests/CrashWitnesses.antt =====
-- The theorem on crashes, applied to an append that is cut short.
use native.Mathlib.Omega.{arith}
use fence.Prelude.{◌+◌, [], ◌∷◌, inl, inr}
use fence.Prelude.Bytes.{poke, to_le, from_le, peek}
use fence.Backend.{Memory, with_cache, get_le, put_le, clwb, fetch_add_u64}
use fence.Engine.{append_at, write_record}
use fence.Crash.{During, before, after, still, evict, other}
use fence.Crash.Append.{CrashSafe}
use fence.Crash.Protocol.{append_at-CrashSafe}
use fence.Tests.PoolWitnesses.{sample-IsGeometry}
use fence.Tests.Samples.{sample_hasher, zeros, sample_runtime}

-- Another host has reserved the next slot.
abbrev reserved : Memory
reserved = with_cache zeros (put_le 8 zeros.cache 40 1)

-- The state WRITING was stored, and its cacheline was evicted.
abbrev writing : Memory
writing = with_cache reserved (poke reserved.cache (64 + 0) (to_le 1 1))

abbrev cut_short : Memory
cut_short = record writing { media = clwb writing.cache writing.media 64 }

interrupted :
    During 64 136 0 ⊥ (append_at sample_hasher sample_runtime 0 7 (9 ∷ [])) zeros cut_short
unfolding append_at write_record get_le from_le peek
interrupted =
    after (other still (fetch_add_u64 40 1) (inl (omega arith)) (inl (inr (omega arith))))
      (before (evict still 64))

append_at-CrashSafe_example : CrashSafe sample_hasher sample_runtime 0 7 (9 ∷ []) ⊥ cut_short
unfolding get_le from_le peek
append_at-CrashSafe_example =
    append_at-CrashSafe sample_hasher sample_runtime 0 7 (9 ∷ []) sample-IsGeometry (omega arith)
      (omega arith) (omega arith) (omega arith) ⊥ zeros cut_short (omega arith) (omega arith)
      (omega arith) (omega arith) interrupted

-- ===== src/Engine/Append.antt =====
-- `append`: the memory that it leaves, on each branch.
use native.Mathlib.Nat.{mod-eq_of_lt}
use fence.Prelude.{
  ℕ, ◌+◌, ◌-◌, ◌%◌, ◌^◌, ◌≤◌, ◌<◌, refl, List, arith, length, ltb→false, leb→false, lt→ltb, le→leb,
}
use fence.Backend.{Memory, with_cache, flushed, get_le, put_le, u64_mod, Word}
use fence.Program.{Runs, Runs-bind}
use fence.FenceError.{ok, err, payload_too_large, pool_full}
use fence.Layout.{record_offset}
use fence.Checksum.{Hasher}
use fence.Metrics
use fence.Metrics.{metrics_appends_total, metrics_appends_failed, metrics_bytes_written}
use fence.Metrics.Counters.{counted, counter-Word}
use fence.Recovery.Sweep.{advanced, swept, advance-Runs}
use fence.Recovery.Check.{Fits}
use fence.Recovery
use fence.Engine.{FenceRuntime, append, append_at, append_full, write_record, commit_record}
use fence.Recovery.Places.{slot-Fits, states-fit, header-Word}
use fence.Engine.Stored.{IsRuntime}
use fence.Engine.Write.{written, write_record-Runs, committed, commit_record-Runs}

-- The tail is swept and the counters of the host are raised.
abbrev pub finished : FenceRuntime → ℕ → Memory → Memory
finished rt n m =
    counted rt.geometry rt.host_id metrics_bytes_written n
      (counted rt.geometry rt.host_id metrics_appends_total 1 (advanced rt.geometry m))

module _ (h : Hasher) (rt : FenceRuntime) where
  -- The record stands flushed in the slot, not yet COMMITTED.
  abbrev pub recorded : ℕ → ℕ → List ℕ → Memory → Memory
  recorded slot term payload m =
      let r = record_offset rt.geometry slot in
      flushed (with_cache m (written h rt r (slot + 1) term payload m.cache)) r
        rt.geometry.record_size

  abbrev pub appended : ℕ → ℕ → List ℕ → Memory → Memory
  appended slot term payload m =
      finished rt (length payload)
        (committed (recorded slot term payload m) (record_offset rt.geometry slot))

  -- A slot is reserved.
  abbrev pub reserved : Memory → Memory
  reserved m = with_cache m (put_le 8 m.cache 40 ((get_le 8 m.cache 40 + 1) % u64_mod))

  append_at-Runs :
      (m : Memory) (slot term : ℕ) (payload : List ℕ)
      → IsRuntime rt m.size
      → slot < rt.geometry.capacity
      → length payload ≤ rt.geometry.payload_size
      → Runs (append_at h rt slot term payload) m (ok (slot + 1)) (appended slot term payload m)
  unfolding append_at Metrics.increment_appends Metrics.increment_bytes_written
  append_at-Runs m slot term payload v small fit =
      rw (mod-eq_of_lt {n = slot} {m = 2 ^ 32} (omega (arith, v.mapped.geometry.capacity_u32))) (
        Runs-bind _ _ (write_record h rt r (slot + 1) term payload) m tt m₁
          (write_record-Runs h rt m r (slot + 1) term payload fits fit)
          (Runs-bind _ _ (commit_record h rt r) m₁ tt m₂ (commit_record-Runs h rt m₁ r fits) (
            Runs-bind _ _ (Recovery.advance_committed_tail rt.geometry) m₂
              (swept rt.geometry m₂.cache) (advanced rt.geometry m₂)
              (advance-Runs rt.geometry m₂ v.mapped.geometry.capacity_u32
                (states-fit rt.geometry m.size v.mapped)
                (header-Word rt.geometry m.size 32 v.mapped (omega arith) refl))
              (
                counter-Word rt.geometry rt.host_id m.size 0 v.mapped v.host (omega arith) refl,
                (
                  counter-Word rt.geometry rt.host_id m.size 16 v.mapped v.host (omega arith) refl,
                  (refl, refl),
                ),
              ))))
    where
      r : ℕ
      r = record_offset rt.geometry slot

      m₁ : Memory
      m₁ = recorded slot term payload m

      m₂ : Memory
      m₂ = committed m₁ r

      fits : Fits rt.geometry m.size r
      fits = slot-Fits rt.geometry m.size slot v.mapped small

  -- A payload that is too large is refused before anything is touched.
  pub append-too_large :
      (m : Memory) (term : ℕ) (payload : List ℕ)
      → rt.geometry.payload_size < length payload
      → Runs
          (append h rt term payload)
          m
          (err (payload_too_large rt.geometry.payload_size (length payload)))
          m
  unfolding append
  append-too_large m term payload big = rw (lt→ltb _ _ big) (refl, refl)

  pub append-reserved :
      (m : Memory) (term : ℕ) (payload : List ℕ)
      → IsRuntime rt m.size
      → get_le 8 m.cache 40 < rt.geometry.capacity
      → length payload ≤ rt.geometry.payload_size
      → Runs
          (append h rt term payload)
          m
          (ok (get_le 8 m.cache 40 + 1))
          (appended (get_le 8 m.cache 40) term payload (reserved m))
  unfolding append
  append-reserved m term payload v room fit = rw (ltb→false _ _ fit) (
    header-Word rt.geometry m.size 40 v.mapped (omega arith) refl,
    rw (leb→false _ _ room) (append_at-Runs (reserved m) _ term payload v room fit),
  )

  -- The memory after an append to a full pool.
  abbrev pub refused : Memory → Memory
  refused m =
      let m₁ = reserved m in
      counted rt.geometry rt.host_id metrics_appends_failed 1
        (with_cache m₁ (put_le 8 m₁.cache 40 ((get_le 8 m₁.cache 40 + (u64_mod - 1)) % u64_mod)))

  pub append-refused :
      (m : Memory) (term : ℕ) (payload : List ℕ)
      → IsRuntime rt m.size
      → rt.geometry.capacity ≤ get_le 8 m.cache 40
      → length payload ≤ rt.geometry.payload_size
      → Runs
          (append h rt term payload)
          m
          (err (pool_full rt.geometry.capacity (get_le 8 m.cache 40)))
          (refused m)
  unfolding append append_full Metrics.increment_appends_failed
  append-refused m term payload v full fit = rw (ltb→false _ _ fit) (
    word,
    rw (le→leb _ _ full) (
      word,
      (
        counter-Word rt.geometry rt.host_id m.size 8 v.mapped v.host (omega arith) refl,
        (refl, refl),
      ),
    ),
  )
    where
      word : Word m.size 40
      word = header-Word rt.geometry m.size 40 v.mapped (omega arith) refl

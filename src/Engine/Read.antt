-- ===== src/Engine/Read.antt =====
-- `read`: what it returns on every branch.
use native.Mathlib.Nat.{mod-eq_of_lt}
use fence.Prelude.{
  ◌≡◌, true, ==_ne, ltb→false, ℕ, ◌+◌, ◌-◌, ◌^◌, ◌≤◌, ◌<◌, refl, arith, Option, none, some, ltb,
  ◌==◌, if◌then◌else◌, ◌||◌, Bool-cases, inl, inr, as_u32,
}
use fence.Prelude.Bytes.{Space}
use fence.Backend.{Memory, get_le, load_u8}
use fence.Program.{Prog, ret, call, Runs, Runs-bind, Runs-eq}
use fence.FenceError.{Result, ok, err, checksum_mismatch, index_out_of_bounds}
use fence.Layout.{record_offset, state_committed}
use fence.Checksum.{Hasher}
use fence.Metrics
use fence.Metrics.{metrics_reads_total, metrics_checksum_failures}
use fence.Metrics.Counters.{counted, counter-Word}
use fence.Recovery.{read_payload}
use fence.Recovery.Sweep.{state_at}
use fence.Recovery.Check.{Fits, intact, len_at, bytes_at, read_payload-Runs}
use fence.Recovery.Places.{slot-Fits, header-Word}
use fence.Engine.Stored.{IsRuntime}
use fence.Engine.{FenceRuntime, Record, read_committed, read_index, committed_tail}

module _ (h : Hasher) (rt : FenceRuntime) where
  -- The record that stands at `r`.
  abbrev pub record_at : Space → ℕ → Record
  record_at c r = record {
    index = get_le 8 c (r + 16);
    term = get_le 8 c (r + 8);
    writer_id = get_le 8 c (r + 24);
    bytes = bytes_at h rt.geometry c r;
  }

  abbrev pub counted_read : Memory → Memory
  counted_read m = counted rt.geometry rt.host_id metrics_reads_total 1 m

  abbrev pub counted_failure : Memory → Memory
  counted_failure m = counted rt.geometry rt.host_id metrics_checksum_failures 1 m

  read_committed-Runs :
      (m : Memory) (r index : ℕ)
      → IsRuntime rt m.size
      → Fits rt.geometry m.size r
      → Runs
          (read_committed h rt r index)
          m
          (if intact h rt.geometry m.cache r
            then ok (some (record_at m.cache r))
            else err (checksum_mismatch index))
          (if intact h rt.geometry m.cache r then counted_read m else counted_failure m)
  unfolding read_committed intact Metrics.increment_reads Metrics.increment_checksum_failures
  read_committed-Runs m r index v f = (
    omega arith,
    (
      omega arith,
      (
        omega arith,
        (
          omega arith,
          (
            omega arith,
            Runs-bind _ _ (read_payload (r + 64) (len_at h rt.geometry m.cache r)) m
                (bytes_at h rt.geometry m.cache r) m
                (read_payload-Runs h rt.geometry m (r + 64) (len_at h rt.geometry m.cache r)
                  (omega arith))
                (elim (Bool-cases (intact h rt.geometry m.cache r)) [
                  | inl good ↦ rw good (
                    counter-Word rt.geometry rt.host_id m.size 24 v.mapped v.host (omega arith)
                        refl,
                    (refl, refl),
                  )
                  | inr bad ↦ rw bad (
                    counter-Word rt.geometry rt.host_id m.size 32 v.mapped v.host (omega arith)
                        refl,
                    (refl, refl),
                  )
                ]),
          ),
        ),
      ),
    ),
  )

  -- What a read of a slot returns, and the memory that it leaves.
  abbrev pub slot_result : Memory → ℕ → ℕ → Result (Option Record)
  slot_result m r index =
      if m.cache (r + 0) == state_committed
      then (if intact h rt.geometry m.cache r
          then ok (some (record_at m.cache r))
          else err (checksum_mismatch index))
      else ok none

  abbrev pub slot_memory : Memory → ℕ → Memory
  slot_memory m r =
      if m.cache (r + 0) == state_committed
      then (if intact h rt.geometry m.cache r then counted_read m else counted_failure m)
      else m

  -- The same for a 1-based index.
  abbrev pub read_result : Memory → ℕ → Result (Option Record)
  read_result m index =
      let tail = get_le 8 m.cache 32 in
      if index == 0 || ltb tail index
      then err (index_out_of_bounds index tail)
      else slot_result m (record_offset rt.geometry (index - 1)) index

  abbrev pub read_memory : Memory → ℕ → Memory
  read_memory m index =
      let tail = get_le 8 m.cache 32 in
      if index == 0 || ltb tail index
      then m
      else slot_memory m (record_offset rt.geometry (index - 1))

  abbrev slot_program : ℕ → Prog (Result (Option Record))
  slot_program index =
      let r = record_offset rt.geometry (as_u32 (index - 1)) in
      call (load_u8 (r + 0))
        (λ state. if state == state_committed then read_committed h rt r index else ret (ok none))

  slot-Runs :
      (m : Memory) (index : ℕ)
      → IsRuntime rt m.size
      → index - 1 < rt.geometry.capacity
      → Runs
          (slot_program index)
          m
          (slot_result m (record_offset rt.geometry (index - 1)) index)
          (slot_memory m (record_offset rt.geometry (index - 1)))
  slot-Runs m index v small =
      rw (mod-eq_of_lt {n = index - 1} {m = 2 ^ 32} (omega (arith, v.mapped.geometry.capacity_u32)))
        (
          omega (arith, fits),
          elim (Bool-cases (m.cache (r + 0) == state_committed)) [
            | inl e ↦
                rw e (Runs-eq _ m (rw e refl) (rw e refl) (read_committed-Runs m r index v fits))
            | inr ne ↦ rw ne (rw ne (refl, refl))
          ],
        )
    where
      r : ℕ
      r = record_offset rt.geometry (index - 1)

      fits : Fits rt.geometry m.size r
      fits = slot-Fits rt.geometry m.size (index - 1) v.mapped small

  -- `read` on a mapped pool whose tail is within the capacity ends without failure. It answers
  -- `IndexOutOfBounds` for index 0 and past the tail; nothing for a slot that is not COMMITTED;
  -- `ChecksumMismatch` where the stored checksum is wrong; otherwise the fields and the payload that
  -- stand in the slot. In the last two cases one counter of the host is raised, and nothing else changes.
  pub read_index-Runs :
      (m : Memory) (index : ℕ)
      → IsRuntime rt m.size
      → get_le 8 m.cache 32 ≤ rt.geometry.capacity
      → Runs (read_index h rt index) m (read_result m index) (read_memory m index)
  unfolding read_index committed_tail
  read_index-Runs m index v tail = (
    header-Word rt.geometry m.size 32 v.mapped (omega arith) refl,
    elim (Bool-cases (index == 0)) [
      | inl none_asked ↦ rw none_asked (rw none_asked (refl, refl))
      | inr ne ↦ rw ne (elim (Bool-cases (ltb (get_le 8 m.cache 32) index)) [
        | inl past ↦ rw past (rw (ne, past) (refl, refl))
        | inr within ↦ rw within (
            Runs-eq (slot_program index) m
              {a = slot_result m (record_offset rt.geometry (index - 1)) index}
              {b = read_result m index} {m' = slot_memory m (record_offset rt.geometry (index - 1))}
              {n = read_memory m index} (rw (ne, within) refl) (rw (ne, within) refl)
              (slot-Runs m index v (ground arith)))
      ])
    ],
  )

  -- A COMMITTED record below the tail that passes its check is what is read.
  pub read_result-intact :
      (m : Memory) (slot : ℕ)
      → slot < get_le 8 m.cache 32
      → state_at rt.geometry m.cache slot ≡ state_committed
      → intact h rt.geometry m.cache (record_offset rt.geometry slot) ≡ true
      → read_result m (slot + 1) ≡ ok (some (record_at m.cache (record_offset rt.geometry slot)))
  read_result-intact m slot below st good =
      let back : slot + 1 - 1 ≡ slot = omega arith in
      rw (
        ==_ne (slot + 1) 0 (omega arith),
        ltb→false (get_le 8 m.cache 32) (slot + 1) (omega arith),
        back,
        st,
        good,
      )

-- ===== src/Engine/Protocol.antt =====
-- The append and read protocol of one host: what a caller may rely on.
use fence.Prelude.{ℕ, ◌+◌, ◌^◌, ◌≤◌, ◌<◌, ◌≡◌, ◌≢◌, refl, ◌∙◌, List, arith, length, some, ap}
use fence.Backend.{Memory, get_le}
use fence.Program.{Ensures, Runs-Ensures, Runs-bind, ◌>>=◌}
use fence.FenceError.{ok}
use fence.Layout.{record_offset, state_committed}
use fence.Checksum.{Hasher, compute}
use fence.Recovery.Sweep.{state_at}
use fence.Recovery.Check.{Agree}
use fence.Engine.{FenceRuntime, Record, append, read_index}
use fence.Engine.Stored.{Stores, intact-Stores, bytes-Stores}
use fence.Engine.Read.{read_result, read_memory, read_result-intact, read_index-Runs, record_at}
use fence.Engine.Append.{appended, reserved, append-reserved}
use fence.Engine.Pool.{
  IsPool, append-IsPool, append-Stores, append-state, append-reserve, append-other,
  append-tail_dense,
}

-- What an append of `payload` under `term` into `slot` makes of the memory.
pub record Appended (h : Hasher) (rt : FenceRuntime) (m : Memory) (slot term : ℕ) (payload : List ℕ)
    (m' : Memory) : Type 0 where
  pub pool : IsPool h rt m'
  pub reserve : get_le 8 m'.cache 40 ≡ slot + 1
  pub state : state_at rt.geometry m'.cache slot ≡ state_committed
  pub dense : get_le 8 m.cache 32 ≡ slot → get_le 8 m'.cache 32 ≡ slot + 1
  pub stored :
      Stores m'.cache
        (record_offset rt.geometry slot)
        term
        (slot + 1)
        rt.host_id
        (compute h term (slot + 1) payload)
        payload
  pub others :
      (s : ℕ)
      → s < rt.geometry.capacity
      → s ≢ slot
      → Agree m.cache m'.cache
          (record_offset rt.geometry s)
          (record_offset rt.geometry s + rt.geometry.record_size)

module _ (h : Hasher) (rt : FenceRuntime) (m : Memory) (term : ℕ) (payload : List ℕ)
    (p : IsPool h rt m) (room : get_le 8 m.cache 40 < rt.geometry.capacity)
    (fit : length payload ≤ rt.geometry.payload_size) (term_u64 : term < 2 ^ 64) where
  abbrev slot : ℕ
  slot = get_le 8 m.cache 40

  abbrev m' : Memory
  m' = appended h rt slot term payload (reserved h rt m)

  after : Appended h rt m slot term payload m'
  after = record {
    pool = append-IsPool h rt m slot term payload p refl room fit term_u64;
    reserve = append-reserve h rt m slot term payload p refl room fit term_u64;
    state = append-state h rt m slot term payload p refl room fit term_u64;
    dense = append-tail_dense h rt m slot term payload p refl room fit term_u64;
    stored = append-Stores h rt m slot term payload p refl room fit term_u64;
    others = append-other h rt m slot term payload p refl room fit term_u64;
  }

  -- An append to a well-formed pool with a free slot and a payload that fits ends without panic,
  -- failed assertion or lack of fuel, returns the 1-based index of the slot that `reserve_tail` named,
  -- and leaves a well-formed pool in which that slot is COMMITTED and holds the term, the index, the
  -- host, the payload and their checksum, `reserve_tail` is one higher, and every other slot is
  -- unchanged; and the committed tail passes that slot where it stood at it.
  pub append_lem :
      Ensures
        (λ res n.
          (res ≡ ok (get_le 8 m.cache 40 + 1))
          × Appended h rt m (get_le 8 m.cache 40) term payload n)
        (append h rt term payload)
        m
  append_lem =
      Runs-Ensures _ (append h rt term payload) m (ok (slot + 1)) m'
        (append-reserved h rt m term payload p.runtime room fit) (refl, after)

  -- The record that the append stored.
  abbrev appended_record : Record
  appended_record = record {
    index = slot + 1;
    term = term;
    writer_id = rt.host_id;
    bytes = payload;
  }

  record_at-after : record_at h rt m'.cache (record_offset rt.geometry slot) ≡ appended_record
  record_at-after = cc (
    after.stored.index_lem,
    after.stored.term_lem,
    after.stored.writer_lem,
    bytes-Stores h rt.geometry m'.cache _ term (slot + 1) rt.host_id payload after.stored fit,
  )

  read_result-after :
      get_le 8 m.cache 32 ≡ get_le 8 m.cache 40
      → read_result h rt m' (slot + 1) ≡ ok (some appended_record)
  read_result-after dense =
      read_result-intact h rt m' slot
        (omega (arith, append-tail_dense h rt m slot term payload p refl room fit term_u64 dense))
        after.state
        (intact-Stores h rt.geometry m'.cache _ term (slot + 1) rt.host_id payload after.stored fit)
      ∙ ap (λ x. ok (some x)) record_at-after

  -- What was appended is read back: where no gap stands before `reserve_tail`, reading the returned
  -- index after the append gives the record with that index, term, host and payload.
  pub append-read :
      get_le 8 m.cache 32 ≡ get_le 8 m.cache 40
      → Ensures
          (λ res n.
            res
            ≡ ok (
                some (record {
                  index = get_le 8 m.cache 40 + 1;
                  term = term;
                  writer_id = rt.host_id;
                  bytes = payload;
                })))
          (append h rt term payload >>= (λ _. read_index h rt (get_le 8 m.cache 40 + 1)))
          m
  append-read dense =
      Runs-bind _ _ (append h rt term payload) m (ok (slot + 1)) m'
        (append-reserved h rt m term payload p.runtime room fit)
        (Runs-Ensures _ (read_index h rt (slot + 1)) m' (read_result h rt m' (slot + 1))
          (read_memory h rt m' (slot + 1))
          (read_index-Runs h rt m' (slot + 1) p.runtime
            (omega (arith, after.pool.tail_le, after.pool.reserve_le)))
          (read_result-after dense))

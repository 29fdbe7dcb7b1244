-- ===== src/Engine/Log.antt =====
-- The abstract log: what a caller of the runtime sees of a pool.
pub mod Keep
pub mod Refine
pub mod Session
pub mod Fresh
use fence.Prelude.{
  ℕ, suc, ◌+◌, ◌-◌, ◌<◌, ◌≤◌, ◌≡◌, List, [], ◌∷◌, ◌++◌, Option, none, some, length, get_elem?, ltb,
  leb, ◌==◌, ◌||◌, if◌then◌else◌,
}
use fence.Backend.{Memory, get_le}
use fence.FenceError.{Result, ok, err, pool_full, payload_too_large, index_out_of_bounds}
use fence.Layout.{record_offset, state_committed}
use fence.Checksum.{Hasher, compute}
use fence.Recovery.Sweep.{state_at}
use fence.Engine.{FenceRuntime, Record}
use fence.Engine.Stored.{Stores}
use fence.Engine.Pool.{IsPool}

pub record Entry : Type 0 where
  pub term : ℕ
  pub writer_id : ℕ
  pub bytes : List ℕ

-- Appending an entry: the answer, and the log afterwards.
abbrev pub log_append : FenceRuntime → List Entry → ℕ → List ℕ → Result ℕ × List Entry
log_append rt log term payload =
    if ltb rt.geometry.payload_size (length payload)
    then (err (payload_too_large rt.geometry.payload_size (length payload)), log)
    else if leb rt.geometry.capacity (length log)
    then (err (pool_full rt.geometry.capacity (length log)), log)
    else (
      ok (length log + 1),
      log ++ (record { term = term; writer_id = rt.host_id; bytes = payload } ∷ []),
    )

-- The record that an entry is read as, by its 1-based index.
abbrev pub record_of : ℕ → Entry → Record
record_of index e = record {
  index = index;
  term = e.term;
  writer_id = e.writer_id;
  bytes = e.bytes;
}

abbrev pub found : ℕ → Option Entry → Option Record
found index none = none
found index (some e) = some (record_of index e)

-- Reading by the 1-based index.
abbrev pub log_read : List Entry → ℕ → Result (Option Record)
log_read log index =
    if index == 0 || ltb (length log) index
    then err (index_out_of_bounds index (length log))
    else ok (found index (get_elem? log (index - 1)))

-- The pool holds the log: entry `s` stands COMMITTED in slot `s`, both tails at its end.
pub record Represents (h : Hasher) (rt : FenceRuntime) (m : Memory) (log : List Entry)
    : Type 0 where
  pub pool : IsPool h rt m
  pub reserve : get_le 8 m.cache 40 ≡ length log
  pub tail : get_le 8 m.cache 32 ≡ length log
  pub entries :
      (s : ℕ) (e : Entry)
      → get_elem? log s ≡ some e
      → (state_at rt.geometry m.cache s ≡ state_committed)
        × Stores m.cache
            (record_offset rt.geometry s)
            e.term
            (s + 1)
            e.writer_id
            (compute h e.term (s + 1) e.bytes)
            e.bytes
        × (length e.bytes ≤ rt.geometry.payload_size)

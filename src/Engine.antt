-- ===== src/Engine.antt =====
-- crates/fence-runtime/src/engine.rs: the runtime's operations on a pool.
pub mod Stored
pub mod Write
pub mod Read
pub mod Append
pub mod Pool
pub mod Full
pub mod Open
pub mod Protocol
pub mod Log
pub mod Recovered
use fence.Prelude.{
  ℕ, zero, suc, ◌+◌, ◌-◌, ◌*◌, ◌^◌, Bool, List, [], ◌∷◌, ◌++◌, Option, none, some, min, length, ltb,
  leb, not, ◌==◌, if◌then◌else◌, as_u32,
}
use fence.Prelude.Bytes.{to_le, from_le}
use fence.Backend.{
  read, write, load_u64, store_u64, fetch_add_u64, load_u8, store_u8, flush, u64_mod,
}
use fence.Program.{Prog, ret, panic, perform, ◌>>=◌, ◌>>◌}
use fence.FenceError.{
  Result, ok, err, pool_full, payload_too_large, checksum_mismatch, invalid_magic,
  index_out_of_bounds,
}
use fence.Layout
use fence.Layout.{
  PoolGeometry, record_offset, cacheline, header_size, record_meta_size, magic, hdr_magic,
  hdr_capacity, hdr_record_size, hdr_max_hosts, hdr_committed_tail, hdr_reserve_tail, hdr_epoch,
  rec_state, rec_term, rec_index, rec_writer_id, rec_data_len, rec_checksum, state_writing,
  state_committed,
}
use fence.Checksum.{Hasher, compute, verify}
use fence.Metrics
use fence.Metrics.{PoolStats}
use fence.Recovery
use fence.Recovery.{RecoveryReport, read_payload}
use fence.Compaction
use fence.Compaction.{TrimResult}

-- `PoolConfig`; the path is in what the mapping returned.
pub record PoolConfig : Type 0 where
  pub capacity : ℕ
  pub payload_size : ℕ
  pub max_hosts : ℕ
  pub host_id : ℕ
  pub create : Bool

pub record Record : Type 0 where
  pub index : ℕ
  pub term : ℕ
  pub writer_id : ℕ
  pub bytes : List ℕ

-- The size of a `Record` on a 64-bit machine: three u64s, and the three words of a `Vec`.
abbrev pub record_bytes : ℕ
record_bytes = 48

-- The backend is the memory that the operations run on.
pub record FenceRuntime : Type 0 where
  pub geometry : PoolGeometry
  pub host_id : ℕ

-- Initialisation of a fresh pool's header.
unfoldable pub write_header : PoolConfig → PoolGeometry → Prog (Unit {0})
write_header config g = do
  perform (store_u64 hdr_magic magic)
  perform (store_u64 hdr_capacity config.capacity)
  perform (store_u64 hdr_record_size g.record_size)
  perform (store_u64 hdr_max_hosts config.max_hosts)
  perform (store_u64 hdr_committed_tail 0)
  perform (store_u64 hdr_reserve_tail 0)
  perform (store_u64 hdr_epoch 1)
  perform (flush 0 header_size)

-- `open` once the geometry is made, or its making panicked.
abbrev pub open_mapped :
    PoolConfig → Result (Unit {0}) → Option PoolGeometry → Prog (Result FenceRuntime)
open_mapped config mapped none = panic
open_mapped config (err e) (some g) = ret (err e)
open_mapped config (ok _) (some g) =
    let opened : Result FenceRuntime = ok (record { geometry = g; host_id = config.host_id }) in
    if config.create
    then write_header config g >> ret opened
    else (perform (load_u64 hdr_magic)
        >>= (λ found. if found == magic then ret opened else ret (err (invalid_magic magic found))))

-- `FenceRuntime::open`. `mapped` is what `open_mmap_backend` returned for the geometry's total size.
unfoldable pub open_pool : PoolConfig → Result (Unit {0}) → Prog (Result FenceRuntime)
open_pool config mapped =
    open_mapped config mapped (Layout.new config.capacity config.payload_size config.max_hosts)

unfoldable pub committed_tail : Prog ℕ
committed_tail = perform (load_u64 hdr_committed_tail)

unfoldable pub reserve_tail : Prog ℕ
reserve_tail = perform (load_u64 hdr_reserve_tail)

module _ (h : Hasher) (rt : FenceRuntime) where
  open rt use {geometry, host_id}

  -- Steps 3 to 6 of `append`: the record is written and flushed.
  unfoldable pub write_record : ℕ → ℕ → ℕ → List ℕ → Prog (Unit {0})
  write_record r index term payload = do
    perform (store_u8 (r + rec_state) state_writing)
    perform (store_u64 (r + rec_term) term)
    perform (store_u64 (r + rec_index) index)
    perform (store_u64 (r + rec_writer_id) host_id)
    perform (write (r + rec_data_len) (to_le 4 (as_u32 (length payload))))
    if ltb 0 (length payload) then perform (write (r + record_meta_size) payload) else ret tt
    perform (store_u64 (r + rec_checksum) (compute h term index payload))
    perform (flush r geometry.record_size)

  -- Step 7: the record becomes COMMITTED.
  unfoldable pub commit_record : ℕ → Prog (Unit {0})
  commit_record r = do
    perform (store_u8 (r + rec_state) state_committed)
    perform (flush r cacheline)

  -- Step 2 where the pool is full. `u64::MAX` is added, which subtracts one.
  unfoldable pub append_full : ℕ → Prog (Result ℕ)
  append_full slot = do
    perform (fetch_add_u64 hdr_reserve_tail (u64_mod - 1))
    Metrics.increment_appends_failed geometry host_id
    ret (err (pool_full geometry.capacity slot))

  -- Steps 3 to 8 and the metrics, in a slot that was reserved.
  unfoldable pub append_at : ℕ → ℕ → List ℕ → Prog (Result ℕ)
  append_at slot term payload = do
    let r = record_offset geometry (as_u32 slot)
    let index = slot + 1
    write_record r index term payload
    commit_record r
    Recovery.advance_committed_tail geometry
    Metrics.increment_appends geometry host_id
    Metrics.increment_bytes_written geometry host_id (length payload)
    ret (ok index)

  unfoldable pub append : ℕ → List ℕ → Prog (Result ℕ)
  append term payload =
      if ltb geometry.payload_size (length payload)
      then ret (err (payload_too_large geometry.payload_size (length payload)))
      else (perform (fetch_add_u64 hdr_reserve_tail 1) >>= (λ slot.
          if leb geometry.capacity slot then append_full slot else append_at slot term payload))

  -- The fields of a COMMITTED record, and its verification.
  unfoldable pub read_committed : ℕ → ℕ → Prog (Result (Option Record))
  read_committed r index = do
    term ← perform (load_u64 (r + rec_term))
    stored_index ← perform (load_u64 (r + rec_index))
    writer_id ← perform (load_u64 (r + rec_writer_id))
    buf ← perform (read (r + rec_data_len) 4)
    stored_crc ← perform (load_u64 (r + rec_checksum))
    payload ← read_payload (r + record_meta_size) (min (from_le buf) geometry.payload_size)
    if not (verify h term stored_index payload stored_crc)
        then Metrics.increment_checksum_failures geometry host_id
          >> ret (err (checksum_mismatch index))
        else Metrics.increment_reads geometry host_id
          >> ret (
              ok (
                some (record {
                  index = stored_index;
                  term = term;
                  writer_id = writer_id;
                  bytes = payload;
                })))

  unfoldable pub read_index : ℕ → Prog (Result (Option Record))
  read_index index = do
    tail ← committed_tail
    if index == 0
        then ret (err (index_out_of_bounds index tail))
        else if ltb tail index
        then ret (err (index_out_of_bounds index tail))
        else (do
          let r = record_offset geometry (as_u32 (index - 1))
          state ← perform (load_u8 (r + rec_state))
          if state == state_committed then read_committed r index else ret (ok none))

  -- What the loop of `read_range` does with one answer; `rest` is what follows.
  abbrev pub collect :
      (List Record → Prog (Result (List Record)))
      → List Record
      → Result (Option Record)
      → Prog (Result (List Record))
  collect rest records (err e) = ret (err e)
  collect rest records (ok none) = rest records
  collect rest records (ok (some entry)) = rest (records ++ (entry ∷ []))

  -- `for idx in start_index..end_index`: `n` indices are left.
  unfoldable pub read_range_from : ℕ → ℕ → List Record → Prog (Result (List Record))
  read_range_from zero idx records = ret (ok records)
  read_range_from (suc n) idx records =
      read_index idx >>= collect (read_range_from n (suc idx)) records

  -- `end_index - start_index` overflows where the range is reversed, and `Vec::with_capacity` panics where
  -- the records would take more than `isize::MAX` bytes.
  unfoldable pub read_range : ℕ → ℕ → Prog (Result (List Record))
  read_range start_index end_index =
      if ltb end_index start_index
      then panic
      else if leb (2 ^ 63) ((end_index - start_index) * record_bytes)
      then panic
      else read_range_from (end_index - start_index) start_index []

  unfoldable pub trim : ℕ → Prog (Result TrimResult)
  trim up_to = Compaction.trim geometry up_to

  unfoldable pub recover : Prog RecoveryReport
  recover = do
    report ← Recovery.recover h geometry
    Metrics.increment_recovery_runs geometry host_id
    if ltb 0 report.abandoned_count
        then Metrics.increment_abandoned_found geometry host_id report.abandoned_count
        else ret tt
    ret report

  unfoldable pub stats : Prog PoolStats
  stats = Metrics.read_stats geometry

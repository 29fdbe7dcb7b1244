-- ===== src/Recovery.antt =====
-- crates/fence-runtime/src/recovery.rs: the scan that repairs slots after a crash, and the sweep that
-- advances `committed_tail`.
pub mod Sweep
pub mod Check
pub mod Places
pub mod Repair
pub mod Outcome
pub mod Protocol
use fence.Prelude.{
  ℕ, zero, suc, ◌+◌, ◌-◌, Bool, List, [], min, ◌||◌, ltb, ◌==◌, if◌then◌else◌, as_u32,
}
use fence.Prelude.Bytes.{from_le}
use fence.Backend.{read, load_u64, compare_exchange_u64, load_u8, store_u8, flush, swapped, actual}
use fence.Program.{Prog, ret, out_of_fuel, call, perform, ◌>>=◌, ◌>>◌}
use fence.Layout.{
  PoolGeometry, record_offset, cacheline, record_meta_size, hdr_committed_tail, hdr_reserve_tail,
  rec_state, rec_term, rec_index, rec_data_len, rec_checksum, state_free, state_writing,
  state_committed, state_abandoned,
}
use fence.Checksum.{Hasher, verify}

pub record RecoveryReport : Type 0 where
  pub abandoned_count : ℕ
  pub committed_tail : ℕ
  pub slots_scanned : ℕ

-- The buffer of `len` bytes that is read only where it is not empty.
abbrev pub read_payload : ℕ → ℕ → Prog (List ℕ)
read_payload offset len = if ltb 0 len then perform (read offset len) else ret []

-- Marks the record at `r` ABANDONED; the answer is what `abandoned_count` grows by.
unfoldable pub abandon : ℕ → Prog ℕ
abandon r = do
  perform (store_u8 (r + rec_state) state_abandoned)
  perform (flush r cacheline)
  ret 1

module _ (h : Hasher) (g : PoolGeometry) where
  -- Whether the stored checksum of the record at `r` matches its fields.
  unfoldable pub check_record : ℕ → Prog Bool
  check_record r = do
    term ← perform (load_u64 (r + rec_term))
    index ← perform (load_u64 (r + rec_index))
    buf ← perform (read (r + rec_data_len) 4)
    stored ← perform (load_u64 (r + rec_checksum))
    payload ← read_payload (r + record_meta_size) (min (from_le buf) g.payload_size)
    ret (verify h term index payload stored)

  unfoldable pub recover_slot : ℕ → Prog ℕ
  recover_slot slot = do
    let r = record_offset g slot
    state ← perform (load_u8 (r + rec_state))
    if state == state_writing
        then abandon r
        else if state == state_committed
        then check_record r >>= (λ valid. if valid then ret 0 else abandon r)
        else if state == state_free || state == state_abandoned
        then ret 0
        else abandon r

  -- `for slot in 0..slots_to_scan`: `n` slots are left.
  unfoldable pub recover_scan : ℕ → ℕ → ℕ → Prog ℕ
  recover_scan zero slot abandoned_count = ret abandoned_count
  recover_scan (suc n) slot abandoned_count =
      recover_slot slot >>= (λ k. recover_scan n (suc slot) (abandoned_count + k))

module _ (g : PoolGeometry) where
  -- `while new_tail < capacity`: `n` slots are left.
  unfoldable pub scan_committed : ℕ → ℕ → Prog ℕ
  scan_committed zero new_tail = ret new_tail
  scan_committed (suc n) new_tail =
      call (load_u8 (record_offset g (as_u32 new_tail) + rec_state)) (λ state.
        if state == state_committed then scan_committed n (suc new_tail) else ret new_tail)

  -- The compare-and-swap loop, on fuel.
  unfoldable pub advance_loop : ℕ → Prog ℕ
  advance_loop zero = out_of_fuel
  advance_loop (suc fuel) = do
    current_tail ← perform (load_u64 hdr_committed_tail)
    new_tail ← scan_committed (g.capacity - current_tail) current_tail
    if new_tail == current_tail
        then ret current_tail
        else call (compare_exchange_u64 hdr_committed_tail current_tail new_tail)
            (λ answer. elim answer [ swapped _ ↦ ret new_tail | actual _ ↦ advance_loop fuel ])

  -- The tail only grows and ends at `capacity`, so it can forestall the exchange `capacity` times.
  unfoldable pub advance_committed_tail : Prog ℕ
  unfolding advance_loop
  advance_committed_tail = advance_loop (suc g.capacity)

module _ (h : Hasher) (g : PoolGeometry) where
  unfoldable pub recover : Prog RecoveryReport
  recover = do
    reserve_tail ← perform (load_u64 hdr_reserve_tail)
    let slots_to_scan = min reserve_tail g.capacity
    abandoned_count ← recover_scan h g (as_u32 slots_to_scan) 0 0
    committed_tail ← advance_committed_tail g
    ret (record {
      abandoned_count = abandoned_count;
      committed_tail = committed_tail;
      slots_scanned = slots_to_scan;
    })

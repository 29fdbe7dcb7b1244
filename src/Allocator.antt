-- ===== src/Allocator.antt =====
-- crates/fence-alloc/src/allocator.rs: named regions in a pool.
pub mod Entries
pub mod Find
pub mod Agree
pub mod Space
pub mod Write
pub mod Slots
pub mod Create
pub mod Disjoint
pub mod Recover
pub mod Free
pub mod Fresh
pub mod Listed
use fence.Prelude.{
  same_string, ℕ, zero, suc, ◌+◌, ◌-◌, ◌*◌, ◌%◌, ◌&&◌, ◌||◌, Bool, true, false, List, [], ◌∷◌,
  Option, none, some, length, ltb, ◌==◌, if◌then◌else◌,
}
use fence.Backend.{load_u64, store_u64, store_u8, flush}
use fence.Program.{Prog, ret, call, perform, ◌>>=◌, ◌>>◌}
use fence.FenceError.{FenceError}
use fence.Metrics.{add_u64}
use fence.Catalog.{
  RegionState, free, allocating, active, freeing, as_u8, alloc_magic, catalog_header_size,
  catalog_entry_size, max_name_len, max_regions, cat_hdr_magic, cat_hdr_region_count,
  cat_hdr_total_size, cat_hdr_data_start, ent_state, entry_offset, CatalogEntry, read_entry,
  write_entry,
}
use fence.Region.{RegionHandle}

-- What the text of `InvalidState` is made of.
pub data Detail : Type 0 where
  bad_magic : ℕ → Detail
  name_too_long : Detail

pub data AllocError : Type 0 where
  catalog_full : AllocError
  name_exists : List ℕ → AllocError
  out_of_space : ℕ → ℕ → AllocError
  not_found : List ℕ → AllocError
  invalid_state : Detail → AllocError
  backend : FenceError → AllocError

pub data AllocResult (A : Type 0) : Type 0 where
  ok : A → AllocResult A
  err : AllocError → AllocResult A

-- The backend is the memory that the operations run on.
pub record RegionAllocator : Type 0 where
  pub base : ℕ
  pub pool_size : ℕ

abbrev pub is_active : RegionState → Bool
is_active active = true
is_active _ = false

abbrev pub is_allocating : RegionState → Bool
is_allocating allocating = true
is_allocating _ = false

abbrev pub is_free : RegionState → Bool
is_free free = true
is_free _ = false

-- `for i in 0..MAX_REGIONS`: `n` entries are left.
unfoldable pub free_entries : ℕ → ℕ → ℕ → Prog (Unit {0})
free_entries zero base i = ret tt
free_entries (suc n) base i =
    call (store_u8 (entry_offset base i + ent_state) (as_u8 free))
      (λ _. free_entries n base (suc i))

unfoldable pub init : ℕ → ℕ → Prog (AllocResult RegionAllocator)
init base pool_size =
    let catalog_size = catalog_header_size + max_regions * catalog_entry_size in
    if ltb pool_size catalog_size then ret (err (out_of_space catalog_size pool_size)) else (do
      data_start ← add_u64 base catalog_size
      perform (store_u64 (base + cat_hdr_magic) alloc_magic)
      perform (store_u64 (base + cat_hdr_region_count) 0)
      perform (store_u64 (base + cat_hdr_total_size) pool_size)
      perform (store_u64 (base + cat_hdr_data_start) data_start)
      perform (flush base catalog_header_size)
      free_entries max_regions base 0
      perform (flush (base + catalog_header_size) (max_regions * catalog_entry_size))
      ret (ok (record { base = base; pool_size = pool_size })))

unfoldable pub open_allocator : ℕ → ℕ → Prog (AllocResult RegionAllocator)
open_allocator base pool_size = do
  found ← perform (load_u64 (base + cat_hdr_magic))
  ret (
      if found == alloc_magic
      then ok (record { base = base; pool_size = pool_size })
      else err (invalid_state (bad_magic found)))

-- The state byte of an entry is stored and flushed.
unfoldable pub set_state : RegionAllocator → ℕ → RegionState → Prog (Unit {0})
set_state a i state = do
  let o = entry_offset a.base i
  perform (store_u8 (o + ent_state) (as_u8 state))
  perform (flush o 64)

abbrev pub handle_of : ℕ → CatalogEntry → RegionHandle
handle_of i entry = record { slot = i; name = entry.name; offset = entry.offset; size = entry.size }

module _ (lossy : List ℕ → List ℕ) (a : RegionAllocator) where
  unfoldable pub find_from : ℕ → ℕ → List ℕ → Prog (AllocResult RegionHandle)
  find_from zero i name = ret (err (not_found name))
  find_from (suc n) i name = read_entry lossy a.base i >>= (λ entry.
      if is_active entry.state && same_string entry.name name
      then ret (ok (handle_of i entry))
      else find_from n (suc i) name)

  unfoldable pub find_region : List ℕ → Prog (AllocResult RegionHandle)
  find_region name = find_from max_regions 0 name

  unfoldable pub list_from : ℕ → ℕ → Prog (List RegionHandle)
  list_from zero i = ret []
  list_from (suc n) i = do
    entry ← read_entry lossy a.base i
    rest ← list_from n (suc i)
    ret (if is_active entry.state then handle_of i entry ∷ rest else rest)

  unfoldable pub list_regions : Prog (List RegionHandle)
  list_regions = list_from max_regions 0

  unfoldable pub recover_entry : ℕ → Prog ℕ
  recover_entry i = read_entry lossy a.base i >>= (λ entry. elim entry.state [
    | allocating ↦ set_state a i free >> ret 1
    | freeing ↦ set_state a i free >> ret 1
    | free ↦ ret 0
    | active ↦ ret 0
  ])

  unfoldable pub recover_from : ℕ → ℕ → ℕ → Prog ℕ
  recover_from zero i fixed = ret fixed
  recover_from (suc n) i fixed = recover_entry i >>= (λ k. recover_from n (suc i) (fixed + k))

  unfoldable pub recover : Prog ℕ
  recover = recover_from max_regions 0 0

  unfoldable pub free_slot_from : ℕ → ℕ → Prog (Option ℕ)
  free_slot_from zero i = ret none
  free_slot_from (suc n) i =
      read_entry lossy a.base i
      >>= (λ entry. if is_free entry.state then ret (some i) else free_slot_from n (suc i))

  unfoldable pub find_free_slot : Prog (Option ℕ)
  find_free_slot = free_slot_from max_regions 0

  unfoldable pub max_end_from : ℕ → ℕ → ℕ → Prog ℕ
  max_end_from zero i max_end = ret max_end
  max_end_from (suc n) i max_end = read_entry lossy a.base i >>= (λ entry.
      if is_active entry.state || is_allocating entry.state
      then add_u64 entry.offset entry.size
        >>= (λ end. max_end_from n (suc i) (if ltb max_end end then end else max_end))
      else max_end_from n (suc i) max_end)

  -- `(max_end + 63) & !63`.
  unfoldable pub next_free_offset : ℕ → Prog ℕ
  next_free_offset data_start = do
    max_end ← max_end_from max_regions 0 data_start
    sum ← add_u64 max_end 63
    ret (sum - sum % 64)

  -- From the region that was found on.
  unfoldable pub free_at : ℕ → Prog (AllocResult (Unit {0}))
  free_at slot = do
    set_state a slot freeing
    set_state a slot free
    count ← perform (load_u64 (a.base + cat_hdr_region_count))
    if ltb 0 count
        then (do
          perform (store_u64 (a.base + cat_hdr_region_count) (count - 1))
          perform (flush a.base catalog_header_size)
          ret (ok tt))
        else ret (ok tt)

  abbrev pub free_found : AllocResult RegionHandle → Prog (AllocResult (Unit {0}))
  free_found (err e) = ret (err e)
  free_found (ok handle) = free_at handle.slot

  unfoldable pub free_region : List ℕ → Prog (AllocResult (Unit {0}))
  free_region name = find_region name >>= free_found

  -- From the slot that was found on.
  unfoldable pub create_at : List ℕ → ℕ → ℕ → Prog (AllocResult RegionHandle)
  create_at name size slot = do
    data_start ← perform (load_u64 (a.base + cat_hdr_data_start))
    region_offset ← next_free_offset data_start
    pool_end ← add_u64 a.base a.pool_size
    end ← add_u64 region_offset size
    if ltb pool_end end then ret (err (out_of_space size (pool_end - region_offset))) else (do
      write_entry a.base slot (record {
        state = allocating;
        name = name;
        offset = region_offset;
        size = size;
        created_epoch = 0;
      })
      set_state a slot active
      count ← perform (load_u64 (a.base + cat_hdr_region_count))
      raised ← add_u64 count 1
      perform (store_u64 (a.base + cat_hdr_region_count) raised)
      perform (flush a.base catalog_header_size)
      ret (ok (record { slot = slot; name = name; offset = region_offset; size = size })))

  -- What follows the searches for the name and for a free slot.
  abbrev pub create_in : List ℕ → ℕ → Option ℕ → Prog (AllocResult RegionHandle)
  create_in name size none = ret (err catalog_full)
  create_in name size (some slot) = create_at name size slot

  abbrev pub create_unless : List ℕ → ℕ → AllocResult RegionHandle → Prog (AllocResult RegionHandle)
  create_unless name size (ok handle) = ret (err (name_exists name))
  create_unless name size (err e) = find_free_slot >>= create_in name size

  unfoldable pub create_region : List ℕ → ℕ → Prog (AllocResult RegionHandle)
  create_region name size =
      if ltb max_name_len (length name)
      then ret (err (invalid_state name_too_long))
      else find_region name >>= create_unless name size

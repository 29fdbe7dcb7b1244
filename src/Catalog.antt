-- ===== src/Catalog.antt =====
-- crates/fence-alloc/src/catalog.rs: the catalog of the region allocator.
-- A string is the list of its bytes. `from_utf8_lossy`, which replaces what is not UTF-8, is the
-- parameter `lossy`.
use fence.Prelude.{
  ℕ, ◌+◌, ◌*◌, ◌&&◌, List, [], Option, none, some, min, length, take, ltb, leb, ◌==◌, if◌then◌else◌,
}
use fence.Prelude.Bytes.{to_le, from_le}
use fence.Backend.{read, write, load_u64, store_u64, load_u8, store_u8, flush}
use fence.Program.{Prog, ret, perform, ◌>>=◌, ◌>>◌}

abbrev pub alloc_magic : ℕ
alloc_magic = 0x46454E43455F414C

abbrev pub catalog_header_size : ℕ
catalog_header_size = 64

abbrev pub catalog_entry_size : ℕ
catalog_entry_size = 64

abbrev pub max_name_len : ℕ
max_name_len = 24

abbrev pub max_regions : ℕ
max_regions = 256

pub data RegionState : Type 0 where
  free : RegionState
  allocating : RegionState
  active : RegionState
  freeing : RegionState

-- The discriminant, `as u8`.
abbrev pub as_u8 : RegionState → ℕ
as_u8 free = 0
as_u8 allocating = 1
as_u8 active = 2
as_u8 freeing = 3

unfoldable pub from_u8 : ℕ → Option RegionState
from_u8 val =
    if val == 0
    then some free
    else if val == 1
    then some allocating
    else if val == 2
    then some active
    else if val == 3
    then some freeing
    else none

abbrev unwrap_or : Option RegionState → RegionState → RegionState
unwrap_or none d = d
unwrap_or (some s) d = s

abbrev pub cat_hdr_magic : ℕ
cat_hdr_magic = 0

abbrev pub cat_hdr_region_count : ℕ
cat_hdr_region_count = 8

abbrev pub cat_hdr_total_size : ℕ
cat_hdr_total_size = 16

abbrev pub cat_hdr_data_start : ℕ
cat_hdr_data_start = 24

pub record CatalogEntry : Type 0 where
  pub state : RegionState
  pub name : List ℕ
  pub offset : ℕ
  pub size : ℕ
  pub created_epoch : ℕ

abbrev pub ent_state : ℕ
ent_state = 0

abbrev pub ent_name_len : ℕ
ent_name_len = 2

abbrev pub ent_name : ℕ
ent_name = 4

abbrev pub ent_offset : ℕ
ent_offset = 32

abbrev pub ent_size : ℕ
ent_size = 40

abbrev pub ent_epoch : ℕ
ent_epoch = 48

abbrev pub entry_offset : ℕ → ℕ → ℕ
entry_offset base index = base + catalog_header_size + index * catalog_entry_size

-- The state of an entry by its byte; a byte that names no state counts as FREE.
unfoldable pub state_of : ℕ → RegionState
unfolding from_u8
state_of val = unwrap_or (from_u8 val) free

module _ (lossy : List ℕ → List ℕ) where
  abbrev pub read_name : ℕ → ℕ → Prog (List ℕ)
  read_name offset name_len =
      if ltb 0 name_len && leb name_len max_name_len
      then (do buf ← perform (read (offset + ent_name) name_len); ret (lossy buf))
      else ret []

  unfoldable pub read_entry : ℕ → ℕ → Prog CatalogEntry
  read_entry base index = do
    let offset = entry_offset base index
    state_byte ← perform (load_u8 (offset + ent_state))
    buf ← perform (read (offset + ent_name_len) 2)
    name ← read_name offset (from_le buf)
    region_offset ← perform (load_u64 (offset + ent_offset))
    size ← perform (load_u64 (offset + ent_size))
    created_epoch ← perform (load_u64 (offset + ent_epoch))
    ret (record {
      state = state_of state_byte;
      name = name;
      offset = region_offset;
      size = size;
      created_epoch = created_epoch;
    })

abbrev pub write_name : ℕ → List ℕ → ℕ → Prog (Unit {0})
write_name offset name name_len =
    if ltb 0 name_len then perform (write (offset + ent_name) (take name_len name)) else ret tt

unfoldable pub write_entry : ℕ → ℕ → CatalogEntry → Prog (Unit {0})
write_entry base index entry = do
  let offset = entry_offset base index
  let name_len = min (length entry.name) max_name_len
  perform (write (offset + ent_name_len) (to_le 2 name_len))
  write_name offset entry.name name_len
  perform (store_u64 (offset + ent_offset) entry.offset)
  perform (store_u64 (offset + ent_size) entry.size)
  perform (store_u64 (offset + ent_epoch) entry.created_epoch)
  perform (flush offset catalog_entry_size)
  perform (store_u8 (offset + ent_state) (as_u8 entry.state))
  perform (flush offset 64)

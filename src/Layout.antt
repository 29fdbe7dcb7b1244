-- ===== src/Layout.antt =====
-- crates/fence-core/src/layout.rs: the binary format of a pool and the offsets into it.
-- `u32`, `u64` and `usize` values are numbers; a sum that would overflow
-- panics.
pub mod Bounds
pub mod Regions
pub mod Structs
use fence.Prelude.{ℕ, ◌+◌, ◌*◌, ◌^◌, Option, none, some, ◌||◌, leb, ◌==◌, if◌then◌else◌}

abbrev pub magic : ℕ
magic = 0x46454E43455F4C4F

abbrev pub header_size : ℕ
header_size = 64

abbrev pub record_meta_size : ℕ
record_meta_size = 64

abbrev pub cacheline : ℕ
cacheline = 64

abbrev pub state_free : ℕ
state_free = 0

abbrev pub state_writing : ℕ
state_writing = 1

abbrev pub state_committed : ℕ
state_committed = 2

abbrev pub state_abandoned : ℕ
state_abandoned = 3

abbrev pub hdr_magic : ℕ
hdr_magic = 0

abbrev pub hdr_capacity : ℕ
hdr_capacity = 8

abbrev pub hdr_record_size : ℕ
hdr_record_size = 16

abbrev pub hdr_max_hosts : ℕ
hdr_max_hosts = 24

abbrev pub hdr_committed_tail : ℕ
hdr_committed_tail = 32

abbrev pub hdr_reserve_tail : ℕ
hdr_reserve_tail = 40

abbrev pub hdr_epoch : ℕ
hdr_epoch = 48

abbrev pub rec_state : ℕ
rec_state = 0

abbrev pub rec_term : ℕ
rec_term = 8

abbrev pub rec_index : ℕ
rec_index = 16

abbrev pub rec_writer_id : ℕ
rec_writer_id = 24

abbrev pub rec_data_len : ℕ
rec_data_len = 32

abbrev pub rec_checksum : ℕ
rec_checksum = 40

abbrev pub rec_payload : ℕ
rec_payload = record_meta_size

pub record PoolGeometry : Type 0 where
  pub capacity : ℕ
  pub payload_size : ℕ
  pub max_hosts : ℕ
  pub record_size : ℕ
  pub total_size : ℕ

-- `PoolGeometry::new`; `none` is a panic: one of its three assertions, or the overflow of
-- `record_size`. The sums of 64-bit values do not overflow (`Layout.Bounds`).
unfoldable pub new : ℕ → ℕ → ℕ → Option PoolGeometry
new capacity payload_size max_hosts =
    if capacity == 0 || (payload_size == 0 || (max_hosts == 0 || leb (2 ^ 32) record_size))
    then none
    else some (record {
      capacity = capacity;
      payload_size = payload_size;
      max_hosts = max_hosts;
      record_size = record_size;
      total_size = header_size + record_size * capacity + cacheline * max_hosts;
    })
  where
    record_size : ℕ
    record_size = record_meta_size + payload_size

-- The offset functions stay below 2 ^ 64 (`Layout.Bounds`), so no wrap is written.
abbrev pub record_offset : PoolGeometry → ℕ → ℕ
record_offset g slot = header_size + slot * g.record_size

abbrev pub payload_offset : PoolGeometry → ℕ → ℕ
payload_offset g slot = record_offset g slot + record_meta_size

abbrev pub metrics_offset : PoolGeometry → ℕ → ℕ
metrics_offset g host_id = header_size + g.capacity * g.record_size + host_id * cacheline

abbrev pub payload_max : PoolGeometry → ℕ
payload_max g = g.payload_size

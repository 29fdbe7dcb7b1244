-- ===== src/Layout/Structs.antt =====
-- crates/fence-core/src/layout.rs: the structs that mirror a record's metadata and a metrics block, laid
-- out as `repr(C)` does: each field at the next multiple of its alignment.
use fence.Prelude.{ℕ, ◌+◌, ◌-◌, ◌*◌, ◌/◌, List, [], ◌∷◌}

-- The size and the alignment of a field's type.
pub record Field : Type 0 where
  pub size : ℕ
  pub align : ℕ

abbrev u8 : Field
u8 = record { size = 1; align = 1 }

abbrev u32 : Field
u32 = record { size = 4; align = 4 }

abbrev u64 : Field
u64 = record { size = 8; align = 8 }

-- `[u8; n]`.
abbrev bytes : ℕ → Field
bytes n = record { size = n; align = 1 }

-- The next multiple of `align`.
abbrev round_up : ℕ → ℕ → ℕ
round_up align offset = (offset + (align - 1)) / align * align

abbrev pub offsets_from : ℕ → List Field → List ℕ
offsets_from offset [] = []
offsets_from offset (f ∷ fs) =
    let at = round_up f.align offset in at ∷ offsets_from (at + f.size) fs

abbrev pub offsets_of : List Field → List ℕ
offsets_of fields = offsets_from 0 fields

abbrev end_from : ℕ → List Field → ℕ
end_from offset [] = offset
end_from offset (f ∷ fs) = end_from (round_up f.align offset + f.size) fs

-- `align(n)`: the size is a multiple of `n`.
abbrev pub size_of : ℕ → List Field → ℕ
size_of align fields = round_up align (end_from 0 fields)

-- state, _pad1, term, index, writer_id, data_len, _pad2, checksum, _pad3
abbrev pub record_meta : List Field
record_meta = u8 ∷ bytes 7 ∷ u64 ∷ u64 ∷ u64 ∷ u32 ∷ bytes 4 ∷ u64 ∷ bytes 16 ∷ []

-- appends_total, appends_failed, bytes_written, reads_total, checksum_failures, recovery_runs,
-- abandoned_found, _padding
abbrev pub metrics_block : List Field
metrics_block = u64 ∷ u64 ∷ u64 ∷ u64 ∷ u64 ∷ u64 ∷ u64 ∷ bytes 8 ∷ []

-- ===== src/Tests/LayoutUnits.antt =====
-- crates/fence-core/src/layout.rs and crates/fence-alloc/src/region.rs: their unit tests, run
-- on the model.
use fence.Prelude.{
  ℕ, ◌+◌, ◌*◌, Bool, true, false, not, ◌==◌, ◌&&◌, List, [], ◌∷◌, Option, none, some, ◌≡◌, refl,
  get_elem?,
}
use fence.Layout
use fence.Layout.{
  PoolGeometry, new, record_offset, payload_offset, metrics_offset, header_size, record_meta_size,
  cacheline, rec_state, rec_term, rec_index, rec_writer_id, rec_data_len, rec_checksum,
}
use fence.Layout.Structs.{record_meta, metrics_block, offsets_of, size_of}
use fence.Region.{RegionHandle, contains, absolute_offset}

abbrev is_at : List ℕ → ℕ → ℕ → Bool
is_at offsets field constant = elim (get_elem? offsets field) [
  | none ↦ false
  | some o ↦ o == constant
]

abbrev record_meta_size_is_64 : Bool
record_meta_size_is_64 = size_of 64 record_meta == record_meta_size

abbrev record_meta_offsets_match_constants : Bool
record_meta_offsets_match_constants =
    is_at (offsets_of record_meta) 0 rec_state
    && (is_at (offsets_of record_meta) 2 rec_term
        && (is_at (offsets_of record_meta) 3 rec_index
            && (is_at (offsets_of record_meta) 4 rec_writer_id
                && (is_at (offsets_of record_meta) 5 rec_data_len
                    && is_at (offsets_of record_meta) 7 rec_checksum))))

abbrev metrics_block_size_is_64 : Bool
metrics_block_size_is_64 = size_of 64 metrics_block == cacheline

-- What a test asserts of the geometry; a panic of `new` fails it.
abbrev of_geometry : Option PoolGeometry → (PoolGeometry → Bool) → Bool
of_geometry none check = false
of_geometry (some g) check = check g

abbrev panics : Option PoolGeometry → Bool
panics none = true
panics (some g) = false

abbrev geometry_record_offset : Bool
geometry_record_offset = of_geometry (new 1024 192 4) (λ g.
    g.record_size == 256
    && (record_offset g 0 == header_size && record_offset g 1 == header_size + 256))

abbrev geometry_payload_offset : Bool
geometry_payload_offset =
    of_geometry (new 1024 192 4) (λ g. payload_offset g 0 == header_size + record_meta_size)

abbrev geometry_metrics_offset : Bool
geometry_metrics_offset = of_geometry (new 1024 192 4) (λ g.
    let records_end = header_size + 1024 * 256 in
    metrics_offset g 0 == records_end
    && (metrics_offset g 1 == records_end + cacheline
        && metrics_offset g 3 == records_end + 3 * cacheline))

abbrev geometry_total_size : Bool
geometry_total_size = of_geometry (new 1024 192 4) (λ g. g.total_size == 64 + 1024 * 256 + 4 * 64)

abbrev geometry_rejects_zero_capacity : Bool
geometry_rejects_zero_capacity = panics (new 0 192 4)

abbrev geometry_rejects_zero_payload : Bool
geometry_rejects_zero_payload = panics (new 1024 0 4)

abbrev geometry_rejects_zero_hosts : Bool
geometry_rejects_zero_hosts = panics (new 1024 192 0)

abbrev handle_at : ℕ → ℕ → RegionHandle
handle_at offset size = record {
  slot = 0;
  name = 116 ∷ 101 ∷ 115 ∷ 116 ∷ [];
  offset = offset;
  size = size;
}

abbrev answers : Option Bool → Bool → Bool
answers none expected = false
answers (some true) expected = expected
answers (some false) expected = not expected

abbrev is_offset : Option ℕ → ℕ → Bool
is_offset none expected = false
is_offset (some n) expected = n == expected

abbrev contains_check : Bool
contains_check =
    let handle = handle_at 1000 500 in
    answers (contains handle 1000 100) true
    && (answers (contains handle 1000 500) true
        && (answers (contains handle 1000 501) false && answers (contains handle 999 1) false))

abbrev absolute_offset_calc : Bool
absolute_offset_calc =
    let handle = handle_at 4096 1024 in
    is_offset (absolute_offset handle 0) 4096 && is_offset (absolute_offset handle 100) 4196

-- Each test passes.
units_layout :
    (record_meta_size_is_64 ≡ true)
    × (record_meta_offsets_match_constants ≡ true)
    × (metrics_block_size_is_64 ≡ true)
    × (geometry_record_offset ≡ true)
    × (geometry_payload_offset ≡ true)
    × (geometry_metrics_offset ≡ true)
    × (geometry_total_size ≡ true)
    × (geometry_rejects_zero_capacity ≡ true)
    × (geometry_rejects_zero_payload ≡ true)
    × (geometry_rejects_zero_hosts ≡ true)
    × (contains_check ≡ true)
    × (absolute_offset_calc ≡ true)
unfolding Layout.new contains absolute_offset
units_layout = (refl, refl, refl, refl, refl, refl, refl, refl, refl, refl, refl, refl)

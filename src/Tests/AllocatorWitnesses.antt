-- ===== src/Tests/AllocatorWitnesses.antt =====
-- The theorems on the region allocator, applied to small catalogs.
use native.Mathlib.Omega.{arith}
use fence.Prelude.{
  ◌≢◌, ℕ, ◌<◌, ◌≤◌, ◌≡◌, ◌+◌, ◌%◌, ◌-◌, ap, refl, List, [], ◌∷◌, ◌==◌, if◌then◌else◌, true, false,
}
use fence.Prelude.Bytes.{from_le, peek}
use fence.Backend.{Memory, get_le}
use fence.Program.{Ensures}
use fence.Catalog
use fence.Catalog.{entry_offset}
use fence.Allocator.Recover.{recover-settles, settled, unsettled_count}
use fence.Allocator.Free.{FreeResult, free_region_lem}
use fence.Allocator.{free_region, recover, RegionAllocator, create_region, find_region}
use fence.Allocator.Entries.{IsCatalog}
use fence.Allocator.Find.{entry, Answers, find_region_lem}
use fence.Allocator.Space.{live, end_of, Ends, place, highest_idle}
use fence.Allocator.Create.{CreateResult, create_region_lem, placed_apart}
use fence.Allocator.Disjoint.{Disjoint, create-Disjoint}

-- Every name is UTF-8.
abbrev keep : List ℕ → List ℕ
keep bs = bs

abbrev sample_allocator : RegionAllocator
sample_allocator = record { base = 0; pool_size = 20480 }

-- An empty catalog: its data start at 16448.
abbrev empty_catalog : Memory
empty_catalog = record {
  size = 20480;
  cache = λ a. if a == 24 then 64 else if a == 25 then 64 else 0;
  media = λ a. 0;
}

empty-IsCatalog : IsCatalog sample_allocator empty_catalog.size
empty-IsCatalog = record { aligned = refl; within = omega arith }

empty-unused : (a : ℕ) → 64 ≤ a → empty_catalog.cache a ≡ 0
empty-unused a h = ground arith

none_live : (i : ℕ) → live keep sample_allocator empty_catalog.cache i ≡ false
unfolding Catalog.state_of
none_live i = rw (empty-unused (entry_offset 0 i + 0) (omega arith)) refl

empty-Ends : Ends keep sample_allocator empty_catalog.cache
empty-Ends i lt st = absurd (ground (arith, none_live i, st))

empty-Disjoint : Disjoint keep sample_allocator empty_catalog.cache
empty-Disjoint s t ls lt ne ss st = absurd (ground (arith, none_live s, ss))

placed_lem :
    place keep sample_allocator empty_catalog.cache (get_le 8 empty_catalog.cache 24) ≡ 16448
unfolding get_le from_le peek
placed_lem =
    ap (λ (x : ℕ). x + 63 - (x + 63) % 64)
      (highest_idle keep sample_allocator empty_catalog.cache 256 0
        (get_le 8 empty_catalog.cache 24) none_live)

create_region_lem_example :
    Ensures
      (CreateResult keep sample_allocator empty_catalog (108 ∷ 111 ∷ 103 ∷ []) 4000)
      (create_region keep sample_allocator (108 ∷ 111 ∷ 103 ∷ []) 4000)
      empty_catalog
unfolding get_le from_le peek
create_region_lem_example =
    create_region_lem keep sample_allocator empty_catalog (108 ∷ 111 ∷ 103 ∷ []) 4000
      empty-IsCatalog empty-Ends (omega arith) refl (omega (arith, placed_lem)) (omega arith)
      (omega arith)

create-Disjoint_example :
    Ensures
      (λ res n. Disjoint keep sample_allocator n.cache)
      (create_region keep sample_allocator (108 ∷ 111 ∷ 103 ∷ []) 4000)
      empty_catalog
unfolding get_le from_le peek
create-Disjoint_example =
    create-Disjoint keep sample_allocator empty_catalog (108 ∷ 111 ∷ 103 ∷ []) 4000 empty-Disjoint
      empty-IsCatalog empty-Ends (omega arith) refl (omega (arith, placed_lem)) (omega arith)
      (omega arith)

-- The first entry is ACTIVE and bears the name "a".
abbrev one_region : Memory
one_region = record empty_catalog {
  cache = λ a.
      if a == 8 then 1 else if a == 64 then 2 else if a == 66 then 1 else if a == 68 then 97 else 0;
}

find_region_lem_example :
    Ensures
      (λ res k.
        (k ≡ one_region) × Answers keep sample_allocator one_region.cache (97 ∷ []) 0 256 res)
      (find_region keep sample_allocator (97 ∷ []))
      one_region
find_region_lem_example = find_region_lem keep sample_allocator one_region empty-IsCatalog (97 ∷ [])

placed_apart_example :
    (get_le 8 empty_catalog.cache 24
      ≤ place keep sample_allocator empty_catalog.cache (get_le 8 empty_catalog.cache 24))
    × (place keep sample_allocator empty_catalog.cache (get_le 8 empty_catalog.cache 24) % 64 ≡ 0)
    × ((s : ℕ)
        → s < 256
        → live keep sample_allocator empty_catalog.cache s ≡ true
        → end_of keep sample_allocator empty_catalog.cache s
          ≤ place keep sample_allocator empty_catalog.cache (get_le 8 empty_catalog.cache 24))
placed_apart_example = placed_apart keep sample_allocator empty_catalog [] 4000

-- The allocation of the first entry was cut short.
abbrev half_allocated : Memory
half_allocated = record empty_catalog { cache = λ a. if a == 64 then 1 else 0 }

recover-settles_example :
    Ensures
      (λ fixed n.
        (fixed ≡ unsettled_count keep sample_allocator half_allocated.cache 256 0)
        × ((s : ℕ)
            → s < 256
            → entry keep sample_allocator n.cache s
              ≡ record (entry keep sample_allocator half_allocated.cache s) {
                state = settled (entry keep sample_allocator half_allocated.cache s).state;
              })
        × ((p : ℕ) → ((s : ℕ) → p ≢ entry_offset 0 s + 0) → n.cache p ≡ half_allocated.cache p))
      (recover keep sample_allocator)
      half_allocated
recover-settles_example = recover-settles keep sample_allocator half_allocated empty-IsCatalog

free_region_lem_example :
    Ensures
      (FreeResult keep sample_allocator one_region (97 ∷ []))
      (free_region keep sample_allocator (97 ∷ []))
      one_region
unfolding get_le from_le peek
free_region_lem_example =
    free_region_lem keep sample_allocator one_region empty-IsCatalog (omega arith) (97 ∷ [])

-- ===== src/Tests/CatalogWitnesses.antt =====
-- The theorems on new catalogs and on lists of regions, applied to a small memory.
use fence.Prelude.{ℕ, ◌≡◌, arith, refl, List, [], ◌∷◌}
use fence.Backend.{Memory}
use fence.Program.{Ensures, Runs, ret, ◌>>=◌}
use fence.Region.{RegionHandle}
use fence.Allocator.{
  RegionAllocator, AllocResult, ok, init, open_allocator, list_regions, find_region,
}
use fence.Allocator.Fresh.{InitResult, init_lem, init-open-list}
use fence.Allocator.Listed.{pick, list_regions_lem}

-- Every name is UTF-8.
abbrev utf8 : List ℕ → List ℕ
utf8 bs = bs

-- A memory of old data.
abbrev sevens : Memory
sevens = record { size = 20544; cache = λ a. 7; media = λ a. 7 }

abbrev new_allocator : RegionAllocator
new_allocator = record { base = 64; pool_size = 20480 }

init_lem_example :
    Ensures
      (InitResult utf8 64 20480 sevens refl (omega arith) (omega arith))
      (init 64 20480)
      sevens
init_lem_example = init_lem utf8 64 20480 sevens refl (omega arith) (omega arith)

init-open-list_example :
    Ensures
      (λ (x : AllocResult RegionAllocator × List RegionHandle) n.
        (x.0 ≡ ok new_allocator) × (x.1 ≡ []))
      (init 64 20480 >>= (λ _.
        open_allocator 64 20480
        >>= (λ opened. list_regions utf8 new_allocator >>= (λ handles. ret (opened, handles)))))
      sevens
init-open-list_example =
    init-open-list utf8 64 20480 sevens refl (omega arith) (omega arith) (omega arith)

list_regions_lem_example :
    Ensures
      (λ handles n.
        (n ≡ sevens)
        × Runs (find_region utf8 new_allocator (97 ∷ [])) sevens (pick (97 ∷ []) handles) sevens)
      (list_regions utf8 new_allocator)
      sevens
list_regions_lem_example =
    list_regions_lem utf8 new_allocator sevens (record { aligned = refl; within = omega arith })
      (97 ∷ [])

-- ===== src/Allocator/Listed.antt =====
-- `list_regions` against `find_region`.
use fence.Prelude.{
  ℕ, zero, suc, ◌+◌, ◌≤◌, ◌≡◌, refl, arith, List, [], ◌∷◌, Bool-cases, inl, inr, if◌then◌else◌,
  same_string,
}
use fence.Prelude.Bytes.{Space}
use fence.Backend.{Memory}
use fence.Program.{Ensures, Runs, Runs-bind, Runs-Ensures}
use fence.Region.{RegionHandle}
use fence.Allocator.{
  RegionAllocator, AllocResult, ok, err, not_found, is_active, handle_of, find_region, list_from,
  list_regions,
}
use fence.Allocator.Entries.{IsCatalog, read_entry-Runs}
use fence.Allocator.Find.{entry, first_from, find_region-Runs}

-- The first handle of a list that has the name.
unfoldable pub pick : List ℕ → List RegionHandle → AllocResult RegionHandle
pick name [] = err (not_found name)
pick name (r ∷ rs) = let rest = pick name rs in if same_string r.name name then ok r else rest

module _ (lossy : List ℕ → List ℕ) (a : RegionAllocator) where
  -- The handles of the ACTIVE entries.
  unfoldable pub listed : Space → ℕ → ℕ → List RegionHandle
  listed c zero i = []
  listed c (suc n) i =
      let rest = listed c n (suc i) in
      if is_active (entry lossy a c i).state then handle_of i (entry lossy a c i) ∷ rest else rest

  pick-listed :
      (c : Space) (name : List ℕ) (n i : ℕ)
      → pick name (listed c n i) ≡ first_from lossy a c name n i
  unfolding pick listed first_from
  pick-listed c name zero i = refl
  pick-listed c name (suc n) i = elim (Bool-cases (is_active (entry lossy a c i).state)) [
    | inl on ↦ elim (Bool-cases (same_string (entry lossy a c i).name name)) [
      | inl same ↦ rw (on, same) refl
      | inr other ↦ rw (on, other) (pick-listed c name n (suc i))
    ]
    | inr off ↦ rw off (pick-listed c name n (suc i))
  ]

  module _ (m : Memory) (v : IsCatalog a m.size) where
    list_from-Runs : (n i : ℕ) → i + n ≤ 256 → Runs (list_from lossy a n i) m (listed m.cache n i) m
    unfolding list_from listed
    list_from-Runs zero i le = (refl, refl)
    list_from-Runs (suc n) i le =
        Runs-bind _ _ _ m (entry lossy a m.cache i) m (read_entry-Runs lossy a m i v (omega arith))
          (Runs-bind _ _ (list_from lossy a n (suc i)) m (listed m.cache n (suc i)) m
            (list_from-Runs n (suc i) (omega arith)) (refl, refl))

    -- Where the catalog is aligned and lies in the mapping, `list_regions` ends without failure
    -- and changes nothing, and for every name `find_region` answers the first of the listed
    -- handles that has it, or `NotFound` where none has.
    pub list_regions_lem :
        (name : List ℕ)
        → Ensures
            (λ handles n. (n ≡ m) × Runs (find_region lossy a name) m (pick name handles) m)
            (list_regions lossy a)
            m
    unfolding list_regions
    list_regions_lem name =
        Runs-Ensures _ (list_from lossy a 256 0) m (listed m.cache 256 0) m
          (list_from-Runs 256 0 (omega arith))
          (refl, rw (pick-listed m.cache name 256 0) (find_region-Runs lossy a m v name))

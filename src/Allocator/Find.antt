-- ===== src/Allocator/Find.antt =====
-- `find_region` against the entries of the catalog.
use fence.Prelude.{
  same_string, ℕ, zero, suc, ◌+◌, ◌≤◌, ◌<◌, ◌≡◌, refl, arith, ◌&&◌, Bool, List, true, false,
  Bool-cases, inl, inr, eq-cases, if◌then◌else◌,
}
use fence.Prelude.Bytes.{Space}
use fence.Backend.{Memory}
use fence.Program.{Ensures, Runs, Runs-bind, Runs-Ensures}
use fence.Catalog.{CatalogEntry, entry_offset}
use fence.Region.{RegionHandle}
use fence.Allocator.{
  RegionAllocator, AllocResult, ok, err, not_found, is_active, handle_of, find_from, find_region,
}
use fence.Allocator.Entries.{IsCatalog, entry_at, read_entry-Runs}

module _ (lossy : List ℕ → List ℕ) (a : RegionAllocator) where
  abbrev pub entry : Space → ℕ → CatalogEntry
  entry c i = entry_at lossy c (entry_offset a.base i)

  -- Entry `i` is ACTIVE and bears the name.
  abbrev pub bears : Space → List ℕ → ℕ → Bool
  bears c name i = is_active (entry c i).state && same_string (entry c i).name name

  -- What a search for `name` among the entries in `[lo, hi)` has to answer: the first that bears it, or
  -- that none does.
  abbrev pub Answers : Space → List ℕ → ℕ → ℕ → AllocResult RegionHandle → Type 0
  Answers c name lo hi (ok found) =
      (lo ≤ found.slot)
      × (found.slot < hi)
      × (found ≡ handle_of found.slot (entry c found.slot))
      × (bears c name found.slot ≡ true)
      × ((s : ℕ) → lo ≤ s → s < found.slot → bears c name s ≡ false)
  Answers c name lo hi (err e) =
      (e ≡ not_found name) × ((s : ℕ) → lo ≤ s → s < hi → bears c name s ≡ false)

  Answers-miss :
      (c : Space) (name : List ℕ) (i hi : ℕ) (res : AllocResult RegionHandle)
      → bears c name i ≡ false
      → Answers c name (suc i) hi res
      → Answers c name i hi res
  Answers-miss c name i hi (ok found) ne (lo, lt, same, hit, first) = (
    omega arith,
    lt,
    same,
    hit,
    λ s l u. elim (eq-cases s i) [ inl e ↦ rw e ne | inr gt ↦ first s (omega arith) u ],
  )
  Answers-miss c name i hi (err x) ne (e, none_bears) =
      (e, λ s l u. elim (eq-cases s i) [ inl e ↦ rw e ne | inr gt ↦ none_bears s (omega arith) u ])

  -- The answer of the search, as a function of the catalog.
  unfoldable pub first_from : Space → List ℕ → ℕ → ℕ → AllocResult RegionHandle
  first_from c name zero i = err (not_found name)
  first_from c name (suc n) i =
      let rest = first_from c name n (suc i) in
      if bears c name i then ok (handle_of i (entry c i)) else rest

  pub first_from-Answers :
      (c : Space) (name : List ℕ) (n i hi : ℕ)
      → i + n ≡ hi
      → Answers c name i hi (first_from c name n i)
  unfolding first_from
  first_from-Answers c name zero i hi h = (refl, λ s l u. absurd (omega arith))
  first_from-Answers c name (suc n) i hi h = elim (Bool-cases (bears c name i)) [
    | inl e ↦ rw e (omega arith, omega arith, refl, e, λ s l u. absurd (omega arith))
    | inr ne ↦ rw ne (
        Answers-miss c name i hi (first_from c name n (suc i)) ne
          (first_from-Answers c name n (suc i) hi (omega arith)))
  ]

  module _ (m : Memory) (v : IsCatalog a m.size) where
    find_from-Runs :
        (name : List ℕ) (n i : ℕ)
        → i + n ≤ 256
        → Runs (find_from lossy a n i name) m (first_from m.cache name n i) m
    unfolding find_from first_from
    find_from-Runs name zero i le = (refl, refl)
    find_from-Runs name (suc n) i le =
        Runs-bind _ _ _ m (entry m.cache i) m (read_entry-Runs lossy a m i v (omega arith))
          (elim (Bool-cases (bears m.cache name i)) [
            | inl e ↦ rw e (refl, refl)
            | inr ne ↦ rw ne (find_from-Runs name n (suc i) (omega arith))
          ])

    pub find_region-Runs :
        (name : List ℕ) → Runs (find_region lossy a name) m (first_from m.cache name 256 0) m
    unfolding find_region
    find_region-Runs name = find_from-Runs name 256 0 (omega arith)

    -- `find_region` ends without failure, changes nothing, and answers the first ACTIVE entry of the
    -- catalog that bears the name, with its slot, offset and size, or `NotFound` where none does.
    pub find_region_lem :
        (name : List ℕ)
        → Ensures (λ res k. (k ≡ m) × Answers m.cache name 0 256 res) (find_region lossy a name) m
    find_region_lem name =
        Runs-Ensures _ _ m (first_from m.cache name 256 0) m (find_region-Runs name)
          (refl, first_from-Answers m.cache name 256 0 256 refl)

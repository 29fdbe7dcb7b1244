-- ===== src/Allocator/Slots.antt =====
-- `find_free_slot` against the entries of the catalog.
use fence.Prelude.{
  ℕ, zero, suc, ◌+◌, ◌≤◌, ◌<◌, ◌≡◌, refl, arith, Bool, List, true, false, Option, none, some,
  Bool-cases, inl, inr, eq-cases, if◌then◌else◌,
}
use fence.Prelude.Bytes.{Space}
use fence.Backend.{Memory}
use fence.Program.{Runs, Runs-bind}
use fence.Allocator.{RegionAllocator, is_free, free_slot_from, find_free_slot}
use fence.Allocator.Entries.{IsCatalog, read_entry-Runs}
use fence.Allocator.Find.{entry}

module _ (lossy : List ℕ → List ℕ) (a : RegionAllocator) where
  abbrev pub unused : Space → ℕ → Bool
  unused c i = is_free (entry lossy a c i).state

  unfoldable pub first_free : Space → ℕ → ℕ → Option ℕ
  first_free c zero i = none
  first_free c (suc n) i = let rest = first_free c n (suc i) in if unused c i then some i else rest

  -- The answer of the search among the entries in `[lo, hi)`.
  abbrev pub IsFirst : Space → ℕ → ℕ → Option ℕ → Type 0
  IsFirst c lo hi (some i) =
      (lo ≤ i) × (i < hi) × (unused c i ≡ true) × ((s : ℕ) → lo ≤ s → s < i → unused c s ≡ false)
  IsFirst c lo hi none = (s : ℕ) → lo ≤ s → s < hi → unused c s ≡ false

  IsFirst-miss :
      (c : Space) (i hi : ℕ) (res : Option ℕ)
      → unused c i ≡ false
      → IsFirst c (suc i) hi res
      → IsFirst c i hi res
  IsFirst-miss c i hi (some t) e h = (
    omega (arith, h.0),
    h.1,
    h.2,
    λ s l u. elim (eq-cases s i) [ inl same ↦ rw same e | inr ne ↦ h.3 s (omega arith) u ],
  )
  IsFirst-miss c i hi none e h =
      λ s l u. elim (eq-cases s i) [ inl same ↦ rw same e | inr ne ↦ h s (omega arith) u ]

  pub first_free-IsFirst : (c : Space) (n i hi : ℕ) → i + n ≡ hi → IsFirst c i hi (first_free c n i)
  unfolding first_free
  first_free-IsFirst c zero i hi h = λ s l u. absurd (omega arith)
  first_free-IsFirst c (suc n) i hi h = elim (Bool-cases (unused c i)) [
    | inl e ↦ rw e (omega arith, omega arith, e, λ s l u. absurd (omega arith))
    | inr ne ↦ rw ne (
        IsFirst-miss c i hi (first_free c n (suc i)) ne
          (first_free-IsFirst c n (suc i) hi (omega arith)))
  ]

  module _ (m : Memory) (v : IsCatalog a m.size) where
    free_slot_from-Runs :
        (n i : ℕ) → i + n ≤ 256 → Runs (free_slot_from lossy a n i) m (first_free m.cache n i) m
    unfolding free_slot_from first_free
    free_slot_from-Runs zero i le = (refl, refl)
    free_slot_from-Runs (suc n) i le =
        Runs-bind _ _ _ m (entry lossy a m.cache i) m (read_entry-Runs lossy a m i v (omega arith))
          (elim (Bool-cases (unused m.cache i)) [
            | inl e ↦ rw e (refl, refl)
            | inr ne ↦ rw ne (free_slot_from-Runs n (suc i) (omega arith))
          ])

    pub find_free_slot-Runs : Runs (find_free_slot lossy a) m (first_free m.cache 256 0) m
    unfolding find_free_slot
    find_free_slot-Runs = free_slot_from-Runs 256 0 (omega arith)

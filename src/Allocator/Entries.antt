-- ===== src/Allocator/Entries.antt =====
-- What the entries of a catalog say, and how they are read.
use fence.Prelude.{
  ℕ, ◌+◌, ◌*◌, ◌%◌, ◌≤◌, ◌<◌, ◌≡◌, refl, arith, ◌&&◌, List, [], ltb, leb, if◌then◌else◌, Bool-cases,
  inl, inr,
}
use fence.Prelude.Bytes.{Space, peek, from_le}
use fence.Backend.{Memory, get_le}
use fence.Program.{Runs, Runs-bind}
use fence.Catalog.{CatalogEntry, entry_offset, state_of, read_entry, read_name, max_name_len}
use fence.Allocator.{RegionAllocator}

-- The catalog of `a` lies in a memory of `size` bytes, with its atomics aligned.
pub record IsCatalog (a : RegionAllocator) (size : ℕ) : Type 0 where
  pub aligned : a.base % 8 ≡ 0
  pub within : a.base + 64 + 256 * 64 ≤ size

module _ (lossy : List ℕ → List ℕ) where
  abbrev pub name_at : Space → ℕ → List ℕ
  name_at c o =
      let n = from_le (peek c (o + 2) 2) in
      if ltb 0 n && leb n max_name_len then lossy (peek c (o + 4) n) else []

  -- The entry in the 64 bytes at `o`.
  abbrev pub entry_at : Space → ℕ → CatalogEntry
  entry_at c o = record {
    state = state_of (c (o + 0));
    name = name_at c o;
    offset = get_le 8 c (o + 32);
    size = get_le 8 c (o + 40);
    created_epoch = get_le 8 c (o + 48);
  }

  read_name-Runs :
      (m : Memory) (o n : ℕ)
      → o + 64 ≤ m.size
      → Runs
          (read_name lossy o n)
          m
          (if ltb 0 n && leb n max_name_len then lossy (peek m.cache (o + 4) n) else [])
          m
  read_name-Runs m o n fits = elim (Bool-cases (ltb 0 n && leb n max_name_len)) [
    | inl e ↦ rw e (ground arith, (refl, refl))
    | inr e ↦ rw e (refl, refl)
  ]

  pub read_entry-Runs :
      (a : RegionAllocator) (m : Memory) (i : ℕ)
      → IsCatalog a m.size
      → i < 256
      → Runs (read_entry lossy a.base i) m (entry_at m.cache (entry_offset a.base i)) m
  unfolding read_entry
  read_entry-Runs a m i v small = (
    omega (arith, v.within),
    (
      omega (arith, v.within),
      Runs-bind _ _ (read_name lossy o (from_le (peek m.cache (o + 2) 2))) m (name_at m.cache o) m
          (read_name-Runs m o (from_le (peek m.cache (o + 2) 2)) (omega (arith, v.within)))
          (
            omega (arith, v.within, v.aligned),
            (
              omega (arith, v.within, v.aligned),
              (omega (arith, v.within, v.aligned), (refl, refl)),
            ),
          ),
    ),
  )
    where
      o : ℕ
      o = entry_offset a.base i

-- ===== src/Allocator/Free.antt =====
-- `free_region` on every branch.
use fence.Prelude.{
  ℕ, ◌+◌, ◌-◌, ◌^◌, ◌<◌, ◌≡◌, ◌≢◌, refl, ◌∙◌, ap, arith, List, true, false, Bool-cases, inl, inr,
  ltb,
}
use fence.Prelude.Bytes.{poke, poke-outside, to_le, length-to_le}
use fence.Backend.{Memory, with_cache, flushed, get_le, put_le}
use fence.Backend.Fields.{put_le-outside, get_le-put_le_self}
use fence.Program.{Ensures, Runs-bind}
use fence.Recovery.Check.{get_le-Agree}
use fence.Catalog
use fence.Catalog.{CatalogEntry, free, freeing, entry_offset}
use fence.Region.{RegionHandle}
use fence.Allocator.{
  RegionAllocator, AllocResult, ok, err, not_found, find_region, free_region, free_at, free_found,
  set_state,
}
use fence.Allocator.Entries.{IsCatalog}
use fence.Allocator.Find.{entry, bears, Answers, first_from, first_from-Answers, find_region-Runs}
use fence.Allocator.Agree.{entry_at-Agree, entry_at-poke}

module _ (lossy : List ℕ → List ℕ) (a : RegionAllocator) (m : Memory) where
  -- The entry is marked FREEING and then FREE.
  abbrev stated : ℕ → ℕ → Memory → Memory
  stated i v n =
      flushed (with_cache n (poke n.cache (entry_offset a.base i + 0) (to_le 1 v)))
        (entry_offset a.base i) 64

  abbrev emptied : ℕ → Memory
  emptied i = stated i 0 (stated i 3 m)

  abbrev counted_down : ℕ → Memory
  counted_down i =
      let n = emptied i in
      flushed (with_cache n (put_le 8 n.cache (a.base + 8) (get_le 8 n.cache (a.base + 8) - 1)))
        a.base 64

  -- What freeing entry `i` makes of the memory.
  pub record Freed (i : ℕ) (n : Memory) : Type 0 where
    pub entry_lem : entry lossy a n.cache i ≡ record (entry lossy a m.cache i) { state = free }
    pub others : (s : ℕ) → s < 256 → s ≢ i → entry lossy a n.cache s ≡ entry lossy a m.cache s
    pub count : get_le 8 n.cache (a.base + 8) ≡ get_le 8 m.cache (a.base + 8) - 1

  outside-emptied : (i p : ℕ) → p ≢ entry_offset a.base i + 0 → (emptied i).cache p ≡ m.cache p
  outside-emptied i p ne =
      poke-outside (stated i 3 m).cache (entry_offset a.base i + 0) (to_le 1 0) p
        (omega (arith, length-to_le 1 0))
      ∙ poke-outside m.cache (entry_offset a.base i + 0) (to_le 1 3) p
          (omega (arith, length-to_le 1 3))

  entry-emptied :
      (i : ℕ)
      → entry lossy a (emptied i).cache i ≡ record (entry lossy a m.cache i) { state = free }
  unfolding Catalog.state_of
  entry-emptied i =
      entry_at-poke lossy (stated i 3 m).cache (entry_offset a.base i) 0 (omega arith)
      ∙ ap (λ (e : CatalogEntry). record e { state = free })
          (entry_at-poke lossy m.cache (entry_offset a.base i) 3 (omega arith))

  count-emptied : (i : ℕ) → get_le 8 (emptied i).cache (a.base + 8) ≡ get_le 8 m.cache (a.base + 8)
  count-emptied i =
      get_le-Agree 8 m.cache (emptied i).cache (a.base + 8) (a.base + 8) (a.base + 16)
        (λ p lo hi. outside-emptied i p (omega arith)) (omega arith) (omega arith)

  other-emptied : (i s : ℕ) → s ≢ i → entry lossy a (emptied i).cache s ≡ entry lossy a m.cache s
  other-emptied i s ne =
      entry_at-Agree lossy m.cache (emptied i).cache (entry_offset a.base s)
        (λ p lo hi. outside-emptied i p (omega arith))

  emptied-Freed : (i : ℕ) → get_le 8 m.cache (a.base + 8) ≡ 0 → Freed i (emptied i)
  emptied-Freed i none_left = record {
    entry_lem = entry-emptied i;
    others = λ s lt ne. other-emptied i s ne;
    count = omega (arith, count-emptied i, none_left);
  }

  counted-Freed : (i : ℕ) → get_le 8 m.cache (a.base + 8) < 2 ^ 64 → Freed i (counted_down i)
  counted-Freed i small = record {
    entry_lem =
        entry_at-Agree lossy (emptied i).cache (counted_down i).cache (entry_offset a.base i)
          (λ p lo hi. put_le-outside 8 (emptied i).cache (a.base + 8) _ p (omega arith))
        ∙ entry-emptied i;
    others = λ s lt ne.
        entry_at-Agree lossy (emptied i).cache (counted_down i).cache (entry_offset a.base s)
          (λ p lo hi. put_le-outside 8 (emptied i).cache (a.base + 8) _ p (omega arith))
        ∙ other-emptied i s ne;
    count =
        get_le-put_le_self 8 (emptied i).cache (a.base + 8) _ (omega (arith, count-emptied i))
        ∙ ap (λ k. k - 1) (count-emptied i);
  }

  -- What `free_region` has to answer, and the memory that goes with it.
  abbrev pub FreeResult : List ℕ → AllocResult (Unit {0}) → Memory → Type 0
  FreeResult name (ok _) n = (i : ℕ) × (i < 256) × (bears lossy a m.cache name i ≡ true) × Freed i n
  FreeResult name (err e) n =
      (e ≡ not_found name) × (n ≡ m) × ((s : ℕ) → s < 256 → bears lossy a m.cache name s ≡ false)

  module _ (v : IsCatalog a m.size) (small : get_le 8 m.cache (a.base + 8) < 2 ^ 64)
      (name : List ℕ) where
    free_at_lem :
        (i : ℕ)
        → i < 256
        → bears lossy a m.cache name i ≡ true
        → Ensures (FreeResult name) (free_at lossy a i) m
    unfolding free_at set_state
    free_at_lem i lt hit = (
      omega (arith, v.within),
      (
        omega (arith, v.within),
        (
          omega (arith, v.within),
          (
            omega (arith, v.within),
            (
              omega (arith, v.within, v.aligned),
              elim (Bool-cases (ltb 0 (get_le 8 (emptied i).cache (a.base + 8)))) [
                | inl some_left ↦ rw some_left (
                  omega (arith, v.within, v.aligned),
                  (omega (arith, v.within), (i, lt, hit, counted-Freed i small)),
                )
                | inr none_left ↦
                    rw none_left
                      (i, lt, hit, emptied-Freed i (ground (arith, count-emptied i, none_left)))
              ],
            ),
          ),
        ),
      ),
    )

    free_found_lem :
        (found : AllocResult RegionHandle)
        → Answers lossy a m.cache name 0 256 found
        → Ensures (FreeResult name) (free_found lossy a found) m
    free_found_lem (ok region) h = free_at_lem region.slot h.1 h.3
    free_found_lem (err e) h = (h.0, refl, λ s lt. h.1 s (omega arith) lt)

    -- `free_region` on a mapped catalog whose count is a u64 ends without failure. Where an ACTIVE entry
    -- bears the name, such an entry becomes FREE and keeps its other fields, no other entry changes, and
    -- the count falls by one, or stays at 0; otherwise it answers `NotFound` and changes nothing.
    pub free_region_lem : Ensures (FreeResult name) (free_region lossy a name) m
    unfolding free_region
    free_region_lem =
        Runs-bind _ _ (find_region lossy a name) m (first_from lossy a m.cache name 256 0) m
          (find_region-Runs lossy a m v name)
          (free_found_lem _ (first_from-Answers lossy a m.cache name 256 0 256 refl))

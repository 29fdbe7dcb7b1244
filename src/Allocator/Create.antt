-- ===== src/Allocator/Create.antt =====
-- `create_region` on every branch.
use fence.Prelude.{
  ℕ, ◌+◌, ◌-◌, ◌%◌, ◌^◌, ◌≤◌, ◌<◌, ◌≡◌, ◌≢◌, refl, ◌∙◌, ap, arith, List, true, false, Option, none,
  some, inl, inr, le-cases, length, lt→ltb, ltb→false, ◌⊎◌,
}
use fence.Prelude.Bytes.{poke, poke-outside, to_le, length-to_le}
use fence.Backend.{Memory, with_cache, flushed, get_le, put_le}
use fence.Backend.Fields.{put_le-outside, get_le-put_le_self}
use fence.Program.{Ensures, Runs, Runs-bind, Runs-Ensures}
use fence.Recovery.Check.{get_le-Agree}
use fence.Catalog
use fence.Catalog.{CatalogEntry, allocating, active, entry_offset, write_entry, state_of}
use fence.Region.{RegionHandle}
use fence.Allocator.{
  RegionAllocator, AllocResult, ok, err, name_exists, catalog_full, out_of_space, not_found,
  invalid_state, name_too_long, backend, create_region, create_at, create_in, create_unless,
  set_state, find_region, find_free_slot,
}
use fence.Allocator.Entries.{IsCatalog}
use fence.Allocator.Find.{entry, bears, Answers, first_from, first_from-Answers, find_region-Runs}
use fence.Allocator.Slots.{unused, first_free, IsFirst, first_free-IsFirst, find_free_slot-Runs}
use fence.Allocator.Space.{live, end_of, Ends, place, place-Above, next_free_offset-Runs}
use fence.Allocator.Write.{entered, entered-outside, entry_at-fields, fields, write_entry-Runs}
use fence.Allocator.Agree.{entry_at-Agree, entry_at-poke}

module _ (lossy : List ℕ → List ℕ) (a : RegionAllocator) (m : Memory) (name : List ℕ)
    (size : ℕ) where
  abbrev start : ℕ
  start = place lossy a m.cache (get_le 8 m.cache (a.base + 24))

  abbrev made : CatalogEntry
  made = record { state = allocating; name = name; offset = start; size = size; created_epoch = 0 }

  abbrev activated : ℕ → Memory
  activated i =
      let o = entry_offset a.base i in
      let m₁ = entered m o made in flushed (with_cache m₁ (poke m₁.cache (o + 0) (to_le 1 2))) o 64

  abbrev created : ℕ → Memory
  created i =
      let m₂ = activated i in
      flushed (with_cache m₂ (put_le 8 m₂.cache (a.base + 8) (get_le 8 m₂.cache (a.base + 8) + 1)))
        a.base 64

  -- What an allocation in entry `i` makes of the memory.
  pub record Created (i : ℕ) (n : Memory) : Type 0 where
    pub entry_lem :
        entry lossy a n.cache i
        ≡ record { state = active; name = name; offset = start; size = size; created_epoch = 0 }
    pub others : (s : ℕ) → s < 256 → s ≢ i → entry lossy a n.cache s ≡ entry lossy a m.cache s
    pub count : get_le 8 n.cache (a.base + 8) ≡ get_le 8 m.cache (a.base + 8) + 1

  outside-activated :
      (i p : ℕ)
      → (p < entry_offset a.base i) ⊎ (entry_offset a.base i + 64 ≤ p)
      → (activated i).cache p ≡ m.cache p
  outside-activated i p out =
      poke-outside (entered m (entry_offset a.base i) made).cache (entry_offset a.base i + 0)
        (to_le 1 2) p (omega (arith, length-to_le 1 2))
      ∙ entered-outside m (entry_offset a.base i) made p out

  count-activated :
      (i : ℕ) → get_le 8 (activated i).cache (a.base + 8) ≡ get_le 8 m.cache (a.base + 8)
  count-activated i =
      get_le-Agree 8 m.cache (activated i).cache (a.base + 8) (a.base + 8) (a.base + 16)
        (λ p lo hi. outside-activated i p (omega arith)) (omega arith) (omega arith)

  module _ (short : length name ≤ 24) (clean : lossy name ≡ name) (fits : start + size < 2 ^ 64)
      (few : get_le 8 m.cache (a.base + 8) + 1 < 2 ^ 64) (i : ℕ) (small : i < 256) where
    abbrev o : ℕ
    o = entry_offset a.base i

    entry-activated :
        entry lossy a (activated i).cache i
        ≡ record { state = active; name = name; offset = start; size = size; created_epoch = 0 }
    unfolding Catalog.state_of
    entry-activated =
        entry_at-poke lossy (entered m o made).cache o 2 (omega arith)
        ∙ ap (λ (e : CatalogEntry). record e { state = active })
            (entry_at-poke lossy (fields m.cache o made) o 1 (omega arith)
              ∙ ap (λ (e : CatalogEntry). record e { state = allocating })
                  (entry_at-fields lossy m.cache o made short clean (omega arith) (omega arith)
                    (omega arith)))

    created-Created : Created i (created i)
    created-Created = record {
      entry_lem =
          entry_at-Agree lossy (activated i).cache (created i).cache o
            (λ p lo hi. put_le-outside 8 (activated i).cache (a.base + 8) _ p (omega arith))
          ∙ entry-activated;
      others = λ s lt ne.
          entry_at-Agree lossy m.cache (created i).cache (entry_offset a.base s) (λ p lo hi.
            put_le-outside 8 (activated i).cache (a.base + 8) _ p (omega arith)
            ∙ outside-activated i p (omega arith));
      count =
          get_le-put_le_self 8 (activated i).cache (a.base + 8) _ (omega (arith, count-activated i))
          ∙ ap (λ k. k + 1) (count-activated i);
    }

  -- No ACTIVE entry bears the name.
  abbrev Unborne : Type 0
  Unborne = (s : ℕ) → s < 256 → bears lossy a m.cache name s ≡ false

  -- Entry `i` is the first that is FREE.
  abbrev FirstUnused : ℕ → Type 0
  FirstUnused i =
      (i < 256)
      × (unused lossy a m.cache i ≡ true)
      × ((s : ℕ) → s < i → unused lossy a m.cache s ≡ false)

  -- What `create_region` has to answer, and the memory that goes with it.
  abbrev pub CreateResult : AllocResult RegionHandle → Memory → Type 0
  CreateResult (ok region) n =
      (region ≡ record { slot = region.slot; name = name; offset = start; size = size })
      × (length name ≤ 24)
      × Unborne
      × FirstUnused region.slot
      × (start + size ≤ a.base + a.pool_size)
      × Created region.slot n
  CreateResult (err (name_exists asked)) n =
      (n ≡ m)
      × (asked ≡ name)
      × (length name ≤ 24)
      × ((s : ℕ) × (s < 256) × (bears lossy a m.cache name s ≡ true))
  CreateResult (err catalog_full) n =
      (n ≡ m)
      × (length name ≤ 24)
      × Unborne
      × ((s : ℕ) → s < 256 → unused lossy a m.cache s ≡ false)
  CreateResult (err (out_of_space requested available)) n =
      (n ≡ m)
      × (length name ≤ 24)
      × Unborne
      × ((s : ℕ) × FirstUnused s)
      × (requested ≡ size)
      × (available ≡ a.base + a.pool_size - start)
      × (a.base + a.pool_size < start + size)
  CreateResult (err (not_found asked)) n = ⊥
  CreateResult (err (invalid_state detail)) n =
      (n ≡ m) × (detail ≡ name_too_long) × (24 < length name)
  CreateResult (err (backend e)) n = ⊥

  module _ (v : IsCatalog a m.size) (ends : Ends lossy a m.cache)
      (data_u64 : get_le 8 m.cache (a.base + 24) + 63 < 2 ^ 64) (short : length name ≤ 24)
      (clean : lossy name ≡ name) (fits : start + size < 2 ^ 64)
      (few : get_le 8 m.cache (a.base + 8) + 1 < 2 ^ 64)
      (bounded : a.base + a.pool_size < 2 ^ 64) where
    create_at-fits :
        (i : ℕ)
        → i < 256
        → start + size ≤ a.base + a.pool_size
        → Runs
            (create_at lossy a name size i)
            m
            (ok (record { slot = i; name = name; offset = start; size = size }))
            (created i)
    unfolding create_at set_state
    create_at-fits i small within = (
      omega (arith, v.within, v.aligned),
      Runs-bind _ _ _ m start m (next_free_offset-Runs lossy a m v ends _ data_u64) (
          rw
            (
              lt→ltb (a.base + a.pool_size) (2 ^ 64) bounded,
              lt→ltb (start + size) (2 ^ 64) fits,
              ltb→false (a.base + a.pool_size) (start + size) within,
            )
            (Runs-bind _ _ (write_entry a.base i made) m tt (entered m (entry_offset a.base i) made)
              (write_entry-Runs a m i made v small)
              (
                omega (arith, v.within),
                (
                  omega (arith, v.within),
                  (
                    omega (arith, v.within, v.aligned),
                    rw
                        (lt→ltb (get_le 8 (activated i).cache (a.base + 8) + 1) (2 ^ 64)
                          (omega (arith, few, count-activated i)))
                        (
                          omega (arith, v.within, v.aligned),
                          (omega (arith, v.within), (refl, refl)),
                        ),
                  ),
                ),
              ))),
    )

    create_at-full :
        (i : ℕ)
        → a.base + a.pool_size < start + size
        → Runs
            (create_at lossy a name size i)
            m
            (err (out_of_space size (a.base + a.pool_size - start)))
            m
    unfolding create_at
    create_at-full i beyond = (
      omega (arith, v.within, v.aligned),
      Runs-bind _ _ _ m start m (next_free_offset-Runs lossy a m v ends _ data_u64) (
          rw
            (
              lt→ltb (a.base + a.pool_size) (2 ^ 64) bounded,
              lt→ltb (start + size) (2 ^ 64) fits,
              lt→ltb (a.base + a.pool_size) (start + size) beyond,
            )
            (refl, refl)),
    )

    create_at_lem :
        (i : ℕ) → FirstUnused i → Unborne → Ensures CreateResult (create_at lossy a name size i) m
    create_at_lem i first new = elim (le-cases (start + size) (a.base + a.pool_size)) [
      | inl within ↦
          Runs-Ensures _ _ m _ (created i) (create_at-fits i first.0 within)
            (refl, short, new, first, within, created-Created short clean fits few i first.0)
      | inr beyond ↦
          Runs-Ensures _ _ m _ m (create_at-full i beyond)
            (refl, short, new, (i, first), refl, refl, beyond)
    ]

    create_in_lem :
        (slot : Option ℕ)
        → IsFirst lossy a m.cache 0 256 slot
        → Unborne
        → Ensures CreateResult (create_in lossy a name size slot) m
    create_in_lem none used new = (refl, short, new, λ s lt. used s (omega arith) lt)
    create_in_lem (some i) first new =
        create_at_lem i (first.1, first.2, λ s lt. first.3 s (omega arith) lt) new

    create_unless_lem :
        (found : AllocResult RegionHandle)
        → Answers lossy a m.cache name 0 256 found
        → Ensures CreateResult (create_unless lossy a name size found) m
    create_unless_lem (ok region) h = (refl, refl, short, (region.slot, h.1, h.3))
    create_unless_lem (err e) h =
        Runs-bind _ _ (find_free_slot lossy a) m (first_free lossy a m.cache 256 0) m
          (find_free_slot-Runs lossy a m v)
          (create_in_lem _ (first_free-IsFirst lossy a m.cache 256 0 256 refl)
            (λ s lt. h.1 s (omega arith) lt))

    create_region_short : Ensures CreateResult (create_region lossy a name size) m
    unfolding create_region
    create_region_short = rw (ltb→false 24 (length name) short) (
        Runs-bind _ _ (find_region lossy a name) m (first_from lossy a m.cache name 256 0) m
          (find_region-Runs lossy a m v name)
          (create_unless_lem _ (first_from-Answers lossy a m.cache name 256 0 256 refl)))

  -- `create_region` on a mapped catalog, where the name is UTF-8 and no sum overflows, ends without
  -- failure. It answers `InvalidState` where the name has more than 24 bytes; for a shorter name
  -- `NameExists` where an ACTIVE entry bears it; where none does, `CatalogFull` where no entry is FREE; and
  -- where one is, `OutOfSpace` where the region would pass the end of the pool. It then changes nothing.
  -- Otherwise it answers the handle of the first entry that was FREE, which afterwards is ACTIVE and holds
  -- the name, the place and the size, with every other entry as it was and the count one higher. Each
  -- answer is given in its own case alone.
  pub create_region_lem :
      IsCatalog a m.size
      → Ends lossy a m.cache
      → get_le 8 m.cache (a.base + 24) + 63 < 2 ^ 64
      → lossy name ≡ name
      → start + size < 2 ^ 64
      → get_le 8 m.cache (a.base + 8) + 1 < 2 ^ 64
      → a.base + a.pool_size < 2 ^ 64
      → Ensures CreateResult (create_region lossy a name size) m
  unfolding create_region
  create_region_lem v ends data_u64 clean fits few bounded = elim (le-cases (length name) 24) [
    | inl short ↦ create_region_short v ends data_u64 short clean fits few bounded
    | inr long ↦ rw (lt→ltb 24 (length name) long) (refl, refl, long)
  ]

  -- The place that `create_region` gives a region is aligned to 64 bytes, above the start of the data, and
  -- above the end of every ACTIVE or ALLOCATING region: no two of them overlap.
  pub placed_apart :
      (get_le 8 m.cache (a.base + 24) ≤ start)
      × (start % 64 ≡ 0)
      × ((s : ℕ) → s < 256 → live lossy a m.cache s ≡ true → end_of lossy a m.cache s ≤ start)
  placed_apart = place-Above lossy a m.cache (get_le 8 m.cache (a.base + 24))

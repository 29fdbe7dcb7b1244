-- ===== src/Allocator/Fresh.antt =====
-- `init`: the catalog that it makes, and what `open` and `list_regions` answer of it.
use mathlib.Core.Path.{subst}
use fence.Prelude.{
  ℕ, zero, suc, ◌+◌, ◌*◌, ◌%◌, ◌^◌, ◌≤◌, ◌<◌, ◌≡◌, ◌≢◌, ◌⊎◌, refl, sym, ◌∙◌, ap, arith, List, [],
  inl, inr, eq-cases, le-cases, lt→ltb, ltb→false,
}
use fence.Prelude.Bytes.{Space, poke, to_le, length-to_le, poke-outside, poke_byte}
use fence.Backend.{Memory, get_le, put_le, with_cache, flushed}
use fence.Backend.Fields.{put_le-outside, get_le-put_le_self, get_le-put_le-Apart}
use fence.Program.{ret, Ensures, Ensures-mono, Ensures-bind, Ensures-size, Runs, Runs-bind, ◌>>=◌}
use fence.Recovery.Check.{get_le-Agree}
use fence.Catalog.{free, entry_offset, alloc_magic, state_of}
use fence.Region.{RegionHandle}
use fence.Allocator.{
  RegionAllocator, AllocResult, ok, err, out_of_space, init, free_entries, open_allocator,
  list_from, list_regions,
}
use fence.Allocator.Entries.{IsCatalog, read_entry-Runs}
use fence.Allocator.Find.{entry}

module _ (base : ℕ) where
  -- The space with the states of `n` entries from `i` on set FREE.
  unfoldable pub freed : ℕ → ℕ → Space → Space
  freed zero i c = c
  freed (suc n) i c = freed n (suc i) (poke c (entry_offset base i + 0) (to_le 1 0))

  freed-outside :
      (n i : ℕ) (c : Space) (a : ℕ)
      → ((j : ℕ) → i ≤ j → j < i + n → a ≢ entry_offset base j)
      → freed n i c a ≡ c a
  unfolding freed
  freed-outside zero i c a out = refl
  freed-outside (suc n) i c a out =
      freed-outside n (suc i) (poke c (entry_offset base i + 0) (to_le 1 0)) a
        (λ j lo hi. out j (omega arith) (omega arith))
      ∙ poke-outside c (entry_offset base i + 0) (to_le 1 0) a
          (omega (arith, length-to_le 1 0, out i (omega arith) (omega arith)))

  freed-inside :
      (n i : ℕ) (c : Space) (j : ℕ) → i ≤ j → j < i + n → freed n i c (entry_offset base j + 0) ≡ 0
  unfolding freed
  freed-inside zero i c j lo hi = absurd (omega arith)
  freed-inside (suc n) i c j lo hi = elim (eq-cases j i) [
    | inl e ↦ rw e (
        freed-outside n (suc i) (poke c (entry_offset base i + 0) (to_le 1 0))
          (entry_offset base i + 0) (λ k l u. omega arith)
        ∙ poke_byte c (entry_offset base i + 0) 0 (omega arith))
    | inr ne ↦
        freed-inside n (suc i) (poke c (entry_offset base i + 0) (to_le 1 0)) j (omega arith)
          (omega arith)
  ]

  free_entries-Runs :
      (n i : ℕ) (m : Memory)
      → i + n ≤ 256
      → base + 64 + 256 * 64 ≤ m.size
      → Runs (free_entries n base i) m tt (with_cache m (freed n i m.cache))
  unfolding free_entries freed
  free_entries-Runs zero i m le within = (refl, refl)
  free_entries-Runs (suc n) i m le within = (
    omega arith,
    free_entries-Runs n (suc i) (with_cache m (poke m.cache (entry_offset base i + 0) (to_le 1 0)))
        (omega arith) within,
  )

module _ (lossy : List ℕ → List ℕ) (base pool_size : ℕ) (m : Memory) (aligned : base % 8 ≡ 0)
    (within : base + pool_size ≤ m.size) (small : base + pool_size < 2 ^ 64) where
  abbrev pub made : RegionAllocator
  made = record { base = base; pool_size = pool_size }

  abbrev headed : Space
  headed =
      put_le 8
        (put_le 8 (put_le 8 (put_le 8 m.cache (base + 0) alloc_magic) (base + 8) 0) (base + 16)
          pool_size)
        (base + 24) (base + (64 + 256 * 64))

  abbrev blank : Space
  blank = freed base 256 0 headed

  -- A catalog as it is to be after `init`: the header is written, every entry FREE, and nothing else of
  -- the memory has changed.
  pub record Fresh (n : Memory) : Type 0 where
    pub magic_lem : get_le 8 n.cache (base + 0) ≡ alloc_magic
    pub count_lem : get_le 8 n.cache (base + 8) ≡ 0
    pub size_lem : get_le 8 n.cache (base + 16) ≡ pool_size
    pub start_lem : get_le 8 n.cache (base + 24) ≡ base + (64 + 256 * 64)
    pub unused : (i : ℕ) → i < 256 → (entry lossy made n.cache i).state ≡ free
    pub rest :
        (a : ℕ)
        → (a < base) ⊎ (base + 32 ≤ a)
        → ((i : ℕ) → i < 256 → a ≢ entry_offset base i)
        → n.cache a ≡ m.cache a

  blank-header : (o : ℕ) → o ≤ 24 → get_le 8 blank (base + o) ≡ get_le 8 headed (base + o)
  blank-header o le =
      get_le-Agree 8 headed blank (base + o) (base + o) (base + o + 8)
        (λ a lo hi. freed-outside base 256 0 headed a (λ j l u. omega arith)) (omega arith)
        (omega arith)

  blank-Fresh : (n : Memory) → n.cache ≡ blank → 64 + 256 * 64 ≤ pool_size → Fresh n
  unfolding state_of
  blank-Fresh n e large = record {
    magic_lem =
        ap (λ (c : Space). get_le 8 c (base + 0)) e
        ∙ blank-header 0 (omega arith)
        ∙ get_le-put_le-Apart 8 8 _ (base + 24) _ (base + 0) (omega arith)
        ∙ get_le-put_le-Apart 8 8 _ (base + 16) _ (base + 0) (omega arith)
        ∙ get_le-put_le-Apart 8 8 _ (base + 8) _ (base + 0) (omega arith)
        ∙ get_le-put_le_self 8 m.cache (base + 0) alloc_magic (omega arith);
    count_lem =
        ap (λ (c : Space). get_le 8 c (base + 8)) e
        ∙ blank-header 8 (omega arith)
        ∙ get_le-put_le-Apart 8 8 _ (base + 24) _ (base + 8) (omega arith)
        ∙ get_le-put_le-Apart 8 8 _ (base + 16) _ (base + 8) (omega arith)
        ∙ get_le-put_le_self 8 _ (base + 8) 0 (omega arith);
    size_lem =
        ap (λ (c : Space). get_le 8 c (base + 16)) e
        ∙ blank-header 16 (omega arith)
        ∙ get_le-put_le-Apart 8 8 _ (base + 24) _ (base + 16) (omega arith)
        ∙ get_le-put_le_self 8 _ (base + 16) pool_size (omega arith);
    start_lem =
        ap (λ (c : Space). get_le 8 c (base + 24)) e
        ∙ blank-header 24 (omega arith)
        ∙ get_le-put_le_self 8 _ (base + 24) (base + (64 + 256 * 64)) (omega arith);
    unused = λ i lt. ap state_of (
        ap (λ (c : Space). c (entry_offset base i + 0)) e
        ∙ freed-inside base 256 0 headed i (omega arith) (omega arith));
    rest = λ a out apart.
        ap (λ (c : Space). c a) e
        ∙ freed-outside base 256 0 headed a (λ j lo hi. apart j (omega arith))
        ∙ put_le-outside 8 _ (base + 24) _ a (omega arith)
        ∙ put_le-outside 8 _ (base + 16) _ a (omega arith)
        ∙ put_le-outside 8 _ (base + 8) _ a (omega arith)
        ∙ put_le-outside 8 m.cache (base + 0) _ a (omega arith);
  }

  init-Runs :
      64 + 256 * 64 ≤ pool_size
      → Ensures (λ res n. (res ≡ ok made) × (n.cache ≡ blank)) (init base pool_size) m
  unfolding init
  init-Runs large =
      rw
        (
          ltb→false pool_size (64 + 256 * 64) large,
          lt→ltb (base + (64 + 256 * 64)) (2 ^ 64) (omega arith),
        )
        (
          (omega arith, omega arith),
          (
            (omega arith, omega arith),
            (
              (omega arith, omega arith),
              (
                (omega arith, omega arith),
                (
                  omega arith,
                  Runs-bind _ _ (free_entries 256 base 0) (flushed (with_cache m headed) base 64) tt
                      (with_cache (flushed (with_cache m headed) base 64) blank)
                      (free_entries-Runs base 256 0 (flushed (with_cache m headed) base 64)
                        (omega arith) (omega arith))
                      (omega arith, (refl, refl)),
                ),
              ),
            ),
          ),
        )

  -- What `init` has to answer, and do.
  abbrev pub InitResult : AllocResult RegionAllocator → Memory → Type 0
  InitResult (err e) n =
      (pool_size < 64 + 256 * 64) × (e ≡ out_of_space (64 + 256 * 64) pool_size) × (n ≡ m)
  InitResult (ok a) n = (64 + 256 * 64 ≤ pool_size) × (a ≡ made) × Fresh n

  -- `init` on an aligned range that lies in the mapping and ends below 2 ^ 64 ends without
  -- failure. It answers `OutOfSpace` just where the range is too small for the catalog, and then
  -- changes nothing; otherwise it makes an empty catalog with its header, and writes nothing else
  -- of the memory.
  pub init_lem : Ensures InitResult (init base pool_size) m
  unfolding init
  init_lem = elim (le-cases (64 + 256 * 64) pool_size) [
    | inr short ↦ rw (lt→ltb pool_size (64 + 256 * 64) short) (short, refl, refl)
    | inl large ↦
        Ensures-mono _ InitResult
          (λ res n a. subst (λ x. InitResult x n) (sym a.0) (large, refl, blank-Fresh n a.1 large))
          (init base pool_size) m (init-Runs large)
  ]

module _ (lossy : List ℕ → List ℕ) (a : RegionAllocator) where
  list_from-none :
      (n i : ℕ) (m : Memory)
      → IsCatalog a m.size
      → i + n ≤ 256
      → ((j : ℕ) → j < 256 → (entry lossy a m.cache j).state ≡ free)
      → Runs (list_from lossy a n i) m [] m
  unfolding list_from
  list_from-none zero i m v le none = (refl, refl)
  list_from-none (suc n) i m v le none =
      Runs-bind _ _ _ m (entry lossy a m.cache i) m (read_entry-Runs lossy a m i v (omega arith)) (
        Runs-bind _ _ (list_from lossy a n (suc i)) m [] m
          (list_from-none n (suc i) m v (omega arith) none)
          (rw (none i (omega arith)) (refl, refl)))

module _ (lossy : List ℕ → List ℕ) (base pool_size : ℕ) (m : Memory) (aligned : base % 8 ≡ 0)
    (within : base + pool_size ≤ m.size) (small : base + pool_size < 2 ^ 64) where
  abbrev made_allocator : RegionAllocator
  made_allocator = record { base = base; pool_size = pool_size }

  list-Fresh :
      (n : Memory)
      → n.size ≡ m.size
      → 64 + 256 * 64 ≤ pool_size
      → Fresh lossy base pool_size m aligned within small n
      → Runs (list_regions lossy made_allocator) n [] n
  unfolding list_regions
  list-Fresh n size large k =
      list_from-none lossy made_allocator 256 0 n
        (record { aligned = aligned; within = omega (arith, size) }) (omega arith) k.unused

  open-Fresh :
      (n : Memory)
      → n.size ≡ m.size
      → 64 + 256 * 64 ≤ pool_size
      → Fresh lossy base pool_size m aligned within small n
      → Runs (open_allocator base pool_size) n (ok made_allocator) n
  unfolding open_allocator
  open-Fresh n size large k = ((omega (arith, size), omega arith), rw (k.magic_lem) (refl, refl))

  -- On an aligned range that lies in the mapping, ends below 2 ^ 64 and is large enough, whatever
  -- it held before, `init` makes a catalog that `open` accepts and in which `list_regions` finds
  -- no region.
  pub init-open-list :
      64 + 256 * 64 ≤ pool_size
      → Ensures
          (λ (x : AllocResult RegionAllocator × List RegionHandle) n.
            (x.0 ≡ ok made_allocator) × (x.1 ≡ []))
          (init base pool_size >>= (λ _. open_allocator base pool_size >>= (λ opened.
            list_regions lossy made_allocator >>= (λ handles. ret (opened, handles)))))
          m
  init-open-list large = Ensures-bind _ _ (init base pool_size) m (
      Ensures-mono _ _
        (λ res n a.
          let k : Fresh lossy base pool_size m aligned within small n =
            blank-Fresh lossy base pool_size m aligned within small n a.0.1 large in
          Runs-bind _ _ (open_allocator base pool_size) n (ok made_allocator) n
            (open-Fresh n a.1 large k)
            (Runs-bind _ _ (list_regions lossy made_allocator) n [] n (list-Fresh n a.1 large k)
              (refl, refl)))
        (init base pool_size) m
        (Ensures-size _ m.size (init base pool_size) m refl
          (init-Runs lossy base pool_size m aligned within small large)))

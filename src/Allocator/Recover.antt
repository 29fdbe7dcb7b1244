-- ===== src/Allocator/Recover.antt =====
-- crates/fence-alloc/src/allocator.rs: `recover`, entry by entry and as a whole.
use mathlib.Core.Path.{subst}
use fence.Prelude.{
  ℕ, zero, suc, ◌+◌, ◌≤◌, ◌<◌, ◌≡◌, ◌≢◌, refl, sym, ◌∙◌, ap, arith, List, inl, inr, eq-cases,
}
use fence.Prelude.Bytes.{Space, poke, to_le, length-to_le, poke-outside}
use fence.Backend.{Memory, with_cache, flushed}
use fence.Catalog
use fence.Program.{ret, Runs, ◌>>◌, Ensures, Runs-bind, Runs-eq, Runs-Ensures}
use native.Mathlib.Nat.{add_assoc, add-zero}
use fence.Catalog.{
  read_entry, CatalogEntry, RegionState, free, allocating, active, freeing, entry_offset, state_of,
}
use fence.Allocator.{RegionAllocator, set_state, recover_entry, recover_from, recover}
use fence.Allocator.Entries.{IsCatalog, entry_at, read_entry-Runs}
use fence.Allocator.Find.{entry}
use fence.Allocator.Agree.{entry_at-Agree, entry_at-poke}

-- The state that recovery leaves, and what it counts.
abbrev pub settled : RegionState → RegionState
settled allocating = free
settled freeing = free
settled free = free
settled active = active

abbrev pub unsettled : RegionState → ℕ
unsettled allocating = 1
unsettled freeing = 1
unsettled free = 0
unsettled active = 0

abbrev freed : Memory → ℕ → Memory
freed m o = flushed (with_cache m (poke m.cache (o + 0) (to_le 1 0))) o 64

abbrev settle : RegionState → Memory → ℕ → Memory
settle allocating m o = freed m o
settle freeing m o = freed m o
settle free m o = m
settle active m o = m

size-settle : (s : RegionState) (m : Memory) (o : ℕ) → (settle s m o).size ≡ m.size
size-settle allocating m o = refl
size-settle freeing m o = refl
size-settle free m o = refl
size-settle active m o = refl

settle-outside :
    (s : RegionState) (m : Memory) (o p : ℕ) → p ≢ o + 0 → (settle s m o).cache p ≡ m.cache p
settle-outside allocating m o p ne =
    poke-outside m.cache (o + 0) (to_le 1 0) p (omega (arith, length-to_le 1 0))
settle-outside freeing m o p ne =
    poke-outside m.cache (o + 0) (to_le 1 0) p (omega (arith, length-to_le 1 0))
settle-outside free m o p ne = refl
settle-outside active m o p ne = refl

module _ (lossy : List ℕ → List ℕ) where
  freed-entry :
      (m : Memory) (o : ℕ)
      → entry_at lossy (freed m o).cache o ≡ record (entry_at lossy m.cache o) { state = free }
  unfolding Catalog.state_of
  freed-entry m o = entry_at-poke lossy m.cache o 0 (omega arith)

  settle-entry :
      (s : RegionState) (m : Memory) (o : ℕ)
      → (entry_at lossy m.cache o).state ≡ s
      → entry_at lossy (settle s m o).cache o
        ≡ record (entry_at lossy m.cache o) { state = settled s }
  settle-entry allocating m o e = freed-entry m o
  settle-entry freeing m o e = freed-entry m o
  settle-entry free m o e = cc e
  settle-entry active m o e = cc e

module _ (lossy : List ℕ → List ℕ) (a : RegionAllocator) where
  abbrev state : Space → ℕ → RegionState
  state c i = (entry lossy a c i).state

  abbrev settled_entry : Memory → ℕ → Memory
  settled_entry m i = settle (state m.cache i) m (entry_offset a.base i)

  unfoldable pub recovered : ℕ → ℕ → Memory → Memory
  recovered zero i m = m
  recovered (suc n) i m = recovered n (suc i) (settled_entry m i)

  -- How many of the `n` entries from `i` on stand between two states.
  unfoldable pub unsettled_count : Space → ℕ → ℕ → ℕ
  unsettled_count c zero i = 0
  unsettled_count c (suc n) i = unsettled (state c i) + unsettled_count c n (suc i)

  other-entry :
      (m : Memory) (i s : ℕ)
      → s ≢ i
      → entry lossy a (settled_entry m i).cache s ≡ entry lossy a m.cache s
  other-entry m i s ne =
      entry_at-Agree lossy m.cache (settled_entry m i).cache (entry_offset a.base s)
        (λ p lo hi. settle-outside (state m.cache i) m (entry_offset a.base i) p (omega arith))

  pub recovered-outside :
      (n i : ℕ) (m : Memory) (p : ℕ)
      → ((s : ℕ) → i ≤ s → s < i + n → p ≢ entry_offset a.base s + 0)
      → (recovered n i m).cache p ≡ m.cache p
  unfolding recovered
  recovered-outside zero i m p out = refl
  recovered-outside (suc n) i m p out =
      recovered-outside n (suc i) (settled_entry m i) p
        (λ s lo hi. out s (omega arith) (omega arith))
      ∙ settle-outside (state m.cache i) m (entry_offset a.base i) p
          (out i (omega arith) (omega arith))

  recovered-entry :
      (n i s : ℕ) (m : Memory)
      → i ≤ s
      → s < i + n
      → entry lossy a (recovered n i m).cache s
        ≡ record (entry lossy a m.cache s) { state = settled (state m.cache s) }
  unfolding recovered
  recovered-entry zero i s m lo hi = absurd (omega arith)
  recovered-entry (suc n) i s m lo hi = elim (eq-cases s i) [
    | inl e ↦
        entry_at-Agree lossy (settled_entry m i).cache
          (recovered n (suc i) (settled_entry m i)).cache (entry_offset a.base s)
          (λ p l h. recovered-outside n (suc i) (settled_entry m i) p (λ t l' h'. omega arith))
        ∙ rw e (settle-entry lossy (state m.cache i) m (entry_offset a.base i) refl)
    | inr ne ↦
        recovered-entry n (suc i) s (settled_entry m i) (omega arith) (omega arith)
        ∙ ap (λ (e : CatalogEntry). record e { state = settled e.state }) (other-entry m i s ne)
  ]

  unsettled_count-entry :
      (c d : Space) (n i : ℕ)
      → ((s : ℕ) → i ≤ s → s < i + n → entry lossy a d s ≡ entry lossy a c s)
      → unsettled_count d n i ≡ unsettled_count c n i
  unfolding unsettled_count
  unsettled_count-entry c d zero i same = refl
  unsettled_count-entry c d (suc n) i same =
      let here : state d i ≡ state c i =
        ap (λ (e : CatalogEntry). e.state) (same i (omega arith) (omega arith)) in
      let rest : unsettled_count d n (suc i) ≡ unsettled_count c n (suc i) =
        unsettled_count-entry c d n (suc i) (λ s lo hi. same s (omega arith) (omega arith)) in
      cc (ap unsettled here, rest)

  set_state-Runs :
      (m : Memory) (i : ℕ)
      → IsCatalog a m.size
      → i < 256
      → Runs {A = ℕ} (set_state a i free >> ret 1) m 1 (freed m (entry_offset a.base i))
  unfolding set_state
  set_state-Runs m i v small = (omega (arith, v.within), (omega (arith, v.within), (refl, refl)))

  settle-Runs :
      (s : RegionState) (m : Memory) (i : ℕ)
      → IsCatalog a m.size
      → i < 256
      → Runs {A = ℕ}
          (elim s [
            | allocating ↦ set_state a i free >> ret 1
            | freeing ↦ set_state a i free >> ret 1
            | free ↦ ret 0
            | active ↦ ret 0
          ])
          m
          (unsettled s)
          (settle s m (entry_offset a.base i))
  settle-Runs allocating m i v small = set_state-Runs m i v small
  settle-Runs freeing m i v small = set_state-Runs m i v small
  settle-Runs free m i v small = (refl, refl)
  settle-Runs active m i v small = (refl, refl)

  recover_entry-Runs :
      (m : Memory) (i : ℕ)
      → IsCatalog a m.size
      → i < 256
      → Runs (recover_entry lossy a i) m (unsettled (state m.cache i)) (settled_entry m i)
  unfolding recover_entry
  recover_entry-Runs m i v small =
      Runs-bind _ _ (read_entry lossy a.base i) m (entry lossy a m.cache i) m
        (read_entry-Runs lossy a m i v small) (settle-Runs (state m.cache i) m i v small)

  recover_from-Runs :
      (n i fixed : ℕ) (m : Memory)
      → IsCatalog a m.size
      → i + n ≤ 256
      → Runs
          (recover_from lossy a n i fixed)
          m
          (fixed + unsettled_count m.cache n i)
          (recovered n i m)
  unfolding recover_from unsettled_count recovered
  recover_from-Runs zero i fixed m v le = (sym (add-zero fixed), refl)
  recover_from-Runs (suc n) i fixed m v le =
      let here : ℕ = unsettled (state m.cache i) in
      Runs-bind _ _ (recover_entry lossy a i) m here (settled_entry m i)
        (recover_entry-Runs m i v (omega arith))
        (Runs-eq (recover_from lossy a n (suc i) (fixed + here)) (settled_entry m i)
          (add_assoc fixed here (unsettled_count (settled_entry m i).cache n (suc i))
            ∙ ap (λ k. fixed + (here + k))
                (unsettled_count-entry m.cache (settled_entry m i).cache n (suc i)
                  (λ s lo hi. other-entry m i s (omega arith))))
          refl
          (recover_from-Runs n (suc i) (fixed + here) (settled_entry m i)
            (subst (IsCatalog a) (sym (size-settle (state m.cache i) m (entry_offset a.base i))) v)
            (omega arith)))

  -- The allocator's `recover` on a mapped catalog ends without failure and answers how many entries stood
  -- between two states. Afterwards each of these is FREE, and every entry is otherwise what it was; no
  -- byte but the state bytes of the entries changes, the region count among them.
  pub recover-settles :
      (m : Memory)
      → IsCatalog a m.size
      → Ensures
          (λ fixed n.
            (fixed ≡ unsettled_count m.cache 256 0)
            × ((s : ℕ)
                → s < 256
                → entry lossy a n.cache s
                  ≡ record (entry lossy a m.cache s) { state = settled (state m.cache s) })
            × ((p : ℕ) → ((s : ℕ) → p ≢ entry_offset a.base s + 0) → n.cache p ≡ m.cache p))
          (recover lossy a)
          m
  unfolding recover
  recover-settles m v =
      Runs-Ensures _ (recover_from lossy a 256 0 0) m (0 + unsettled_count m.cache 256 0)
        (recovered 256 0 m) (recover_from-Runs 256 0 0 m v (omega arith))
        (
          omega arith,
          λ s lt. recovered-entry 256 0 s m (omega arith) (omega arith),
          λ p out. recovered-outside 256 0 m p (λ s lo hi. out s),
        )

-- ===== src/Allocator/Disjoint.antt =====
-- crates/fence-alloc/src/allocator.rs: the ranges of bytes that regions hold.
use mathlib.Core.Path.{subst, subst₂}
use fence.Prelude.{
  ℕ, ◌+◌, ◌^◌, ◌≤◌, ◌<◌, ◌≡◌, ◌≢◌, ◌⊎◌, ◌||◌, sym, ◌∙◌, List, true, inl, inr, eq-cases,
}
use fence.Prelude.Bytes.{Space}
use fence.Backend.{Memory, get_le}
use fence.Program.{Ensures, Ensures-mono}
use fence.Catalog.{CatalogEntry}
use fence.Region.{RegionHandle}
use fence.Allocator.{
  RegionAllocator, AllocResult, ok, err, name_exists, catalog_full, out_of_space, not_found,
  invalid_state, backend, create_region, is_active, is_allocating,
}
use fence.Allocator.Entries.{IsCatalog}
use fence.Allocator.Find.{entry}
use fence.Allocator.Space.{live, Ends, place, place-Above}
use fence.Allocator.Create.{Created, CreateResult, create_region_lem}

module _ (lossy : List ℕ → List ℕ) (a : RegionAllocator) where
  -- The ranges of two entries do not meet.
  abbrev pub Clear : CatalogEntry → CatalogEntry → Type 0
  Clear d e = (d.offset + d.size ≤ e.offset) ⊎ (e.offset + e.size ≤ d.offset)

  -- No two of the ACTIVE and ALLOCATING regions overlap.
  abbrev pub Disjoint : Space → Type 0
  Disjoint c =
      (s t : ℕ)
      → s < 256
      → t < 256
      → s ≢ t
      → live lossy a c s ≡ true
      → live lossy a c t ≡ true
      → Clear (entry lossy a c s) (entry lossy a c t)

  Clear-sym : (d e : CatalogEntry) → Clear d e → Clear e d
  Clear-sym d e (inl h) = inr h
  Clear-sym d e (inr h) = inl h

  module _ (m : Memory) (name : List ℕ) (size : ℕ) (old : Disjoint m.cache) where
    module _ (n : Memory) (i : ℕ) (made : Created lossy a m name size i n) where
      live-before :
          (s : ℕ) → s < 256 → s ≢ i → live lossy a n.cache s ≡ true → live lossy a m.cache s ≡ true
      live-before s lt ne st =
          subst (λ (e : CatalogEntry). (is_active e.state || is_allocating e.state) ≡ true)
            (made.others s lt ne) st

      new-Clear :
          (t : ℕ)
          → t < 256
          → t ≢ i
          → live lossy a n.cache t ≡ true
          → Clear (entry lossy a n.cache i) (entry lossy a n.cache t)
      new-Clear t lt ne st = subst₂ Clear (sym made.entry_lem) (sym (made.others t lt ne)) (
          inr (
            (place-Above lossy a m.cache (get_le 8 m.cache (a.base + 24))).2 t lt
              (live-before t lt ne st)))

      Created-Disjoint : Disjoint n.cache
      Created-Disjoint s t ls lt ne ss st = elim (eq-cases s i) [
        | inl e ↦
            subst (λ k. Clear (entry lossy a n.cache k) (entry lossy a n.cache t)) (sym e)
              (new-Clear t lt (λ e'. ne (e ∙ sym e')) st)
        | inr ns ↦ elim (eq-cases t i) [
          | inl e ↦
              subst (λ k. Clear (entry lossy a n.cache s) (entry lossy a n.cache k)) (sym e)
                (Clear-sym (entry lossy a n.cache i) (entry lossy a n.cache s)
                  (new-Clear s ls ns ss))
          | inr nt ↦
              subst₂ Clear (sym (made.others s ls ns)) (sym (made.others t lt nt))
                (old s t ls lt ne (live-before s ls ns ss) (live-before t lt nt st))
        ]
      ]

    unchanged : (n : Memory) → n ≡ m → Disjoint n.cache
    unchanged n e = subst (λ (k : Memory). Disjoint k.cache) (sym e) old

    CreateResult-Disjoint :
        (res : AllocResult RegionHandle) (n : Memory)
        → CreateResult lossy a m name size res n
        → Disjoint n.cache
    CreateResult-Disjoint (ok region) n h = Created-Disjoint n region.slot h.5
    CreateResult-Disjoint (err (name_exists asked)) n h = unchanged n h.0
    CreateResult-Disjoint (err catalog_full) n h = unchanged n h.0
    CreateResult-Disjoint (err (out_of_space requested available)) n h = unchanged n h.0
    CreateResult-Disjoint (err (not_found asked)) n h = absurd h
    CreateResult-Disjoint (err (invalid_state detail)) n h = unchanged n h.0
    CreateResult-Disjoint (err (backend e)) n h = absurd h

    -- `create_region` keeps the regions disjoint, whether it places one or refuses to, on a mapped catalog
    -- and for a UTF-8 name, where no sum overflows.
    pub create-Disjoint :
        IsCatalog a m.size
        → Ends lossy a m.cache
        → get_le 8 m.cache (a.base + 24) + 63 < 2 ^ 64
        → lossy name ≡ name
        → place lossy a m.cache (get_le 8 m.cache (a.base + 24)) + size < 2 ^ 64
        → get_le 8 m.cache (a.base + 8) + 1 < 2 ^ 64
        → a.base + a.pool_size < 2 ^ 64
        → Ensures (λ res n. Disjoint n.cache) (create_region lossy a name size) m
    create-Disjoint v ends data_u64 clean fits few bounded =
        Ensures-mono (CreateResult lossy a m name size) (λ res n. Disjoint n.cache)
          CreateResult-Disjoint (create_region lossy a name size) m
          (create_region_lem lossy a m name size v ends data_u64 clean fits few bounded)

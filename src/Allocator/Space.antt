-- ===== src/Allocator/Space.antt =====
-- Where `create_region` places a region.
use fence.Prelude.{
  ℕ, zero, suc, ◌+◌, ◌-◌, ◌%◌, ◌^◌, ◌≤◌, ◌<◌, ◌≡◌, refl, arith, ◌||◌, Bool, List, true, false,
  Bool-cases, inl, inr, eq-cases, if◌then◌else◌, ltb, lt→ltb,
}
use fence.Prelude.Bytes.{Space}
use fence.Backend.{Memory}
use fence.Program.{Runs, Runs-bind}
use fence.Allocator.{RegionAllocator, is_active, is_allocating, max_end_from, next_free_offset}
use fence.Allocator.Entries.{IsCatalog, read_entry-Runs}
use fence.Allocator.Find.{entry}

module _ (lossy : List ℕ → List ℕ) (a : RegionAllocator) where
  -- Entry `i` holds its range of bytes: it is ACTIVE or ALLOCATING.
  abbrev pub live : Space → ℕ → Bool
  live c i = is_active (entry lossy a c i).state || is_allocating (entry lossy a c i).state

  abbrev pub end_of : Space → ℕ → ℕ
  end_of c i = (entry lossy a c i).offset + (entry lossy a c i).size

  unfoldable pub highest : Space → ℕ → ℕ → ℕ → ℕ
  highest c zero i e = e
  highest c (suc n) i e =
      let rest = highest c n (suc i) in
      if live c i then rest (if ltb e (end_of c i) then end_of c i else e) else rest e

  -- No live region ends so high that the sums overflow.
  abbrev pub Ends : Space → Type 0
  Ends c = (i : ℕ) → i < 256 → live c i ≡ true → end_of c i + 63 < 2 ^ 64

  -- `x` is above `e` and the ends of the live regions among the entries in `[lo, hi)`.
  abbrev Above : Space → ℕ → ℕ → ℕ → ℕ → Type 0
  Above c lo hi e x = (e ≤ x) × ((s : ℕ) → lo ≤ s → s < hi → live c s ≡ true → end_of c s ≤ x)

  highest-Above : (c : Space) (n i hi e : ℕ) → i + n ≡ hi → Above c i hi e (highest c n i e)
  unfolding highest
  highest-Above c zero i hi e h = (omega arith, λ s l u st. absurd (omega arith))
  highest-Above c (suc n) i hi e h = elim (Bool-cases (live c i)) [
    | inl held ↦
        let e' : ℕ = if ltb e (end_of c i) then end_of c i else e in
        let ih : Above c (suc i) hi e' (highest c n (suc i) e') =
          highest-Above c n (suc i) hi e' (omega arith) in
        let up : (e ≤ e') × (end_of c i ≤ e') = ground arith in
        rw held (
          omega (arith, ih.0, up.0),
          λ s l u st. elim (eq-cases s i) [
            | inl same ↦ rw same (omega (arith, ih.0, up.1))
            | inr ne ↦ ih.1 s (omega arith) u st
          ],
        )
    | inr unheld ↦
        let ih : Above c (suc i) hi e (highest c n (suc i) e) =
          highest-Above c n (suc i) hi e (omega arith) in
        rw unheld (
          ih.0,
          λ s l u st. elim (eq-cases s i) [
            | inl same ↦ absurd (ground (arith, same, unheld, st))
            | inr ne ↦ ih.1 s (omega arith) u st
          ],
        )
  ]

  -- Where no region is live the data start is the highest end.
  pub highest_idle : (c : Space) (n i e : ℕ) → ((s : ℕ) → live c s ≡ false) → highest c n i e ≡ e
  unfolding highest
  highest_idle c zero i e idle = refl
  highest_idle c (suc n) i e idle = rw (idle i) (highest_idle c n (suc i) e idle)

  highest-fits :
      (c : Space) (n i e : ℕ)
      → i + n ≤ 256
      → e + 63 < 2 ^ 64
      → Ends c
      → highest c n i e + 63 < 2 ^ 64
  unfolding highest
  highest-fits c zero i e h small ends = small
  highest-fits c (suc n) i e h small ends = elim (Bool-cases (live c i)) [
    | inl held ↦
        rw held (
          highest-fits c n (suc i) _ (omega arith) (ground (arith, ends i (omega arith) held)) ends)
    | inr unheld ↦ rw unheld (highest-fits c n (suc i) e (omega arith) small ends)
  ]

  -- The place of the next region: 64-aligned, above the start of the data and every live region.
  abbrev pub place : Space → ℕ → ℕ
  place c d = let x = highest c 256 0 d + 63 in x - x % 64

  pub place-Above :
      (c : Space) (d : ℕ)
      → (d ≤ place c d)
        × (place c d % 64 ≡ 0)
        × ((s : ℕ) → s < 256 → live c s ≡ true → end_of c s ≤ place c d)
  place-Above c d =
      let h : Above c 0 256 d (highest c 256 0 d) = highest-Above c 256 0 256 d refl in
      (omega (arith, h.0), omega arith, λ s l st. omega (arith, h.1 s (omega arith) l st))

  module _ (m : Memory) (v : IsCatalog a m.size) (ends : Ends m.cache) where
    max_end_from-Runs :
        (n i e : ℕ) → i + n ≤ 256 → Runs (max_end_from lossy a n i e) m (highest m.cache n i e) m
    unfolding max_end_from highest
    max_end_from-Runs zero i e le = (refl, refl)
    max_end_from-Runs (suc n) i e le =
        Runs-bind _ _ _ m (entry lossy a m.cache i) m (read_entry-Runs lossy a m i v (omega arith))
          (elim (Bool-cases (live m.cache i)) [
            | inl held ↦
                let few : end_of m.cache i < 2 ^ 64 = omega (arith, ends i (omega arith) held) in
                rw (held, lt→ltb _ _ few) (max_end_from-Runs n (suc i) _ (omega arith))
            | inr unheld ↦ rw unheld (max_end_from-Runs n (suc i) e (omega arith))
          ])

    pub next_free_offset-Runs :
        (d : ℕ) → d + 63 < 2 ^ 64 → Runs (next_free_offset lossy a d) m (place m.cache d) m
    unfolding next_free_offset
    next_free_offset-Runs d small =
        Runs-bind _ _ _ m (highest m.cache 256 0 d) m (max_end_from-Runs 256 0 d (omega arith))
          (rw (lt→ltb _ _ (highest-fits m.cache 256 0 d (omega arith) small ends)) (refl, refl))

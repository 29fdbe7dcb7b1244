-- ===== src/Backend/Flush.antt =====
-- crates/fence-core/src/persistence.rs: which bytes `flush_range` makes persistent.
use fence.Prelude.{
  ℕ, zero, suc, ◌+◌, ◌-◌, ◌*◌, ◌/◌, ◌%◌, ◌≤◌, ◌<◌, ◌≡◌, ◌⊎◌, inl, inr, refl, arith, Bool, not, ◌&&◌,
  leb, ltb, ◌==◌, Bool-cases, if◌then◌else◌,
}
use fence.Prelude.Bytes.{Space}
use fence.Backend.{clwb, flush_lines, flush_range}

-- Whether the byte `a` lies in a cacheline that meets `[addr, addr + len)`.
abbrev pub covered : ℕ → ℕ → ℕ → Bool
covered addr len a = not (len == 0) && (leb (addr / 64) (a / 64) && ltb (a / 64 * 64) (addr + len))

module _ (cache : Space) where
  flush_lines-in :
      (fuel : ℕ) (media : Space) (ptr end a : ℕ)
      → ptr % 64 ≡ 0
      → end ≤ ptr + fuel * 64
      → (media a ≡ cache a) ⊎ ((ptr ≤ a) × (a / 64 * 64 < end))
      → flush_lines fuel cache media ptr end a ≡ cache a
  unfolding flush_lines clwb
  flush_lines-in zero media ptr end a al enough (inl same) = same
  flush_lines-in zero media ptr end a al enough (inr (lo, hi)) = absurd (omega arith)
  flush_lines-in (suc fuel) media ptr end a al enough h =
      ground (arith, flush_lines-in fuel (clwb cache media ptr) (ptr + 64) end a)

  flush_lines-out :
      (fuel : ℕ) (media : Space) (ptr end a : ℕ)
      → ptr % 64 ≡ 0
      → (a < ptr) ⊎ (end ≤ a / 64 * 64)
      → flush_lines fuel cache media ptr end a ≡ media a
  unfolding flush_lines clwb
  flush_lines-out zero media ptr end a al h = refl
  flush_lines-out (suc fuel) media ptr end a al h =
      ground (arith, flush_lines-out fuel (clwb cache media ptr) (ptr + 64) end a)

  -- `flush_range` makes persistent exactly the cachelines that meet `[addr, addr + len)`: the loop
  -- ends, each byte of such a line becomes the cached one, and every other byte of the media stays.
  pub flush_range_lem :
      (media : Space) (addr len a : ℕ)
      → flush_range cache media addr len a ≡ (if covered addr len a then cache a else media a)
  unfolding flush_range
  flush_range_lem media addr len a = elim (Bool-cases (covered addr len a)) [
    | inl within ↦ ground (
      arith,
      flush_lines-in (len + 1) media (addr - addr % 64) (addr + len) a (omega arith) (omega arith)
          (inr (ground arith)),
    )
    | inr out ↦
        ground
          (arith, flush_lines-out (len + 1) media (addr - addr % 64) (addr + len) a (omega arith))
  ]

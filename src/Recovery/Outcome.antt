-- ===== src/Recovery/Outcome.antt =====
-- The slots after the scan of `recover`, by what they held before it.
use fence.Prelude.{
  ℕ, zero, suc, ◌+◌, ◌≤◌, ◌<◌, ◌≡◌, ◌≢◌, refl, ◌∙◌, ap, arith, false, if◌then◌else◌, inl, inr,
  eq-cases,
}
use fence.Prelude.Bytes.{Space}
use fence.Backend.{Memory}
use fence.Layout.{PoolGeometry, record_offset, state_abandoned}
use fence.Layout.Regions.{records-Apart}
use fence.Checksum.{Hasher}
use fence.Recovery.Sweep.{state_at}
use fence.Recovery.Check.{Agree, intact-Agree}
use fence.Recovery.Repair.{
  broken, repair_slot, repaired, fix, fixes, repaired_state, repair_slot-outside, repair_slot-state,
  repaired-outside,
}

module _ (h : Hasher) (g : PoolGeometry) where
  -- How many of the records are broken.
  unfoldable pub broken_count : Space → ℕ → ℕ → ℕ
  broken_count c zero slot = 0
  broken_count c (suc n) slot = fix h g c slot + broken_count c n (suc slot)

module _ (h : Hasher) (g : PoolGeometry) (sized : g.record_size ≡ 64 + g.payload_size) where
  abbrev Same : Space → Space → ℕ → Type 0
  Same c d slot = Agree c d (record_offset g slot) (record_offset g slot + g.record_size)

  broken-Same :
      (c d : Space) (slot : ℕ)
      → Same c d slot
      → broken h g d (record_offset g slot) ≡ broken h g c (record_offset g slot)
  broken-Same c d slot same = rw (
    same (record_offset g slot + 0) (omega arith) (omega (arith, sized)),
    intact-Agree h g c d (record_offset g slot)
        (λ a lo hi. same a (omega arith) (omega (arith, sized))),
  )

  repaired_state-Same :
      (c d : Space) (slot : ℕ)
      → Same c d slot
      → repaired_state h g d slot ≡ repaired_state h g c slot
  repaired_state-Same c d slot same =
      ap (λ b. if b then state_abandoned else state_at g d slot) (broken-Same c d slot same)
      ∙ ap (λ k. if broken h g c (record_offset g slot) then state_abandoned else k)
          (same (record_offset g slot + 0) (omega arith) (omega (arith, sized)))

  -- A slot's repair leaves every other record alone.
  repair_slot-Same :
      (m : Memory) (slot s : ℕ) → s ≢ slot → Same m.cache (repair_slot h g m slot).cache s
  repair_slot-Same m slot s ne a lo hi =
      repair_slot-outside h g m slot a (omega (arith, sized, records-Apart g s slot ne))

  pub repaired-state :
      (n slot s : ℕ) (m : Memory)
      → slot ≤ s
      → s < slot + n
      → state_at g (repaired h g n slot m).cache s ≡ repaired_state h g m.cache s
  unfolding repaired
  repaired-state zero slot s m lo hi = absurd (omega arith)
  repaired-state (suc n) slot s m lo hi = elim (eq-cases s slot) [
    | inl e ↦
        repaired-outside h g n (suc slot) (repair_slot h g m slot) (record_offset g s + 0)
          (λ t lo' hi'. omega (arith, sized, records-Apart g s t (omega arith)))
        ∙ rw e (repair_slot-state h g m slot)
    | inr ne ↦
        repaired-state n (suc slot) s (repair_slot h g m slot) (omega arith) (omega arith)
        ∙ repaired_state-Same m.cache (repair_slot h g m slot).cache s
            (repair_slot-Same m slot s ne)
  ]

  broken_count-Same :
      (c d : Space) (n slot : ℕ)
      → ((s : ℕ) → slot ≤ s → s < slot + n → Same c d s)
      → broken_count h g d n slot ≡ broken_count h g c n slot
  unfolding broken_count
  broken_count-Same c d zero slot same = refl
  broken_count-Same c d (suc n) slot same = rw (
    broken-Same c d slot (same slot (omega arith) (omega arith)),
    broken_count-Same c d n (suc slot) (λ s lo hi. same s (omega arith) (omega arith)),
  )

  pub fixes-eq-broken_count :
      (n slot : ℕ) (m : Memory) → fixes h g n slot m ≡ broken_count h g m.cache n slot
  unfolding fixes broken_count
  fixes-eq-broken_count zero slot m = refl
  fixes-eq-broken_count (suc n) slot m =
      ap (λ k. fix h g m.cache slot + k)
        (fixes-eq-broken_count n (suc slot) (repair_slot h g m slot)
          ∙ broken_count-Same m.cache (repair_slot h g m slot).cache n (suc slot)
              (λ s lo hi. repair_slot-Same m slot s (omega arith)))

  -- A scan that meets no broken record changes nothing.
  pub repaired_sound :
      (n slot : ℕ) (m : Memory)
      → ((s : ℕ) → slot ≤ s → s < slot + n → broken h g m.cache (record_offset g s) ≡ false)
      → repaired h g n slot m ≡ m
  unfolding repaired
  repaired_sound zero slot m fine = refl
  repaired_sound (suc n) slot m fine =
      rw (fine slot (omega arith) (omega arith))
        (repaired_sound n (suc slot) m (λ s lo hi. fine s (omega arith) (omega arith)))

  pub broken_count_sound :
      (n slot : ℕ) (c : Space)
      → ((s : ℕ) → slot ≤ s → s < slot + n → broken h g c (record_offset g s) ≡ false)
      → broken_count h g c n slot ≡ 0
  unfolding broken_count
  broken_count_sound zero slot c fine = refl
  broken_count_sound (suc n) slot c fine = rw (fine slot (omega arith) (omega arith)) (
      omega
        (arith, broken_count_sound n (suc slot) c (λ s lo hi. fine s (omega arith) (omega arith))))

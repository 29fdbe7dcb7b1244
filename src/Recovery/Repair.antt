-- ===== src/Recovery/Repair.antt =====
-- The scan of `recover`: what it does to one slot, and to all that it visits.
use native.Mathlib.Nat.{add_assoc, add-zero}
use fence.Prelude.{
  ℕ, zero, suc, ◌+◌, ◌≤◌, ◌<◌, ◌≡◌, ◌≢◌, refl, sym, ◌∙◌, arith, Bool, true, not, ◌||◌, ◌==◌,
  if◌then◌else◌, Bool-cases, inl, inr,
}
use fence.Prelude.Bytes.{Space, poke, to_le, length-to_le, poke-outside, poke_byte}
use fence.Backend.{Memory, with_cache, flushed}
use fence.Program.{Runs, Runs-bind, Runs-eq}
use fence.Layout.{
  PoolGeometry, record_offset, state_free, state_writing, state_committed, state_abandoned,
}
use fence.Checksum.{Hasher}
use fence.Recovery.{abandon, check_record, recover_slot, recover_scan}
use fence.Recovery.Sweep.{state_at}
use fence.Recovery.Check.{Fits, intact, check_record-Runs}

-- The record at `r` becomes ABANDONED, and its first cacheline is flushed.
abbrev pub abandoned : Memory → ℕ → Memory
abandoned m r = flushed (with_cache m (poke m.cache (r + 0) (to_le 1 3))) r 64

module _ (h : Hasher) (g : PoolGeometry) where
  -- Whether recovery abandons the record at `r`.
  abbrev pub broken : Space → ℕ → Bool
  broken c r =
      if c (r + 0) == state_writing
      then true
      else if c (r + 0) == state_committed
      then not (intact h g c r)
      else not (c (r + 0) == state_free || c (r + 0) == state_abandoned)

  abbrev pub repair_slot : Memory → ℕ → Memory
  repair_slot m slot =
      let r = record_offset g slot in
      record m {
        cache = if broken m.cache r then (abandoned m r).cache else m.cache;
        media = if broken m.cache r then (abandoned m r).media else m.media;
      }

  unfoldable pub repaired : ℕ → ℕ → Memory → Memory
  repaired zero slot m = m
  repaired (suc n) slot m = repaired n (suc slot) (repair_slot m slot)

  abbrev pub fix : Space → ℕ → ℕ
  fix c slot = if broken c (record_offset g slot) then 1 else 0

  -- How many records the scan abandons.
  unfoldable pub fixes : ℕ → ℕ → Memory → ℕ
  fixes zero slot m = 0
  fixes (suc n) slot m = fix m.cache slot + fixes n (suc slot) (repair_slot m slot)

  abandon-Runs : (m : Memory) (r : ℕ) → Fits g m.size r → Runs (abandon r) m 1 (abandoned m r)
  unfolding abandon
  abandon-Runs m r f = (omega arith, (omega arith, (refl, refl)))

  recover_slot-Runs :
      (m : Memory) (slot : ℕ)
      → Fits g m.size (record_offset g slot)
      → Runs (recover_slot h g slot) m (fix m.cache slot) (repair_slot m slot)
  unfolding recover_slot
  recover_slot-Runs m slot f = (
    omega (arith, f.inside, f.sized),
    elim (Bool-cases (s == 1)) [
      | inl w ↦ rw w (Runs-eq (abandon r) m (rw w refl) (rw w refl) (abandon-Runs m r f))
      | inr nw ↦ rw nw (elim (Bool-cases (s == 2)) [
        | inl c ↦ rw c (
            Runs-bind _ _ (check_record h g r) m (intact h g m.cache r) m
              (check_record-Runs h g m r f)
              (elim (Bool-cases (intact h g m.cache r)) [
                | inl good ↦ rw good (rw (nw, c) (refl, refl))
                | inr bad ↦
                    rw bad (
                      Runs-eq (abandon r) m (rw (nw, c) refl) (rw (nw, c) refl)
                        (abandon-Runs m r f))
              ]))
        | inr nc ↦ rw nc (elim (Bool-cases (s == 0 || s == 3)) [
          | inl idle ↦ rw idle (rw (nw, nc, idle) (refl, refl))
          | inr odd ↦ rw odd (
              Runs-eq (abandon r) m (rw (nw, nc, odd) refl) (rw (nw, nc, odd) refl)
                (abandon-Runs m r f))
        ])
      ])
    ],
  )
    where
      r : ℕ
      r = record_offset g slot

      s : ℕ
      s = m.cache (r + 0)

  pub recover_scan-Runs :
      (n slot count : ℕ) (m : Memory)
      → ((s : ℕ) → s < slot + n → Fits g m.size (record_offset g s))
      → Runs (recover_scan h g n slot count) m (count + fixes n slot m) (repaired n slot m)
  unfolding recover_scan fixes repaired
  recover_scan-Runs zero slot count m fits = (sym (add-zero count), refl)
  recover_scan-Runs (suc n) slot count m fits =
      Runs-bind _ _ (recover_slot h g slot) m (fix m.cache slot) (repair_slot m slot)
        (recover_slot-Runs m slot (fits slot (omega arith)))
        (Runs-eq (recover_scan h g n (suc slot) (count + fix m.cache slot)) (repair_slot m slot)
          (add_assoc count (fix m.cache slot) (fixes n (suc slot) (repair_slot m slot))) refl
          (recover_scan-Runs n (suc slot) (count + fix m.cache slot) (repair_slot m slot)
            (λ s lt. fits s (omega arith))))

  pub size-repaired : (n slot : ℕ) (m : Memory) → (repaired n slot m).size ≡ m.size
  unfolding repaired
  size-repaired zero slot m = refl
  size-repaired (suc n) slot m = size-repaired n (suc slot) (repair_slot m slot)

  -- A slot's repair writes its state byte alone.
  pub repair_slot-outside :
      (m : Memory) (slot a : ℕ)
      → a ≢ record_offset g slot + 0
      → (repair_slot m slot).cache a ≡ m.cache a
  repair_slot-outside m slot a ne = elim (Bool-cases (broken m.cache (record_offset g slot))) [
    | inl b ↦ rw b (
        poke-outside m.cache (record_offset g slot + 0) (to_le 1 3) a
          (omega (arith, length-to_le 1 3)))
    | inr k ↦ rw k
  ]

  -- The state byte after the repair.
  abbrev pub repaired_state : Space → ℕ → ℕ
  repaired_state c slot =
      if broken c (record_offset g slot) then state_abandoned else state_at g c slot

  pub repair_slot-state :
      (m : Memory) (slot : ℕ)
      → state_at g (repair_slot m slot).cache slot ≡ repaired_state m.cache slot
  repair_slot-state m slot = elim (Bool-cases (broken m.cache (record_offset g slot))) [
    | inl b ↦ rw b (poke_byte m.cache (record_offset g slot + 0) 3 (omega arith))
    | inr k ↦ rw k
  ]

  pub repaired-outside :
      (n slot : ℕ) (m : Memory) (a : ℕ)
      → ((s : ℕ) → slot ≤ s → s < slot + n → a ≢ record_offset g s + 0)
      → (repaired n slot m).cache a ≡ m.cache a
  unfolding repaired
  repaired-outside zero slot m a out = refl
  repaired-outside (suc n) slot m a out =
      repaired-outside n (suc slot) (repair_slot m slot) a
        (λ s lo hi. out s (omega arith) (omega arith))
      ∙ repair_slot-outside m slot a (out slot (omega arith) (omega arith))

  repaired-zero : (slot : ℕ) (m : Memory) → repaired 0 slot m ≡ m
  unfolding repaired
  repaired-zero slot m = refl

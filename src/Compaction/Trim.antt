-- ===== src/Compaction/Trim.antt =====
-- `trim`: what it does to each slot, and what it answers.
use native.Mathlib.Nat.{mod-eq_of_lt, add_assoc, add-zero}
use fence.Prelude.{
  ℕ, zero, suc, ◌+◌, ◌^◌, ◌≤◌, ◌<◌, ◌≡◌, ◌≢◌, refl, sym, ◌∙◌, ap, arith, Bool, ◌==◌, if◌then◌else◌,
  Bool-cases, inl, inr, eq-cases, le-cases, ltb→false, lt→ltb,
}
use fence.Prelude.Bytes.{Space, to_le, length-to_le, poke-outside, poke_byte}
use fence.Backend.{Memory, get_le}
use fence.Program.{Ensures, Runs, Runs-bind, Runs-eq, Runs-Ensures}
use fence.FenceError.{Result, ok, err, trim_beyond_committed}
use fence.Layout.{PoolGeometry, record_offset, state_committed, state_abandoned}
use fence.Layout.Regions.{records-Apart}
use fence.Metrics.Counters.{IsMapped}
use fence.Recovery.Sweep.{state_at}
use fence.Recovery.Check.{Fits}
use fence.Recovery.Places.{slot-Fits, header-Word}
use fence.Recovery.Repair.{abandoned}
use fence.Compaction.{TrimResult, trim_slot, trim_scan, trim}

module _ (g : PoolGeometry) where
  abbrev is_trimmed : Space → ℕ → Bool
  is_trimmed c slot = state_at g c slot == state_committed

  abbrev trimmed_slot : Memory → ℕ → Memory
  trimmed_slot m slot =
      let r = record_offset g slot in
      record m {
        cache = if is_trimmed m.cache slot then (abandoned m r).cache else m.cache;
        media = if is_trimmed m.cache slot then (abandoned m r).media else m.media;
      }

  unfoldable pub trimmed : ℕ → ℕ → Memory → Memory
  trimmed zero slot m = m
  trimmed (suc n) slot m = trimmed n (suc slot) (trimmed_slot m slot)

  abbrev hit : Space → ℕ → ℕ
  hit c slot = if is_trimmed c slot then 1 else 0

  -- How many of the `n` slots from `slot` on are COMMITTED.
  unfoldable pub committed_count : Space → ℕ → ℕ → ℕ
  committed_count c zero slot = 0
  committed_count c (suc n) slot = hit c slot + committed_count c n (suc slot)

  -- The state that a trim leaves.
  abbrev pub trimmed_state : Space → ℕ → ℕ
  trimmed_state c slot = if is_trimmed c slot then state_abandoned else state_at g c slot

  trim_slot-Runs :
      (m : Memory) (slot : ℕ)
      → Fits g m.size (record_offset g slot)
      → Runs (trim_slot g slot) m (hit m.cache slot) (trimmed_slot m slot)
  unfolding trim_slot
  trim_slot-Runs m slot f = (
    omega (arith, f.inside, f.sized),
    elim (Bool-cases (is_trimmed m.cache slot)) [
      | inl e ↦ rw e (
        omega (arith, f.inside, f.sized),
        (omega (arith, f.inside, f.sized), (rw e refl, rw e refl)),
      )
      | inr ne ↦ rw ne (rw ne (refl, refl))
    ],
  )

  trimmed_slot-outside :
      (m : Memory) (slot a : ℕ)
      → a ≢ record_offset g slot + 0
      → (trimmed_slot m slot).cache a ≡ m.cache a
  trimmed_slot-outside m slot a ne = elim (Bool-cases (is_trimmed m.cache slot)) [
    | inl e ↦ rw e (
        poke-outside m.cache (record_offset g slot + 0) (to_le 1 3) a
          (omega (arith, length-to_le 1 3)))
    | inr no_hit ↦ rw no_hit
  ]

  trimmed_slot-state :
      (m : Memory) (slot : ℕ)
      → state_at g (trimmed_slot m slot).cache slot ≡ trimmed_state m.cache slot
  trimmed_slot-state m slot = elim (Bool-cases (is_trimmed m.cache slot)) [
    | inl e ↦ rw e (poke_byte m.cache (record_offset g slot + 0) 3 (omega arith))
    | inr no_hit ↦ rw no_hit
  ]

  pub trimmed-outside :
      (n slot : ℕ) (m : Memory) (a : ℕ)
      → ((s : ℕ) → slot ≤ s → s < slot + n → a ≢ record_offset g s + 0)
      → (trimmed n slot m).cache a ≡ m.cache a
  unfolding trimmed
  trimmed-outside zero slot m a out = refl
  trimmed-outside (suc n) slot m a out =
      trimmed-outside n (suc slot) (trimmed_slot m slot) a
        (λ s lo hi. out s (omega arith) (omega arith))
      ∙ trimmed_slot-outside m slot a (out slot (omega arith) (omega arith))

  module _ (sized : g.record_size ≡ 64 + g.payload_size) where
    other-state :
        (m : Memory) (slot s : ℕ)
        → s ≢ slot
        → state_at g (trimmed_slot m slot).cache s ≡ state_at g m.cache s
    other-state m slot s ne =
        trimmed_slot-outside m slot (record_offset g s + 0)
          (omega (arith, sized, records-Apart g s slot ne))

    trimmed-state :
        (n slot s : ℕ) (m : Memory)
        → slot ≤ s
        → s < slot + n
        → state_at g (trimmed n slot m).cache s ≡ trimmed_state m.cache s
    unfolding trimmed
    trimmed-state zero slot s m lo hi = absurd (omega arith)
    trimmed-state (suc n) slot s m lo hi = elim (eq-cases s slot) [
      | inl e ↦
          trimmed-outside n (suc slot) (trimmed_slot m slot) (record_offset g s + 0)
            (λ t lo' hi'. omega (arith, sized, records-Apart g s t (omega arith)))
          ∙ rw e (trimmed_slot-state m slot)
      | inr ne ↦
          trimmed-state n (suc slot) s (trimmed_slot m slot) (omega arith) (omega arith)
          ∙ ap (λ k. if k == state_committed then state_abandoned else k) (other-state m slot s ne)
    ]

    committed_count-state :
        (c d : Space) (n slot : ℕ)
        → ((s : ℕ) → slot ≤ s → s < slot + n → state_at g d s ≡ state_at g c s)
        → committed_count d n slot ≡ committed_count c n slot
    unfolding committed_count
    committed_count-state c d zero slot same = refl
    committed_count-state c d (suc n) slot same = rw (
      same slot (omega arith) (omega arith),
      committed_count-state c d n (suc slot) (λ s lo hi. same s (omega arith) (omega arith)),
    )

    trim_scan-Runs :
        (n slot count : ℕ) (m : Memory)
        → ((s : ℕ) → s < slot + n → Fits g m.size (record_offset g s))
        → Runs
            (trim_scan g n slot count)
            m
            (count + committed_count m.cache n slot)
            (trimmed n slot m)
    unfolding trim_scan committed_count trimmed
    trim_scan-Runs zero slot count m fits = (sym (add-zero count), refl)
    trim_scan-Runs (suc n) slot count m fits =
        Runs-bind _ _ (trim_slot g slot) m (hit m.cache slot) (trimmed_slot m slot)
          (trim_slot-Runs m slot (fits slot (omega arith)))
          (Runs-eq (trim_scan g n (suc slot) (count + hit m.cache slot)) (trimmed_slot m slot)
            (add_assoc count (hit m.cache slot)
                (committed_count (trimmed_slot m slot).cache n (suc slot))
              ∙ ap (λ k. count + (hit m.cache slot + k))
                  (committed_count-state m.cache (trimmed_slot m slot).cache n (suc slot)
                    (λ s lo hi. other-state m slot s (omega arith))))
            refl
            (trim_scan-Runs n (suc slot) (count + hit m.cache slot) (trimmed_slot m slot)
              (λ s lt. fits s (omega arith))))

-- What a trim that is not refused makes of the memory.
pub record Trimmed (g : PoolGeometry) (up_to : ℕ) (m n : Memory) : Type 0 where
  pub below : (s : ℕ) → s < up_to → state_at g n.cache s ≡ trimmed_state g m.cache s
  pub above : (s : ℕ) → up_to ≤ s → state_at g n.cache s ≡ state_at g m.cache s
  pub bodies : (a : ℕ) → ((s : ℕ) → a ≢ record_offset g s + 0) → n.cache a ≡ m.cache a

module _ (g : PoolGeometry) (m : Memory) (up_to : ℕ) where
  -- What `trim` has to answer, and the memory that goes with it.
  abbrev pub TrimAnswer : Result TrimResult → Memory → Type 0
  TrimAnswer (ok result) n =
      (up_to ≤ get_le 8 m.cache 32)
      × (result.trimmed_count ≡ committed_count g m.cache up_to 0)
      × Trimmed g up_to m n
  TrimAnswer (err e) n =
      (get_le 8 m.cache 32 < up_to)
      × (e ≡ trim_beyond_committed up_to (get_le 8 m.cache 32))
      × (n ≡ m)

module _ (g : PoolGeometry) (m : Memory) (up_to : ℕ) (v : IsMapped g m.size)
    (tail_le : get_le 8 m.cache 32 ≤ g.capacity) where
  trimmed-Trimmed : Trimmed g up_to m (trimmed g up_to 0 m)
  trimmed-Trimmed = record {
    below = λ s lt. trimmed-state g v.geometry.record_lem up_to 0 s m (omega arith) (omega arith);
    above = λ s le.
        trimmed-outside g up_to 0 m (record_offset g s + 0)
          (λ t lo hi. omega (arith, v.geometry.record_lem, records-Apart g s t (omega arith)));
    bodies = λ a out. trimmed-outside g up_to 0 m a (λ s lo hi. out s);
  }

  trim-beyond :
      get_le 8 m.cache 32 < up_to
      → Runs (trim g up_to) m (err (trim_beyond_committed up_to (get_le 8 m.cache 32))) m
  unfolding trim
  trim-beyond beyond =
      (header-Word g m.size 32 v (omega arith) refl, rw (lt→ltb _ _ beyond) (refl, refl))

  trim-within :
      up_to ≤ get_le 8 m.cache 32
      → Runs
          (trim g up_to)
          m
          (ok (record { trimmed_count = committed_count g m.cache up_to 0 }))
          (trimmed g up_to 0 m)
  unfolding trim
  trim-within within = (
    header-Word g m.size 32 v (omega arith) refl,
    rw
        (
          ltb→false _ _ within,
          mod-eq_of_lt {n = up_to} {m = 2 ^ 32} (omega (arith, v.geometry.capacity_u32)),
        )
        (Runs-bind _ _ (trim_scan g up_to 0 0) m (0 + committed_count g m.cache up_to 0)
          (trimmed g up_to 0 m)
          (trim_scan-Runs g v.geometry.record_lem up_to 0 0 m
            (λ s lt. slot-Fits g m.size s v (omega arith)))
          (ap (λ k. ok (record { trimmed_count = k })) (omega arith), refl)),
  )

  -- `trim` on a mapped pool whose tail is within the capacity ends without failure. Past the committed
  -- tail it answers `TrimBeyondCommitted` and changes nothing. Otherwise the slots below `up_to` that
  -- were COMMITTED become ABANDONED and are counted, and no other byte of the pool changes.
  pub trim_lem : Ensures (TrimAnswer g m up_to) (trim g up_to) m
  trim_lem = elim (le-cases up_to (get_le 8 m.cache 32)) [
    | inl within ↦
        Runs-Ensures _ (trim g up_to) m _ (trimmed g up_to 0 m) (trim-within within)
          (within, refl, trimmed-Trimmed)
    | inr beyond ↦ Runs-Ensures _ (trim g up_to) m _ m (trim-beyond beyond) (beyond, refl, refl)
  ]

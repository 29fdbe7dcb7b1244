-- ===== src/Recovery/Protocol.antt =====
-- `recover` as a whole: the report, the repaired slots, the tail, and a second run.
use fence.Prelude.{
  ℕ, ◌+◌, ◌-◌, ◌^◌, ◌≤◌, ◌<◌, ◌≡◌, ◌≢◌, ◌⊎◌, refl, sym, ◌∙◌, ap, arith, true, false, inl, inr,
  eq-cases, le-cases, ==_refl, min,
}
use native.Mathlib.Nat.{mod-eq_of_lt}
use mathlib.Core.Path.{subst}
use fence.Prelude.Bytes.{Space}
use fence.Backend.{Memory, get_le}
use fence.Program.{Ensures, Runs, Runs-bind, Runs-Ensures, Runs-run, run, done, ret, ◌>>=◌}
use fence.Layout.{PoolGeometry, record_offset}
use fence.Layout.Regions.{records-Apart}
use fence.Checksum.{Hasher}
use fence.Metrics.Counters.{IsMapped}
use fence.Recovery.{RecoveryReport, recover, recover_scan, advance_committed_tail}
use fence.Recovery.Sweep.{
  state_at, sweep, sweep-bounds, sweep-committed, sweep-stops, sweep-stays, swept, advanced,
  advance-Runs, advanced-outside, tail-advanced,
}
use fence.Recovery.Check.{Agree, get_le-Agree, intact, intact-Agree}
use fence.Recovery.Places.{header-Word, slot-Fits, states-fit}
use fence.Recovery.Repair.{
  broken, repaired, fixes, recover_scan-Runs, repaired-outside, size-repaired, repaired_state,
}
use fence.Recovery.Outcome.{
  repaired-state, broken_count, fixes-eq-broken_count, repaired_sound, broken_count_sound,
}

module _ (h : Hasher) (g : PoolGeometry) where
  -- The slots that recovery visits.
  abbrev pub scanned : Memory → ℕ
  scanned m = min (get_le 8 m.cache 40) g.capacity

  abbrev pub recovered : Memory → Memory
  recovered m = advanced g (repaired h g (scanned m) 0 m)

  abbrev pub report : Memory → RecoveryReport
  report m = record {
    abandoned_count = broken_count h g m.cache (scanned m) 0;
    committed_tail = swept g (repaired h g (scanned m) 0 m).cache;
    slots_scanned = scanned m;
  }

  recover-Runs : (m : Memory) → IsMapped g m.size → Runs (recover h g) m (report m) (recovered m)
  unfolding recover
  recover-Runs m v = (
    header-Word g m.size 40 v (omega arith) refl,
    rw (mod-eq_of_lt {n = scanned m} {m = 2 ^ 32} (omega (arith, v.geometry.capacity_u32))) (
        Runs-bind _ _ (recover_scan h g (scanned m) 0 0) m (0 + fixes h g (scanned m) 0 m) m₁
          (recover_scan-Runs h g (scanned m) 0 0 m (λ s lt. slot-Fits g m.size s v (omega arith)))
          (Runs-bind _ _ (advance_committed_tail g) m₁ (swept g m₁.cache) (advanced g m₁)
            (advance-Runs g m₁ v.geometry.capacity_u32
              (λ s lt. rw (size-repaired h g (scanned m) 0 m) (states-fit g m.size v s lt))
              (rw (size-repaired h g (scanned m) 0 m)
                (header-Word g m.size 32 v (omega arith) refl)))
            (
              ap (λ k. record (report m) { abandoned_count = k })
                  (omega (arith, fixes-eq-broken_count h g v.geometry.record_lem (scanned m) 0 m)),
              refl,
            ))),
  )
    where
      m₁ : Memory
      m₁ = repaired h g (scanned m) 0 m

-- What recovery makes of the memory `m`.
pub record Recovered (h : Hasher) (g : PoolGeometry) (m n : Memory) : Type 0 where
  pub settled :
      (s : ℕ)
      → s < scanned h g m
      → (state_at g n.cache s ≡ 0) ⊎ ((state_at g n.cache s ≡ 2) ⊎ (state_at g n.cache s ≡ 3))
  pub sound :
      (s : ℕ)
      → s < scanned h g m
      → state_at g n.cache s ≡ 2
      → intact h g n.cache (record_offset g s) ≡ true
  pub kept :
      (s : ℕ)
      → s < g.capacity
      → state_at g m.cache s ≡ 2
      → intact h g m.cache (record_offset g s) ≡ true
      → state_at g n.cache s ≡ 2
  pub bodies :
      (s : ℕ)
      → s < g.capacity
      → Agree m.cache n.cache (record_offset g s + 1) (record_offset g s + g.record_size)
  pub reserve : get_le 8 n.cache 40 ≡ get_le 8 m.cache 40
  pub advances : get_le 8 m.cache 32 ≤ get_le 8 n.cache 32
  pub contiguous :
      (s : ℕ) → get_le 8 m.cache 32 ≤ s → s < get_le 8 n.cache 32 → state_at g n.cache s ≡ 2
  pub stops : get_le 8 n.cache 32 < g.capacity → state_at g n.cache (get_le 8 n.cache 32) ≢ 2
  pub bound : get_le 8 n.cache 32 ≤ g.capacity
  pub above : (s : ℕ) → scanned h g m ≤ s → state_at g n.cache s ≡ state_at g m.cache s
  pub abandons : (s : ℕ) → s < scanned h g m → state_at g m.cache s ≡ 1 → state_at g n.cache s ≡ 3
  pub origin : (s : ℕ) → state_at g n.cache s ≡ 2 → state_at g m.cache s ≡ 2

module _ (h : Hasher) (g : PoolGeometry) (m : Memory) (v : IsMapped g m.size)
    (tail : get_le 8 m.cache 32 ≤ g.capacity) where
  abbrev m₁ : Memory
  m₁ = repaired h g (scanned h g m) 0 m

  abbrev n : Memory
  n = recovered h g m

  sized : g.record_size ≡ 64 + g.payload_size
  sized = v.geometry.record_lem

  state-below : (s : ℕ) → s < scanned h g m → state_at g n.cache s ≡ repaired_state h g m.cache s
  state-below s lt =
      advanced-outside g m₁ _ (omega arith)
      ∙ repaired-state h g sized (scanned h g m) 0 s m (omega arith) (omega arith)

  body-same :
      (s : ℕ)
      → s < g.capacity
      → Agree m.cache n.cache (record_offset g s + 1) (record_offset g s + g.record_size)
  body-same s lt a lo hi =
      advanced-outside g m₁ a (omega arith)
      ∙ repaired-outside h g (scanned h g m) 0 m a (λ t lo' hi'. elim (eq-cases s t) [
        | inl e ↦ omega (arith, ap (record_offset g) e)
        | inr ne ↦ omega (arith, sized, records-Apart g s t ne)
      ])

  intact-same :
      (s : ℕ)
      → s < g.capacity
      → intact h g n.cache (record_offset g s) ≡ intact h g m.cache (record_offset g s)
  intact-same s lt =
      intact-Agree h g m.cache n.cache (record_offset g s)
        (λ a lo hi. body-same s lt a lo (omega (arith, sized)))

  state-above : (s : ℕ) → scanned h g m ≤ s → state_at g n.cache s ≡ state_at g m.cache s
  state-above s le =
      advanced-outside g m₁ _ (omega arith)
      ∙ repaired-outside h g (scanned h g m) 0 m (record_offset g s + 0)
          (λ t lo hi. omega (arith, sized, records-Apart g s t (omega arith)))

  -- A scanned slot is abandoned, or was FREE, ABANDONED, or COMMITTED with a right checksum.
  repaired_state-cases :
      (c : Space) (s : ℕ)
      → (repaired_state h g c s ≡ 3)
        ⊎ ((repaired_state h g c s ≡ 0)
            ⊎ ((repaired_state h g c s ≡ 2) × (intact h g c (record_offset g s) ≡ true)))
  repaired_state-cases c s = ground arith

  repaired_state-origin : (c : Space) (s : ℕ) → repaired_state h g c s ≡ 2 → state_at g c s ≡ 2
  repaired_state-origin c s e = ground (arith, e)

  header-same : (o : ℕ) → o + 8 ≤ 64 → get_le 8 m₁.cache o ≡ get_le 8 m.cache o
  header-same o le =
      get_le-Agree 8 m.cache m₁.cache o 0 64
        (λ a lo hi. repaired-outside h g (scanned h g m) 0 m a (λ t lo' hi'. omega arith))
        (omega arith) le

  tail₁ : get_le 8 m₁.cache 32 ≡ get_le 8 m.cache 32
  tail₁ = header-same 32 (omega arith)

  tail-n : get_le 8 n.cache 32 ≡ swept g m₁.cache
  tail-n = tail-advanced g m₁ (omega (arith, tail₁)) v.geometry.capacity_u32

  -- The sweep reads the states that it leaves.
  state-n : (s : ℕ) → state_at g n.cache s ≡ state_at g m₁.cache s
  state-n s = advanced-outside g m₁ _ (omega arith)

  swept_bounds : (get_le 8 m₁.cache 32 ≤ swept g m₁.cache) × (swept g m₁.cache ≤ g.capacity)
  swept_bounds =
      let b : (t₁ ≤ sweep g m₁.cache (g.capacity - t₁) t₁)
          × (sweep g m₁.cache (g.capacity - t₁) t₁ ≤ t₁ + (g.capacity - t₁)) =
        sweep-bounds g m₁.cache (g.capacity - t₁) t₁ in
      (b.0, omega (arith, tail₁))
    where
      t₁ : ℕ
      t₁ = get_le 8 m₁.cache 32

  recover-Recovered : Recovered h g m n
  recover-Recovered = record {
    settled = λ s lt. ground (arith, state-below s lt, repaired_state-cases m.cache s);
    sound = λ s lt st.
        intact-same s (omega arith)
        ∙ ground (arith, state-below s lt, repaired_state-cases m.cache s);
    kept = λ s lt st good. elim (le-cases (scanned h g m) s) [
      | inl above ↦ state-above s above ∙ st
      | inr below ↦ state-below s below ∙ rw (st, good)
    ];
    bodies = body-same;
    reserve =
        get_le-Agree 8 m₁.cache n.cache 40 40 48 (λ a lo hi. advanced-outside g m₁ a (omega arith))
          (omega arith) (omega arith)
        ∙ header-same 40 (omega arith);
    advances = omega (arith, tail-n, tail₁, swept_bounds);
    contiguous = λ s lo hi.
        state-n s
        ∙ sweep-committed g m₁.cache (g.capacity - get_le 8 m₁.cache 32) (get_le 8 m₁.cache 32) s
            (omega (arith, tail₁)) (omega (arith, tail-n));
    stops = λ lt e.
        sweep-stops g m₁.cache (g.capacity - get_le 8 m₁.cache 32) (get_le 8 m₁.cache 32)
          (omega (arith, tail-n, tail₁, swept_bounds))
          (sym (state-n (swept g m₁.cache)) ∙ subst (λ t. state_at g n.cache t ≡ 2) tail-n e);
    bound = omega (arith, tail-n, swept_bounds);
    above = state-above;
    abandons = λ s lt st. state-below s lt ∙ rw st refl;
    origin = λ s st. elim (le-cases (scanned h g m) s) [
      | inl high ↦ sym (state-above s high) ∙ st
      | inr low ↦ repaired_state-origin m.cache s (sym (state-below s low) ∙ st)
    ];
  }

  -- `recover` on any mapped pool whose tail is within the capacity ends without panic, failed assertion
  -- or lack of fuel. It visits the slots below `min(reserve_tail, capacity)` and reports how many of
  -- them were broken (WRITING, COMMITTED with a wrong checksum, or in a state that is none of the four),
  -- and the tail that it leaves. Afterwards every visited slot is FREE, ABANDONED, or
  -- COMMITTED with a right checksum; no COMMITTED record with a right checksum is lost; nothing of a
  -- record but its state is written; and the tail has advanced over COMMITTED slots alone, as far as
  -- they reach.
  pub recover_lem :
      Ensures
        (λ rep k.
          (rep.slots_scanned ≡ min (get_le 8 m.cache 40) g.capacity)
          × (rep.abandoned_count ≡ broken_count h g m.cache rep.slots_scanned 0)
          × (rep.committed_tail ≡ get_le 8 k.cache 32)
          × Recovered h g m k)
        (recover h g)
        m
  recover_lem =
      Runs-Ensures _ (recover h g) m (report h g m) n (recover-Runs h g m v)
        (refl, refl, sym tail-n, recover-Recovered)

  unbroken_of :
      (c : Space) (s : ℕ)
      → (state_at g c s ≡ 0) ⊎ ((state_at g c s ≡ 2) ⊎ (state_at g c s ≡ 3))
      → (state_at g c s ≡ 2 → intact h g c (record_offset g s) ≡ true)
      → broken h g c (record_offset g s) ≡ false
  unbroken_of c s (inl e) good = rw e
  unbroken_of c s (inr (inl e)) good = rw (e, good e)
  unbroken_of c s (inr (inr e)) good = rw e

  unbroken :
      (s : ℕ) → 0 ≤ s → s < 0 + scanned h g n → broken h g n.cache (record_offset g s) ≡ false
  unbroken s lo lt =
      unbroken_of n.cache s (recover-Recovered.settled s below) (recover-Recovered.sound s below)
    where
      below : s < scanned h g m
      below = omega (arith, recover-Recovered.reserve)

  swept-again : swept g n.cache ≡ get_le 8 n.cache 32
  swept-again =
      sweep-stays g n.cache (g.capacity - get_le 8 n.cache 32) (get_le 8 n.cache 32)
        (λ room. recover-Recovered.stops (omega arith))

  repaired-again : repaired h g (scanned h g n) 0 n ≡ n
  repaired-again = repaired_sound h g sized (scanned h g n) 0 n unbroken

  recovered-again : recovered h g n ≡ n
  recovered-again = rw (repaired-again, swept-again, ==_refl (get_le 8 n.cache 32))

  IsMapped-n : IsMapped g n.size
  IsMapped-n = subst (IsMapped g) (sym (size-repaired h g (scanned h g m) 0 m)) v

  -- Recovery is idempotent: a second run right after the first finds nothing to abandon, reports the
  -- same tail, and ends in exactly the memory, cache and media, in which the first run ended.
  pub recover_idempotent :
      Ensures
        (λ (reports : RecoveryReport × RecoveryReport) k.
          (run (recover h g) m ≡ (done reports.0, k))
          × (reports.1.abandoned_count ≡ 0)
          × (reports.1.committed_tail ≡ reports.0.committed_tail))
        (do first ← recover h g; second ← recover h g; ret (first, second))
        m
  recover_idempotent = Runs-bind _ _ (recover h g) m (report h g m) n (recover-Runs h g m v) (
      Runs-bind _ _ (recover h g) n (report h g n) (recovered h g n) (recover-Runs h g n IsMapped-n)
        (
          rw recovered-again (Runs-run (recover h g) m (report h g m) n (recover-Runs h g m v)),
          broken_count_sound h g sized (scanned h g n) 0 n.cache unbroken,
          ap (λ (k : Memory). swept g k.cache) repaired-again ∙ swept-again ∙ tail-n,
        ))

-- ===== src/Engine/Pool.antt =====
-- A well-formed pool, and what an append makes of it.
use mathlib.Core.Path.{subst}
use fence.Prelude.{
  ℕ, suc, ◌+◌, ◌-◌, ◌%◌, ◌^◌, ◌≤◌, ◌<◌, ◌≡◌, ◌≢◌, ◌⊎◌, sym, ◌∙◌, List, arith, length, true, inl,
  inr, eq-cases, le-cases,
}
use fence.Prelude.Bytes.{to_le, poke-outside, poke_byte, length-to_le}
use fence.Backend.{Memory, get_le, u64_mod}
use fence.Backend.Fields.{put_le-outside, get_le-put_le_self}
use fence.Layout.{PoolGeometry, record_offset, metrics_offset, state_free, state_committed}
use fence.Layout.Regions.{record_below_metrics, records-Apart}
use fence.Checksum.{Hasher, compute}
use fence.Metrics.Counters.{counted, counted-below}
use fence.Recovery.Sweep.{
  state_at, advanced, swept, advanced-outside, tail-advanced, sweep, sweep-bounds, sweep-committed,
  sweep-passes,
}
use fence.Recovery.Check.{Agree, get_le-Agree, intact, intact-Agree}
use fence.Engine.{FenceRuntime}
use fence.Engine.Stored.{IsRuntime, Stores, Stores-Agree, intact-Stores}
use fence.Engine.Write.{written, written-Stores, written-outside, committed}
use fence.Engine.Append.{finished, recorded, appended, reserved}

pub record IsPool (h : Hasher) (rt : FenceRuntime) (m : Memory) : Type 0 where
  pub runtime : IsRuntime rt m.size
  pub tail_le : get_le 8 m.cache 32 ≤ get_le 8 m.cache 40
  pub reserve_le : get_le 8 m.cache 40 ≤ rt.geometry.capacity
  pub fresh :
      (slot : ℕ)
      → get_le 8 m.cache 40 ≤ slot
      → slot < rt.geometry.capacity
      → state_at rt.geometry m.cache slot ≡ state_free
  pub sound :
      (slot : ℕ)
      → slot < rt.geometry.capacity
      → state_at rt.geometry m.cache slot ≡ state_committed
      → intact h rt.geometry m.cache (record_offset rt.geometry slot) ≡ true
  pub numbered :
      (slot : ℕ)
      → slot < rt.geometry.capacity
      → state_at rt.geometry m.cache slot ≡ state_committed
      → get_le 8 m.cache (record_offset rt.geometry slot + 16) ≡ suc slot

finished-outside :
    (rt : FenceRuntime) (n : ℕ) (m : Memory) (a : ℕ)
    → (a < 32) ⊎ (40 ≤ a)
    → a < metrics_offset rt.geometry rt.host_id
    → (finished rt n m).cache a ≡ m.cache a
finished-outside rt n m a out below =
    counted-below rt.geometry rt.host_id
      (counted rt.geometry rt.host_id 0 1 (advanced rt.geometry m)) 16 n a below
    ∙ counted-below rt.geometry rt.host_id (advanced rt.geometry m) 0 1 a below
    ∙ advanced-outside rt.geometry m a out

module _ (h : Hasher) (rt : FenceRuntime) (m : Memory) (slot term : ℕ) (payload : List ℕ)
    (p : IsPool h rt m) (is_next : get_le 8 m.cache 40 ≡ slot) (room : slot < rt.geometry.capacity)
    (fit : length payload ≤ rt.geometry.payload_size) (term_u64 : term < 2 ^ 64) where
  g : PoolGeometry
  g = rt.geometry

  abbrev r : ℕ
  r = record_offset rt.geometry slot

  abbrev m₂ : Memory
  m₂ = committed (recorded h rt slot term payload (reserved h rt m)) r

  abbrev m' : Memory
  m' = appended h rt slot term payload (reserved h rt m)

  sized : rt.geometry.record_size ≡ 64 + rt.geometry.payload_size
  sized = p.runtime.mapped.geometry.record_lem

  below : r + rt.geometry.record_size ≤ metrics_offset rt.geometry rt.host_id
  below = record_below_metrics rt.geometry slot rt.host_id room

  -- Everything but the header's tails, the record and the counters is as it was.
  m₂-outside :
      (a : ℕ)
      → (a < 40) ⊎ (48 ≤ a)
      → (a < r) ⊎ (r + rt.geometry.record_size ≤ a)
      → m₂.cache a ≡ m.cache a
  m₂-outside a tails out =
      poke-outside _ (r + 0) (to_le 1 2) a (omega (arith, length-to_le 1 2, sized))
      ∙ written-outside h rt _ r (slot + 1) term payload a (omega (arith, sized))
      ∙ put_le-outside 8 m.cache 40 _ a tails

  pub append-outside :
      (a : ℕ)
      → 48 ≤ a
      → a < metrics_offset rt.geometry rt.host_id
      → (a < r) ⊎ (r + rt.geometry.record_size ≤ a)
      → m'.cache a ≡ m.cache a
  append-outside a lo hi out =
      finished-outside rt (length payload) m₂ a (omega arith) hi ∙ m₂-outside a (omega arith) out

  append-inside :
      Agree
        (written h rt r (slot + 1) term payload (reserved h rt m).cache)
        m'.cache
        (r + 1)
        (r + 64 + length payload)
  append-inside a lo hi =
      finished-outside rt (length payload) m₂ a (omega arith) (omega (arith, below, sized))
      ∙ poke-outside _ (r + 0) (to_le 1 2) a (omega (arith, length-to_le 1 2))

  pub append-state : m'.cache (r + 0) ≡ state_committed
  append-state =
      finished-outside rt (length payload) m₂ (r + 0) (omega arith) (omega (arith, below, sized))
      ∙ poke_byte _ (r + 0) 2 (omega arith)

  pub append-Stores :
      Stores m'.cache r term (slot + 1) rt.host_id (compute h term (slot + 1) payload) payload
  append-Stores = Stores-Agree _ m'.cache r term (slot + 1) rt.host_id _ payload append-inside (
      written-Stores h rt (reserved h rt m).cache r (slot + 1) term payload term_u64
        (omega (arith, p.runtime.mapped.geometry.capacity_u32))
        (omega (arith, p.runtime.host, p.runtime.mapped.geometry.hosts_u16))
        (omega (arith, p.runtime.mapped.geometry.record_u32, sized)))

  pub append-reserve : get_le 8 m'.cache 40 ≡ slot + 1
  append-reserve =
      get_le-Agree 8 (reserved h rt m).cache m'.cache 40 40 48
        (λ a lo hi.
          finished-outside rt (length payload) m₂ a (omega arith) (omega (arith, below))
          ∙ poke-outside _ (r + 0) (to_le 1 2) a (omega (arith, length-to_le 1 2))
          ∙ written-outside h rt _ r (slot + 1) term payload a (omega arith))
        (omega arith) (omega arith)
      ∙ get_le-put_le_self 8 m.cache 40 ((get_le 8 m.cache 40 + 1) % u64_mod) (omega arith)
      ∙ (omega (arith, p.runtime.mapped.geometry.capacity_u32))

  m₂-tail : get_le 8 m₂.cache 32 ≡ get_le 8 m.cache 32
  m₂-tail =
      get_le-Agree 8 m.cache m₂.cache 32 32 40 (λ a lo hi. m₂-outside a (omega arith) (omega arith))
        (omega arith) (omega arith)

  append-tail : get_le 8 m'.cache 32 ≡ swept rt.geometry m₂.cache
  append-tail =
      get_le-Agree 8 (advanced rt.geometry m₂).cache m'.cache 32 32 40
        (λ a lo hi.
          counted-below rt.geometry rt.host_id
            (counted rt.geometry rt.host_id 0 1 (advanced rt.geometry m₂)) 16 (length payload) a
            (omega (arith, below))
          ∙ counted-below rt.geometry rt.host_id (advanced rt.geometry m₂) 0 1 a
              (omega (arith, below)))
        (omega arith) (omega arith)
      ∙ tail-advanced rt.geometry m₂ (omega (arith, m₂-tail, p.tail_le))
          p.runtime.mapped.geometry.capacity_u32

  -- Another slot keeps its record.
  pub append-other :
      (s : ℕ)
      → s < rt.geometry.capacity
      → s ≢ slot
      → Agree m.cache m'.cache
          (record_offset rt.geometry s)
          (record_offset rt.geometry s + rt.geometry.record_size)
  append-other s small ne a lo hi =
      append-outside a (omega arith)
        (omega (arith, record_below_metrics rt.geometry s rt.host_id small))
        (omega (arith, records-Apart rt.geometry s slot ne))

  append-state_other :
      (s : ℕ)
      → s < rt.geometry.capacity
      → s ≢ slot
      → state_at rt.geometry m'.cache s ≡ state_at rt.geometry m.cache s
  append-state_other s small ne = append-other s small ne _ (omega arith) (omega (arith, sized))

  -- The sweep stops at the slot behind the new record, which is FREE.
  append-tail_le : swept rt.geometry m₂.cache ≤ slot + 1
  append-tail_le = elim (le-cases (swept rt.geometry m₂.cache) (slot + 1)) [
    | inl le ↦ le
    | inr gt ↦
        let bound : swept rt.geometry m₂.cache ≤ t + (rt.geometry.capacity - t) =
          (sweep-bounds rt.geometry m₂.cache (rt.geometry.capacity - t) t).1 in
        let small : slot + 1 < rt.geometry.capacity = omega (arith, m₂-tail, p.tail_le) in
        let same : state_at rt.geometry m₂.cache (slot + 1)
            ≡ state_at rt.geometry m.cache (slot + 1) =
          m₂-outside _ (omega arith)
            (omega (arith, sized, records-Apart rt.geometry (slot + 1) slot)) in
        absurd (
          omega (
            arith,
            same,
            p.fresh (slot + 1) (omega arith) small,
            sweep-committed rt.geometry m₂.cache (rt.geometry.capacity - t) t (slot + 1)
                (omega (arith, m₂-tail, p.tail_le)) gt,
          ))
  ]
    where
      t : ℕ
      t = get_le 8 m₂.cache 32

  append_sound :
      (s : ℕ)
      → s < rt.geometry.capacity
      → state_at rt.geometry m'.cache s ≡ state_committed
      → (intact h rt.geometry m'.cache (record_offset rt.geometry s) ≡ true)
        × (get_le 8 m'.cache (record_offset rt.geometry s + 16) ≡ suc s)
  append_sound s small st = elim (eq-cases s slot) [
    | inl e ↦ rw e (
      intact-Stores h rt.geometry m'.cache r term (slot + 1) rt.host_id payload append-Stores fit,
      omega (arith, append-Stores.index_lem),
    )
    | inr ne ↦
        let before : state_at rt.geometry m.cache s ≡ state_committed =
          omega (arith, append-state_other s small ne) in
        (
          intact-Agree h rt.geometry m.cache m'.cache (record_offset rt.geometry s)
                (λ a lo hi. append-other s small ne a (omega arith) (omega (arith, sized)))
              ∙ p.sound s small before,
          get_le-Agree 8 m.cache m'.cache (record_offset rt.geometry s + 16)
                (record_offset rt.geometry s)
                (record_offset rt.geometry s + rt.geometry.record_size) (append-other s small ne)
                (omega arith) (omega (arith, sized))
              ∙ p.numbered s small before,
        )
  ]

  pub append-IsPool : IsPool h rt m'
  append-IsPool = record {
    runtime = p.runtime;
    tail_le = omega (arith, append-tail, append-tail_le, append-reserve);
    reserve_le = omega (arith, append-reserve);
    fresh = λ s lo small.
        append-state_other s small (omega (arith, append-reserve))
        ∙ p.fresh s (omega (arith, append-reserve)) small;
    sound = λ s small st. (append_sound s small st).0;
    numbered = λ s small st. (append_sound s small st).1;
  }

  -- Where no gap stands before the new slot, the tail passes it.
  pub append-tail_dense : get_le 8 m.cache 32 ≡ slot → get_le 8 m'.cache 32 ≡ slot + 1
  append-tail_dense dense =
      let e : get_le 8 m₂.cache 32 ≡ slot = m₂-tail ∙ dense in
      omega (
        arith,
        append-tail,
        append-tail_le,
        subst (λ t. suc slot ≤ sweep rt.geometry m₂.cache (rt.geometry.capacity - t) t) (sym e)
            (sweep-passes rt.geometry m₂.cache (rt.geometry.capacity - slot) slot (omega arith)
              (poke_byte _ (r + 0) 2 (omega arith))),
      )

-- ===== src/Harness/Crashed.antt =====
-- crates/fence-test-harness/src/crash_sim.rs: a write that crashed, and the recovery after it.
use native.Mathlib.Nat.{mod-eq_of_lt}
use fence.Prelude.{ℕ, ◌+◌, ◌%◌, ◌^◌, ◌≤◌, ◌<◌, ◌≡◌, ◌≢◌, ◌⊎◌, refl, sym, ◌∙◌, ap, arith, some, min}
use fence.Prelude.Bytes.{Space, poke, to_le, length-to_le, poke-outside, poke_byte}
use fence.Backend.{Memory, get_le, put_le, with_cache, u64_mod}
use fence.Backend.Fields.{put_le-outside, get_le-put_le_self}
use fence.Program.{ret, Ensures, Ensures-bind, Ensures-mono, Ensures-size, Runs, Runs-bind, ◌>>=◌}
use fence.Layout.{PoolGeometry, record_offset, state_writing, state_abandoned, state_committed}
use fence.Layout.Regions.{records-Apart}
use fence.Checksum.{Hasher}
use fence.Recovery
use fence.Recovery.{RecoveryReport}
use fence.Recovery.Check.{Agree, get_le-Agree, intact-Agree}
use fence.Recovery.Places.{header-Word, slot-Fits}
use fence.Recovery.Protocol.{recover_lem, Recovered}
use fence.Recovery.Sweep.{state_at}
use fence.Engine.{FenceRuntime}
use fence.Engine.Pool.{IsPool}
use fence.Engine.Recovered.{Recovered-IsPool}
use fence.Harness.{crashed_write, simulate_crashed_write}
use fence.FenceError.{ok}
use fence.Layout

module _ (h : Hasher) (rt : FenceRuntime) (m : Memory) (p : IsPool h rt m) where
  sized : rt.geometry.record_size ≡ 64 + rt.geometry.payload_size
  sized = p.runtime.mapped.geometry.record_lem

  module _ (room : get_le 8 m.cache 40 < rt.geometry.capacity) where
    abbrev slot : ℕ
    slot = get_le 8 m.cache 40

    abbrev r : ℕ
    r = record_offset rt.geometry slot

    -- The cache that a crashed write leaves.
    abbrev left : Space
    left =
        put_le 8
          (put_le 8 (poke (put_le 8 m.cache 40 ((slot + 1) % u64_mod)) (r + 0) (to_le 1 1)) (r + 8)
            99)
          (r + 16) (slot + 1)

    crashed-Runs : Runs (crashed_write rt.geometry) m slot (with_cache m left)
    unfolding crashed_write
    crashed-Runs =
        let f = slot-Fits rt.geometry m.size slot p.runtime.mapped room in
        (
          header-Word rt.geometry m.size 40 p.runtime.mapped (omega arith) refl,
          rw
              (mod-eq_of_lt {n = slot} {m = 2 ^ 32}
                (omega (arith, p.runtime.mapped.geometry.capacity_u32)))
              (
                omega (arith, f.inside, f.sized),
                (
                  (omega (arith, f.inside, f.sized), omega (arith, f.aligned)),
                  ((omega (arith, f.inside, f.sized), omega (arith, f.aligned)), (refl, refl)),
                ),
              ),
        )

    left-outside : (a : ℕ) → (a < 40) ⊎ (48 ≤ a) → (a < r) ⊎ (r + 24 ≤ a) → left a ≡ m.cache a
    left-outside a tails out =
        put_le-outside 8 _ (r + 16) _ a (omega arith)
        ∙ put_le-outside 8 _ (r + 8) _ a (omega arith)
        ∙ poke-outside _ (r + 0) (to_le 1 1) a (omega (arith, length-to_le 1 1))
        ∙ put_le-outside 8 m.cache 40 _ a tails

    left-state : left (r + 0) ≡ state_writing
    left-state =
        put_le-outside 8 _ (r + 16) _ (r + 0) (omega arith)
        ∙ put_le-outside 8 _ (r + 8) _ (r + 0) (omega arith)
        ∙ poke_byte _ (r + 0) 1 (omega arith)

    left-reserve : get_le 8 left 40 ≡ slot + 1
    left-reserve =
        get_le-Agree 8 (put_le 8 m.cache 40 ((slot + 1) % u64_mod)) left 40 40 48
          (λ a lo hi.
            put_le-outside 8 _ (r + 16) _ a (omega arith)
            ∙ put_le-outside 8 _ (r + 8) _ a (omega arith)
            ∙ poke-outside _ (r + 0) (to_le 1 1) a (omega arith))
          (omega arith) (omega arith)
        ∙ get_le-put_le_self 8 m.cache 40 ((slot + 1) % u64_mod) (omega arith)
        ∙ omega (arith, p.runtime.mapped.geometry.capacity_u32)

    left-other :
        (s : ℕ)
        → s ≢ slot
        → Agree m.cache left
            (record_offset rt.geometry s)
            (record_offset rt.geometry s + rt.geometry.record_size)
    left-other s ne a lo hi =
        left-outside a (omega arith) (omega (arith, sized, records-Apart rt.geometry s slot ne))

    left-committed : (s : ℕ) → state_at rt.geometry left s ≡ state_committed → s ≢ slot
    left-committed s st e =
        absurd (omega (arith, left-state, sym (ap (state_at rt.geometry left) e) ∙ st))

    crashed-IsPool : IsPool h rt (with_cache m left)
    crashed-IsPool = record {
      runtime = p.runtime;
      tail_le = omega (
        arith,
        left-reserve,
        p.tail_le,
        get_le-Agree 8 m.cache left 32 32 40 (λ a lo hi. left-outside a (omega arith) (omega arith))
            (omega arith) (omega arith),
      );
      reserve_le = omega (arith, left-reserve);
      fresh = λ s lo hi.
          left-other s (omega (arith, left-reserve, lo)) _ (omega arith) (omega (arith, sized))
          ∙ p.fresh s (omega (arith, left-reserve)) hi;
      sound = λ s small st.
          let ne = left-committed s st in
          intact-Agree h rt.geometry m.cache left (record_offset rt.geometry s)
            (λ a lo hi. left-other s ne a (omega arith) (omega (arith, sized)))
          ∙ p.sound s small (sym (left-other s ne _ (omega arith) (omega (arith, sized))) ∙ st);
      numbered = λ s small st.
          let ne = left-committed s st in
          get_le-Agree 8 m.cache left (record_offset rt.geometry s + 16)
            (record_offset rt.geometry s) (record_offset rt.geometry s + rt.geometry.record_size)
            (left-other s ne) (omega arith) (omega (arith, sized))
          ∙ p.numbered s small (sym (left-other s ne _ (omega arith) (omega (arith, sized))) ∙ st);
    }

    -- What stands after the crash and the recovery.
    pub record Survives (n : Memory) : Type 0 where
      pub pool : IsPool h rt n
      pub lost : state_at rt.geometry n.cache slot ≡ state_abandoned
      pub reserve : get_le 8 n.cache 40 ≡ slot + 1
      pub kept :
          (s : ℕ)
          → s < rt.geometry.capacity
          → state_at rt.geometry m.cache s ≡ state_committed
          → (state_at rt.geometry n.cache s ≡ state_committed)
            × Agree m.cache n.cache
                (record_offset rt.geometry s + 1)
                (record_offset rt.geometry s + rt.geometry.record_size)

    Recovered-Survives :
        (n : Memory) → n.size ≡ m.size → Recovered h rt.geometry (with_cache m left) n → Survives n
    Recovered-Survives n size k =
        let low : slot < min (get_le 8 left 40) rt.geometry.capacity =
          omega (arith, left-reserve) in
        record {
          pool = Recovered-IsPool h rt (with_cache m left) crashed-IsPool n size k;
          lost = k.abandons slot low left-state;
          reserve = k.reserve ∙ left-reserve;
          kept = λ s small st.
              let ne : s ≢ slot = λ e. absurd (
                omega (
                  arith,
                  p.fresh slot (omega arith) room,
                  sym (ap (state_at rt.geometry m.cache) e) ∙ st,
                )) in
              let still : state_at rt.geometry left s ≡ state_committed =
                left-other s ne _ (omega arith) (omega (arith, sized)) ∙ st in
              (
                k.kept s small still (crashed-IsPool.sound s small still),
                λ a lo hi. k.bodies s small a lo hi ∙ left-other s ne a (omega arith) hi,
              );
        }

    -- The write that `simulate_crashed_write` leaves unfinished in a well-formed pool with a free slot (the
    -- slot is reserved and WRITING, the term and the index are stored, and the cache is kept), and a
    -- recovery after it, leave a well-formed pool: the slot of the write is ABANDONED and stays
    -- reserved, and every record that was COMMITTED is COMMITTED still, with the same bytes.
    pub crashed-recovered :
        (capacity payload_size max_hosts : ℕ)
        → Layout.new capacity payload_size max_hosts ≡ some rt.geometry
        → Ensures
            (λ (a : ℕ × RecoveryReport) n. (a.0 ≡ slot) × Survives n)
            (simulate_crashed_write (ok tt) capacity payload_size max_hosts
              >>= (λ s. Recovery.recover h rt.geometry >>= (λ report. ret (s, report))))
            m
    unfolding simulate_crashed_write
    crashed-recovered capacity payload_size max_hosts made = rw made (
        Runs-bind _ _ (crashed_write rt.geometry) m slot (with_cache m left) crashed-Runs (
          Ensures-bind _ _ (Recovery.recover h rt.geometry) (with_cache m left) (
            Ensures-mono _ _ (λ report n a. (refl, Recovered-Survives n a.1 a.0.3))
              (Recovery.recover h rt.geometry) (with_cache m left)
              (Ensures-size _ m.size (Recovery.recover h rt.geometry) (with_cache m left) refl (
                recover_lem h rt.geometry (with_cache m left) p.runtime.mapped
                  (omega (arith, crashed-IsPool.tail_le, crashed-IsPool.reserve_le)))))))

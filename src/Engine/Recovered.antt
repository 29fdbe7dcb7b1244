-- ===== src/Engine/Recovered.antt =====
-- crates/fence-runtime/src/recovery.rs: recovery of a well-formed pool.
use mathlib.Core.Path.{subst}
use fence.Prelude.{ℕ, ◌+◌, ◌<◌, ◌≡◌, ◌≢◌, refl, sym, ◌∙◌, arith, inl, inr, le-cases}
use fence.Backend.{Memory, get_le}
use fence.Program.{Ensures, Ensures-mono, Ensures-size}
use fence.Layout.{record_offset, state_writing}
use fence.Checksum.{Hasher}
use fence.Recovery
use fence.Recovery.{RecoveryReport}
use fence.Recovery.Check.{get_le-Agree, intact-Agree}
use fence.Recovery.Protocol.{recover_lem, Recovered}
use fence.Recovery.Sweep.{state_at}
use fence.Engine.{FenceRuntime}
use fence.Engine.Stored.{IsRuntime}
use fence.Engine.Pool.{IsPool}

module _ (h : Hasher) (rt : FenceRuntime) (m : Memory) (p : IsPool h rt m) where
  sized : rt.geometry.record_size ≡ 64 + rt.geometry.payload_size
  sized = p.runtime.mapped.geometry.record_lem

  -- Recovery keeps a pool well formed.
  pub Recovered-IsPool :
      (n : Memory) → n.size ≡ m.size → Recovered h rt.geometry m n → IsPool h rt n
  Recovered-IsPool n size k = record {
    runtime = subst (IsRuntime rt) (sym size) p.runtime;
    tail_le = elim (le-cases (get_le 8 n.cache 32) (get_le 8 m.cache 40)) [
      | inl le ↦ omega (arith, k.reserve)
      | inr gt ↦
          let small : get_le 8 m.cache 40 < rt.geometry.capacity = omega (arith, k.bound) in
          absurd (
            omega (
              arith,
              k.contiguous (get_le 8 m.cache 40) p.tail_le gt,
              k.above (get_le 8 m.cache 40) (omega arith),
              p.fresh (get_le 8 m.cache 40) (omega arith) small,
            ))
    ];
    reserve_le = omega (arith, k.reserve, p.reserve_le);
    fresh =
        λ s lo hi. k.above s (omega (arith, k.reserve)) ∙ p.fresh s (omega (arith, k.reserve)) hi;
    sound = λ s small st.
        intact-Agree h rt.geometry m.cache n.cache (record_offset rt.geometry s)
          (λ a lo hi. k.bodies s small a (omega arith) (omega (arith, sized)))
        ∙ p.sound s small (k.origin s st);
    numbered = λ s small st.
        get_le-Agree 8 m.cache n.cache (record_offset rt.geometry s + 16)
          (record_offset rt.geometry s + 1) (record_offset rt.geometry s + rt.geometry.record_size)
          (k.bodies s small) (omega arith) (omega (arith, sized))
        ∙ p.numbered s small (k.origin s st);
  }

  -- `recover` on a well-formed pool ends without failure and leaves a well-formed pool, of which no slot
  -- below the reserve tail is WRITING.
  pub recover-IsPool :
      Ensures
        (λ report n.
          IsPool h rt n
          × ((s : ℕ) → s < get_le 8 n.cache 40 → state_at rt.geometry n.cache s ≢ state_writing))
        (Recovery.recover h rt.geometry)
        m
  recover-IsPool =
      Ensures-mono _ _
        (λ report n a. (
          Recovered-IsPool n a.1 a.0.3,
          λ s lt w.
              absurd (
                omega (arith, w, a.0.3.settled s (omega (arith, lt, a.0.3.reserve, p.reserve_le)))),
        ))
        (Recovery.recover h rt.geometry) m
        (Ensures-size _ m.size (Recovery.recover h rt.geometry) m refl
          (recover_lem h rt.geometry m p.runtime.mapped (omega (arith, p.tail_le, p.reserve_le))))

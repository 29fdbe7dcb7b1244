-- ===== src/Concurrent/Append.antt =====
-- crates/fence-runtime/src/engine.rs: `append` in a reserved slot, while others work.
use native.Mathlib.Nat.{mod-eq_of_lt}
use fence.Prelude.{
  ℕ, suc, ◌+◌, ◌%◌, ◌^◌, ◌≤◌, ◌<◌, ◌≡◌, refl, ◌∙◌, arith, List, [], ◌∷◌, length, lt→ltb,
}
use fence.Prelude.Bytes.{to_le, length-to_le, poke-outside, poke_byte}
use fence.Backend.{Memory, exec, flush, with_cache}
use fence.Program.{ret, ◌>>◌}
use fence.FenceError.{Result, ok}
use fence.Layout.{record_offset, state_free, state_committed}
use fence.Checksum.{Hasher, compute}
use fence.Metrics
use fence.Metrics.{bump}
use fence.Recovery
use fence.Recovery.Places.{slot-Fits}
use fence.Recovery.Check.{Fits}
use fence.Recovery.Sweep.{state_at}
use fence.Engine.{FenceRuntime, write_record, commit_record, append_at}
use fence.Engine.Stored.{Stores, Stores-Agree}
use fence.Engine.Write.{written, write_record-Runs, written-Stores}
use fence.Concurrent.{advance}
use fence.Concurrent.Counters.{bump-Safe}
use fence.Concurrent.Rely.{IsGood, Guar, Safe, Safe-then, Safe-mono, SameRecord}
use fence.Concurrent.Local.{record-Guar, Local, Local-Safe}
use fence.Concurrent.Advance.{Mine, advance-Safe}

module _ (h : Hasher) (rt : FenceRuntime) (base : ℕ) (s term : ℕ) (payload : List ℕ) where
  abbrev r : ℕ
  r = record_offset rt.geometry s

  -- The slot holds the record, COMMITTED.
  pub record Holds (m : Memory) : Type 0 where
    pub state : state_at rt.geometry m.cache s ≡ state_committed
    pub stored : Stores m.cache r term (s + 1) rt.host_id (compute h term (s + 1) payload) payload

  module _ (small : s < rt.geometry.capacity) (fit : length payload ≤ rt.geometry.payload_size)
      (host : rt.host_id < rt.geometry.max_hosts) (term_u64 : term < 2 ^ 64) where
    Stores-SameRecord :
        (m n : Memory)
        → rt.geometry.record_size ≡ 64 + rt.geometry.payload_size
        → SameRecord rt.geometry base s m n
        → Stores m.cache r term (s + 1) rt.host_id (compute h term (s + 1) payload) payload
        → Stores n.cache r term (s + 1) rt.host_id (compute h term (s + 1) payload) payload
    Stores-SameRecord m n sized same =
        Stores-Agree m.cache n.cache r term (s + 1) rt.host_id (compute h term (s + 1) payload)
          payload (λ a lo hi. same a (omega arith) (omega (arith, sized)))

    pub Holds-SameRecord :
        (m n : Memory)
        → rt.geometry.record_size ≡ 64 + rt.geometry.payload_size
        → SameRecord rt.geometry base s m n
        → Holds m
        → Holds n
    Holds-SameRecord m n sized same k = record {
      state = same _ (omega arith) (omega (arith, sized)) ∙ k.state;
      stored = Stores-SameRecord m n sized same k.stored;
    }

    -- The fields that follow the state.
    fields-Local :
        (m : Memory) (bs : List ℕ)
        → length bs ≤ rt.geometry.payload_size
        → rt.geometry.record_size ≡ 64 + rt.geometry.payload_size
        → Local
            (r + 1)
            (r + rt.geometry.record_size)
            (advance (write_record h rt r (s + 1) term bs) m).0
    unfolding write_record
    fields-Local m [] le sized = (
      (omega arith, omega (arith, sized)),
      λ _. (
        (omega arith, omega (arith, sized)),
        λ _. (
          (omega arith, omega (arith, sized)),
          λ _. (
            (omega arith, omega (arith, sized, length-to_le 4 0)),
            λ _. ((omega arith, omega (arith, sized)), λ _. (tt, λ _. tt)),
          ),
        ),
      ),
    )
    fields-Local m (b ∷ bs) le sized = rw (lt→ltb 0 (suc (length bs)) (omega arith)) (
      (omega arith, omega (arith, sized)),
      λ _. (
        (omega arith, omega (arith, sized)),
        λ _. (
          (omega arith, omega (arith, sized)),
          λ _. (
            (omega arith, omega (arith, sized, length-to_le 4 (suc (length bs) % 2 ^ 32))),
            λ _. (
              (omega arith, omega (arith, sized)),
              λ _. ((omega arith, omega (arith, sized)), λ _. (tt, λ _. tt)),
            ),
          ),
        ),
      ),
    )

    write-Safe :
        (m : Memory)
        → state_at rt.geometry m.cache s ≡ state_free
        → Safe rt.geometry base s
            (λ x n.
              Stores n.cache r term (s + 1) rt.host_id (compute h term (s + 1) payload) payload)
            (write_record h rt r (s + 1) term payload)
            m
    unfolding write_record
    write-Safe m free = λ k q.
        let good : IsGood rt.geometry base k = q.moves.good in
        let fits : Fits rt.geometry k.size r = slot-Fits rt.geometry k.size s good.mapped small in
        let runs = write_record-Runs h rt k r (s + 1) term payload fits fit in
        let first : Memory = (advance (write_record h rt r (s + 1) term payload) k).1 in
        let done : Guar rt.geometry base s k first =
          record-Guar rt.geometry base s k first small good refl
            (λ a away.
              poke-outside k.cache (r + 0) (to_le 1 1) a
                (omega (arith, away, fits.sized, length-to_le 1 1)))
            (λ st. absurd (
              omega (
                arith,
                q.mine small (r + 0) (omega arith) (omega (arith, fits.sized)),
                free,
                st,
              ))) in
        (
          runs.0,
          done,
          Safe-mono rt.geometry base s _ _
              (λ x l a.
                Stores-SameRecord (with_cache k (written h rt r (s + 1) term payload k.cache)) l
                  fits.sized a.1
                  (written-Stores h rt k.cache r (s + 1) term payload term_u64
                    (omega (arith, good.mapped.geometry.capacity_u32))
                    (omega (arith, host, good.mapped.geometry.hosts_u16))
                    (omega (arith, good.mapped.geometry.record_u32, fits.sized))))
              (advance (write_record h rt r (s + 1) term payload) k).0 first
              (Local-Safe rt.geometry base s small
                (advance (write_record h rt r (s + 1) term payload) k).0 first first tt _
                (fields-Local k payload fit fits.sized) runs.1 refl (λ a lo hi. refl)
                done.moves.good),
        )

    commit-Safe :
        (m : Memory)
        → Stores m.cache r term (s + 1) rt.host_id (compute h term (s + 1) payload) payload
        → Safe rt.geometry base s (λ x n. Holds n) (commit_record h rt r) m
    unfolding commit_record
    commit-Safe m k₀ = λ k q.
        let good : IsGood rt.geometry base k = q.moves.good in
        let fits : Fits rt.geometry k.size r = slot-Fits rt.geometry k.size s good.mapped small in
        let first : Memory = (advance (commit_record h rt r) k).1 in
        let here : state_at rt.geometry first.cache s ≡ state_committed =
          poke_byte k.cache (r + 0) 2 (omega arith) in
        let stored = Stores-SameRecord m k fits.sized (q.mine small) k₀ in
        let holds : Holds first = record {
          state = here;
          stored =
              Stores-Agree k.cache first.cache r term (s + 1) rt.host_id
                (compute h term (s + 1) payload) payload
                (λ a lo hi.
                  poke-outside k.cache (r + 0) (to_le 1 2) a (omega (arith, lo, length-to_le 1 2)))
                stored;
        } in
        let done : Guar rt.geometry base s k first =
          record-Guar rt.geometry base s k first small good refl
            (λ a away.
              poke-outside k.cache (r + 0) (to_le 1 2) a
                (omega (arith, away, fits.sized, length-to_le 1 2)))
            (λ st. here) in
        (
          omega (arith, fits.inside, fits.sized),
          done,
          λ l w. (
            omega (arith, fits.inside, fits.sized, w.moves.size),
            record-Guar rt.geometry base s l (exec (flush r 64) l).1 small w.moves.good refl
                (λ a away. refl) (λ st. st),
            λ z v.
                Holds-SameRecord first z fits.sized
                  (λ a lo hi. v.mine small a lo hi ∙ w.mine small a lo hi) holds,
          ),
        )

    abbrev Answered : Result ℕ → Memory → Type 0
    Answered res n = (res ≡ ok (s + 1)) × Holds n

    -- In a FREE slot of its own, an append among other hosts ends without failure, answers the slot's
    -- index and leaves the record there, COMMITTED.
    pub append_at-Safe :
        (m : Memory)
        → IsGood rt.geometry base m
        → state_at rt.geometry m.cache s ≡ state_free
        → Safe rt.geometry base s
            (λ res n. (res ≡ ok (s + 1)) × Holds n)
            (append_at h rt s term payload)
            m
    unfolding append_at Metrics.increment_appends Metrics.increment_bytes_written
    append_at-Safe m good free =
        let sized : rt.geometry.record_size ≡ 64 + rt.geometry.payload_size =
          good.mapped.geometry.record_lem in
        rw (mod-eq_of_lt {n = s} {m = 2 ^ 32} (omega (arith, good.mapped.geometry.capacity_u32))) (
          Safe-then rt.geometry base s _ Answered _ (write_record h rt r (s + 1) term payload) m
            good (write-Safe m free)
            (λ _ m₁ stored good₁.
              Safe-then rt.geometry base s _ Answered _ (commit_record h rt r) m₁ good₁
                (commit-Safe m₁ stored)
                (λ _ m₂ holds good₂.
                  Safe-then rt.geometry base s _ Answered _
                    (Recovery.advance_committed_tail rt.geometry) m₂ good₂
                    (advance-Safe rt.geometry base s m₂)
                    (λ _ m₃ same₃ good₃.
                      Safe-then rt.geometry base s (λ _. Mine rt.geometry base s m₃) Answered
                        (λ _. bump rt.geometry rt.host_id 16 (length payload) >> ret (ok (s + 1)))
                        (bump rt.geometry rt.host_id 0 1) m₃ good₃
                        (bump-Safe rt.geometry base s rt.host_id 0 1 m₃ host (omega arith) refl)
                        (λ _ m₄ same₄ good₄.
                          Safe-then rt.geometry base s (λ _. Mine rt.geometry base s m₄) Answered
                            (λ _. ret (ok (s + 1)))
                            (bump rt.geometry rt.host_id 16 (length payload)) m₄ good₄
                            (bump-Safe rt.geometry base s rt.host_id 16 (length payload) m₄ host
                              (omega arith) refl)
                            (λ _ m₅ same₅ good₅ m₆ q. (
                              refl,
                              Holds-SameRecord m₂ m₆ sized
                                  (λ a lo hi.
                                    q.mine small a lo hi
                                    ∙ same₅ small a lo hi
                                    ∙ same₄ small a lo hi
                                    ∙ same₃ small a lo hi)
                                  holds,
                            )))))))

-- ===== src/Concurrent/Died.antt =====
-- Hosts that die among appends: recovery where only some calls have ended.
use fence.Prelude.{
  ℕ, ◌+◌, ◌^◌, ◌≤◌, ◌<◌, ◌≡◌, ◌≢◌, ◌∙◌, arith, List, min, inl, inr, le-cases, length,
}
use fence.Backend.{Memory, get_le}
use fence.Program.{ret, Ensures, Ensures-mono}
use fence.FenceError.{ok}
use fence.Layout.{record_offset, state_committed, state_writing}
use fence.Checksum.{Hasher, compute}
use fence.Recovery
use fence.Recovery.{RecoveryReport}
use fence.Recovery.Check.{Agree, intact-Agree}
use fence.Recovery.Protocol.{recover_lem, Recovered}
use fence.Recovery.Sweep.{state_at}
use fence.Engine.{FenceRuntime}
use fence.Engine.Stored.{Stores, Stores-Agree, intact-Stores}
use fence.Engine.Pool.{IsPool}
use fence.Concurrent.{System, Request, AllBelow}
use fence.Concurrent.Append.{Holds}
use fence.Concurrent.Invariant.{Inv}
use fence.Concurrent.Protocol.{reached, reached-Inv, answer_lem, Answered}

module _ (h : Hasher) (rt : FenceRuntime) (m : Memory) (p : IsPool h rt m) (n : ℕ)
    (requests : ℕ → Request) (u32 : n < 2 ^ 32)
    (hosts : (i : ℕ) → i < n → (requests i).host_id < rt.geometry.max_hosts)
    (terms : (i : ℕ) → i < n → (requests i).term < 2 ^ 64) (schedule : List ℕ)
    (all : AllBelow n schedule) where
  abbrev system : System
  system = reached h rt m p n requests u32 hosts terms schedule all

  abbrev first : ℕ
  first = get_le 8 m.cache 40

  k : Inv h rt.geometry (get_le 8 m.cache 32) n requests m first system
  k = reached-Inv h rt m p n requests u32 hosts terms schedule all

  sized : rt.geometry.record_size ≡ 64 + rt.geometry.payload_size
  sized = p.runtime.mapped.geometry.record_lem

  -- The record of an append stands in slot `s`, which was not reserved at the start.
  pub record Survives (q : Request) (s : ℕ) (l : Memory) : Type 0 where
    pub new : first ≤ s
    pub within : s < rt.geometry.capacity
    pub state : state_at rt.geometry l.cache s ≡ state_committed
    pub stored :
        Stores l.cache
          (record_offset rt.geometry s)
          q.term
          (s + 1)
          q.host_id
          (compute h q.term (s + 1) q.payload)
          q.payload

  Holds-Survives :
      (l : Memory) (q : Request) (s : ℕ)
      → Recovered h rt.geometry system.memory l
      → length q.payload ≤ rt.geometry.payload_size
      → first ≤ s
      → s < rt.geometry.capacity
      → Holds h
          (record { geometry = rt.geometry; host_id = q.host_id })
          (get_le 8 m.cache 32)
          s
          q.term
          q.payload
          system.memory
      → Survives q s l
  Holds-Survives l q s r fit new small held = record {
    new = new;
    within = small;
    state = r.kept s small held.state (
        intact-Stores h rt.geometry system.memory.cache (record_offset rt.geometry s) q.term (s + 1)
          q.host_id q.payload held.stored fit);
    stored =
        Stores-Agree system.memory.cache l.cache (record_offset rt.geometry s) q.term (s + 1)
          q.host_id (compute h q.term (s + 1) q.payload) q.payload
          (λ b lo hi. r.bodies s small b lo (omega (arith, sized))) held.stored;
  }

  Answered-Survives :
      (l : Memory) (q : Request) (a : ℕ)
      → Recovered h rt.geometry system.memory l
      → Answered h rt m p n requests u32 hosts terms q (ok a) system.memory
      → (s : ℕ) × (a ≡ s + 1) × Survives q s l
  Answered-Survives l q a r (inl (big, e)) = absurd (cc (e))
  Answered-Survives l q a r (inr (fit, inl (full, reserve))) = absurd (cc (full.2))
  Answered-Survives l q a r (inr (fit, inr (s, new, small, e, held))) =
      (s, cc (e), Holds-Survives l q s r fit new small held)

  was-reserved :
      (t : ℕ)
      → t < rt.geometry.capacity
      → state_at rt.geometry m.cache t ≡ state_committed
      → t < first
  was-reserved t small st = elim (le-cases first t) [
    | inr below ↦ below
    | inl above ↦ absurd (omega (arith, p.fresh t above small, st))
  ]

  -- A record that was COMMITTED before all the appends.
  old-kept :
      (l : Memory) (t : ℕ)
      → Recovered h rt.geometry system.memory l
      → t < rt.geometry.capacity
      → state_at rt.geometry m.cache t ≡ state_committed
      → (state_at rt.geometry l.cache t ≡ state_committed)
        × Agree m.cache l.cache
            (record_offset rt.geometry t + 1)
            (record_offset rt.geometry t + rt.geometry.record_size)
  old-kept l t r small st =
      let below : t < first = was-reserved t small st in
      (
        r.kept t small
            (k.old t below (record_offset rt.geometry t + 0) (omega arith) (omega (arith, sized))
              ∙ st)
            (intact-Agree h rt.geometry m.cache system.memory.cache (record_offset rt.geometry t)
                (λ b lo hi. k.old t below b (omega arith) (omega (arith, sized, hi)))
              ∙ p.sound t small st),
        λ b lo hi. r.bodies t small b lo hi ∙ k.old t below b (omega arith) hi,
      )

  -- No slot within the capacity is WRITING.
  none-writing :
      (l : Memory) (t : ℕ)
      → Recovered h rt.geometry system.memory l
      → t < rt.geometry.capacity
      → state_at rt.geometry l.cache t ≢ state_writing
  none-writing l t r small w =
      elim (le-cases (min (get_le 8 system.memory.cache 40) rt.geometry.capacity) t) [
        | inr visited ↦ absurd (omega (arith, r.settled t visited, w))
        | inl above ↦
            absurd
              (omega (arith, r.above t above, k.fresh t (omega (arith, k.reserve, above)) small, w))
      ]

  -- Fewer than 2 ^ 32 appends of hosts of the pool, with terms that are u64s, start on a well-formed
  -- pool and take turns in any order, one call of the backend at a time; at any moment all hosts die,
  -- wherever they are in their appends, while the memory is kept. A recovery then ends without
  -- failure, after which no slot is WRITING; every append that had answered an index has its record
  -- in that slot still, COMMITTED, with its term, host and payload; every record that was COMMITTED
  -- at the start is COMMITTED still, with the same bytes; and the tail, which is reported, has advanced
  -- over COMMITTED slots alone.
  pub died-recovered :
      Ensures
        (λ report l.
          ((t : ℕ) → t < rt.geometry.capacity → state_at rt.geometry l.cache t ≢ state_writing)
          × ((i a : ℕ)
              → i < n
              → system.calls i ≡ ret (ok a)
              → (s : ℕ) × (a ≡ s + 1) × Survives (requests i) s l)
          × ((t : ℕ)
              → t < rt.geometry.capacity
              → state_at rt.geometry m.cache t ≡ state_committed
              → (state_at rt.geometry l.cache t ≡ state_committed)
                × Agree m.cache l.cache
                    (record_offset rt.geometry t + 1)
                    (record_offset rt.geometry t + rt.geometry.record_size))
          × (report.committed_tail ≡ get_le 8 l.cache 32)
          × (get_le 8 system.memory.cache 32 ≤ get_le 8 l.cache 32)
          × ((t : ℕ)
              → get_le 8 system.memory.cache 32 ≤ t
              → t < get_le 8 l.cache 32
              → state_at rt.geometry l.cache t ≡ state_committed))
        (Recovery.recover h rt.geometry)
        system.memory
  died-recovered =
      Ensures-mono _ _
        (λ (report : RecoveryReport) l a. (
          (λ t. none-writing l t a.3),
          (λ i b lt e.
              Answered-Survives l (requests i) b a.3
                (answer_lem h rt m p n requests u32 hosts terms schedule all i (ok b) lt e)),
          (λ t. old-kept l t a.3),
          a.2,
          a.3.advances,
          a.3.contiguous,
        ))
        (Recovery.recover h rt.geometry) system.memory
        (recover_lem h rt.geometry system.memory k.good.mapped k.good.tail_le)

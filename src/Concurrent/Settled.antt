-- ===== src/Concurrent/Settled.antt =====
-- Where every append has ended: the pool is well formed again, and no slot was given out twice.
use mathlib.Core.Path.{subst}
use fence.Prelude.{
  ℕ, suc, ◌+◌, ◌^◌, ◌≤◌, ◌<◌, ◌≡◌, ◌≢◌, refl, ◌∙◌, arith, List, true, inl, inr, le-cases, length,
}
use fence.Backend.{Memory, get_le}
use fence.Program.{ret}
use fence.FenceError.{Result, ok}
use fence.Layout.{record_offset, state_committed}
use fence.Checksum.{Hasher}
use fence.Recovery.Check.{get_le-Agree, intact, intact-Agree}
use fence.Recovery.Sweep.{state_at}
use fence.Engine.{FenceRuntime}
use fence.Engine.Stored.{intact-Stores}
use fence.Engine.Pool.{IsPool}
use fence.Concurrent.{System, Request, AllBelow}
use fence.Concurrent.Family.{weight-zero}
use fence.Concurrent.Rely.{Rely-refl, Safe, SameRecord}
use fence.Concurrent.Invariant.{
  Phase, waiting, over, refused, owner, excess, slot_of, Full, Kept, Stands, Inv,
}
use fence.Concurrent.Requests.{request-big, request-fits, full-call}
use fence.Concurrent.Protocol.{reached, reached-Inv}

module _ (h : Hasher) (rt : FenceRuntime) (m : Memory) (p : IsPool h rt m) (n : ℕ)
    (requests : ℕ → Request) (u32 : n < 2 ^ 32)
    (hosts : (i : ℕ) → i < n → (requests i).host_id < rt.geometry.max_hosts)
    (terms : (i : ℕ) → i < n → (requests i).term < 2 ^ 64) (schedule : List ℕ)
    (all : AllBelow n schedule) where
  abbrev system : System
  system = reached h rt m p n requests u32 hosts terms schedule all

  abbrev start_tail : ℕ
  start_tail = get_le 8 m.cache 32

  abbrev start_reserve : ℕ
  start_reserve = get_le 8 m.cache 40

  k : Inv h rt.geometry start_tail n requests m start_reserve system
  k = reached-Inv h rt m p n requests u32 hosts terms schedule all

  abbrev At : ℕ → Phase → Type 0
  At i ph =
      Stands h rt.geometry start_tail (requests i) start_reserve k.taken ph (system.calls i)
        system.memory

  -- What the owner of a slot has answered.
  owner-Kept :
      (i s : ℕ) (res : Result ℕ)
      → system.calls i ≡ ret res
      → At i (owner s)
      → Kept h rt.geometry start_tail (requests i) s res system.memory
  owner-Kept i s res e st =
      subst
        (λ c.
          Safe rt.geometry start_tail s (Kept h rt.geometry start_tail (requests i) s) c
            system.memory)
        e st.0 system.memory (Rely-refl rt.geometry start_tail s system.memory k.good)

  -- A call that answered an index owns the slot.
  index-slot :
      (i a : ℕ) (ph : Phase)
      → system.calls i ≡ ret (ok a)
      → At i ph
      → (slot_of h rt.geometry start_tail ph < rt.geometry.capacity)
        × (a ≡ slot_of h rt.geometry start_tail ph + 1)
  index-slot i a waiting e st =
      elim (le-cases (length (requests i).payload) rt.geometry.payload_size) [
        | inr big ↦ absurd (cc (st, e, request-big h rt.geometry start_tail (requests i) big))
        | inl fit ↦ absurd (cc (st, e, request-fits h rt.geometry start_tail (requests i) fit))
      ]
  index-slot i a (over v) e st =
      absurd (cc (st.0, e, full-call h rt.geometry start_tail (requests i) v))
  index-slot i a refused e st =
      let full =
        subst
          (λ c.
            Safe rt.geometry start_tail rt.geometry.capacity (Full h rt.geometry start_tail) c
              system.memory)
          e st.0 system.memory
          (Rely-refl rt.geometry start_tail rt.geometry.capacity system.memory k.good) in
      absurd (cc (full.2))
  index-slot i a (owner s) e st =
      let kept = owner-Kept i s (ok a) e st in (omega (arith, st.2, k.taken_le), cc (kept.0))

  -- Where fewer than 2 ^ 32 appends of hosts of the pool, with terms that are u64s, start on a
  -- well-formed pool and take turns in any order, one call of the backend at a time: no two of
  -- them are answered the same index.
  pub indices_differ :
      (i j a b : ℕ)
      → i < n
      → j < n
      → i ≢ j
      → system.calls i ≡ ret (ok a)
      → system.calls j ≡ ret (ok b)
      → a ≢ b
  indices_differ i j a b li lj ne ei ej same =
      let left = index-slot i a (k.phases i) ei (k.stands i li) in
      let right = index-slot j b (k.phases j) ej (k.stands j lj) in
      k.apart i j li lj ne left.0 (omega (arith, left.1, right.1, same))

  module _ (ended : (i : ℕ) → i < n → (res : Result ℕ) × (system.calls i ≡ ret res)) where
    settled-excess : (i : ℕ) (ph : Phase) → i < n → At i ph → excess ph ≡ 0
    settled-excess i waiting lt st = refl
    settled-excess i (over v) lt st =
        absurd (cc (st.0, (ended i lt).1, full-call h rt.geometry start_tail (requests i) v))
    settled-excess i refused lt st = refl
    settled-excess i (owner s) lt st = refl

    reserve_lem : get_le 8 system.memory.cache 40 ≡ k.taken
    reserve_lem = omega (
      arith,
      k.reserve,
      weight-zero excess n k.phases (λ i lt. settled-excess i (k.phases i) lt (k.stands i lt)),
    )

    sized : rt.geometry.record_size ≡ 64 + rt.geometry.payload_size
    sized = p.runtime.mapped.geometry.record_lem

    -- The record of a slot that was given out.
    new-record :
        (t : ℕ)
        → start_reserve ≤ t
        → t < k.taken
        → (state_at rt.geometry system.memory.cache t ≡ state_committed)
          × (intact h rt.geometry system.memory.cache (record_offset rt.geometry t) ≡ true)
          × (get_le 8 system.memory.cache (record_offset rt.geometry t + 16) ≡ suc t)
    new-record t lo hi =
        let o = k.owned t lo hi in
        let st : At o.0 (owner t) = subst (At o.0) o.2 (k.stands o.0 o.1) in
        let held = (owner-Kept o.0 t (ended o.0 o.1).0 (ended o.0 o.1).1 st).1 in
        (
          held.state,
          intact-Stores h rt.geometry system.memory.cache (record_offset rt.geometry t)
              (requests o.0).term (t + 1) (requests o.0).host_id (requests o.0).payload held.stored
              st.3,
          omega (arith, held.stored.index_lem),
        )

    old-record :
        (t : ℕ)
        → t < start_reserve
        → t < rt.geometry.capacity
        → state_at rt.geometry system.memory.cache t ≡ state_committed
        → (intact h rt.geometry system.memory.cache (record_offset rt.geometry t) ≡ true)
          × (get_le 8 system.memory.cache (record_offset rt.geometry t + 16) ≡ suc t)
    old-record t below small st =
        let before : state_at rt.geometry m.cache t ≡ state_committed = omega (
          arith,
          k.old t below (record_offset rt.geometry t + 0) (omega arith) (omega (arith, sized)),
          st,
        ) in
        (
          intact-Agree h rt.geometry m.cache system.memory.cache (record_offset rt.geometry t)
                (λ a lo hi. k.old t below a (omega arith) (omega (arith, sized, hi)))
              ∙ p.sound t small before,
          get_le-Agree 8 m.cache system.memory.cache (record_offset rt.geometry t + 16)
                (record_offset rt.geometry t)
                (record_offset rt.geometry t + rt.geometry.record_size) (k.old t below)
                (omega arith) (omega (arith, sized))
              ∙ p.numbered t small before,
        )

    record_lem :
        (t : ℕ)
        → t < rt.geometry.capacity
        → state_at rt.geometry system.memory.cache t ≡ state_committed
        → (intact h rt.geometry system.memory.cache (record_offset rt.geometry t) ≡ true)
          × (get_le 8 system.memory.cache (record_offset rt.geometry t + 16) ≡ suc t)
    record_lem t small st = elim (le-cases start_reserve t) [
      | inr below ↦ old-record t below small st
      | inl after ↦ elim (le-cases k.taken t) [
        | inl free ↦ absurd (omega (arith, k.fresh t free small, st))
        | inr given ↦ let new = new-record t after given in (new.1, new.2)
      ]
    ]

    -- The tail has not passed a slot that was never given out.
    tail_le : get_le 8 system.memory.cache 32 ≤ k.taken
    tail_le = elim (le-cases (get_le 8 system.memory.cache 32) k.taken) [
      | inl le ↦ le
      | inr gt ↦
          let small : k.taken < rt.geometry.capacity = omega (arith, gt, k.good.tail_le) in
          absurd (
            omega (
              arith,
              k.fresh k.taken (omega arith) small,
              k.good.dense k.taken (omega (arith, p.tail_le, k.first_le)) gt,
            ))
    ]

    -- Where fewer than 2 ^ 32 appends of hosts of the pool, with terms that are u64s, start on a
    -- well-formed pool and take turns in any order, one call of the backend at a time, and have
    -- all ended: the pool is well formed again, every slot that was reserved meanwhile is
    -- COMMITTED, and the records of the slots reserved before are as they were.
    pub settled-IsPool :
        IsPool h rt system.memory
        × ((t : ℕ)
            → start_reserve ≤ t
            → t < get_le 8 system.memory.cache 40
            → state_at rt.geometry system.memory.cache t ≡ state_committed)
        × ((t : ℕ) → t < start_reserve → SameRecord rt.geometry start_tail t m system.memory)
    settled-IsPool = (
      record {
        runtime = record { mapped = k.good.mapped; host = p.runtime.host };
        tail_le = omega (arith, tail_le, reserve_lem);
        reserve_le = omega (arith, reserve_lem, k.taken_le);
        fresh = λ t lo hi. k.fresh t (omega (arith, reserve_lem)) hi;
        sound = λ t small st. (record_lem t small st).0;
        numbered = λ t small st. (record_lem t small st).1;
      },
      (λ t lo hi. (new-record t lo (omega (arith, reserve_lem))).0),
      k.old,
    )

-- ===== src/Concurrent/Protocol.antt =====
-- Appends of any number of hosts in any order of their steps: each is answered, none harms another.
use mathlib.Core.Path.{subst}
use fence.Prelude.{ℕ, ◌+◌, ◌^◌, ◌≤◌, ◌<◌, ◌≡◌, ◌⊎◌, refl, arith, List, length, inl, inr, le-cases}
use fence.Backend.{Memory, get_le}
use fence.Program.{Prog, ret, panic, out_of_fuel, call}
use fence.FenceError.{Result, ok, err, payload_too_large}
use fence.Checksum.{Hasher}
use fence.Recovery.Places.{header-Word}
use fence.Engine.{FenceRuntime}
use fence.Engine.Pool.{IsPool}
use fence.Concurrent.{System, Request, host, request, start, turns, AllBelow, CanGo}
use fence.Concurrent.Family.{weight, weight-zero}
use fence.Concurrent.Rely.{Rely-refl, Safe, Safe-advance}
use fence.Concurrent.Append.{Holds}
use fence.Concurrent.Invariant.{
  Phase, waiting, over, refused, owner, excess, Full, Kept, Stands, Inv,
}
use fence.Concurrent.Requests.{request-big, request-fits, full-call}
use fence.Concurrent.Turns.{turns-Inv}
use fence.Concurrent.Depth.{Depth, Depth-mono, request-Depth, turns-Depth, turns_of, most}

module _ (h : Hasher) (rt : FenceRuntime) (m : Memory) (p : IsPool h rt m) (n : ℕ)
    (requests : ℕ → Request) (u32 : n < 2 ^ 32)
    (hosts : (i : ℕ) → i < n → (requests i).host_id < rt.geometry.max_hosts)
    (terms : (i : ℕ) → i < n → (requests i).term < 2 ^ 64) where
  abbrev pub base : ℕ
  base = get_le 8 m.cache 32

  abbrev pub first : ℕ
  first = get_le 8 m.cache 40

  -- What a call has answered: `PayloadTooLarge`, `PoolFull`, or the index of a slot that was free and
  -- holds its record, COMMITTED.
  abbrev pub Answered : Request → Result ℕ → Memory → Type 0
  Answered q res k =
      ((rt.geometry.payload_size < length q.payload)
        × (res ≡ err (payload_too_large rt.geometry.payload_size (length q.payload))))
      ⊎ ((length q.payload ≤ rt.geometry.payload_size)
          × ((Full h rt.geometry base res k × (rt.geometry.capacity ≤ get_le 8 k.cache 40))
              ⊎ ((s : ℕ) × (first ≤ s)
                  × (s < rt.geometry.capacity)
                  × (res ≡ ok (s + 1))
                  × Holds h (host rt.geometry q) base s q.term q.payload k)))

  start-Inv : Inv h rt.geometry base n requests m first (start h rt.geometry requests m)
  start-Inv = record {
    phases = λ i. waiting;
    taken = first;
    good = record {
      mapped = p.runtime.mapped;
      tail_le = omega (arith, p.tail_le, p.reserve_le);
      base_le = omega arith;
      dense = λ t lo hi. absurd (omega arith);
    };
    size = refl;
    taken_le = p.reserve_le;
    first_le = omega arith;
    reserve = omega (arith, none);
    spare = λ room. none;
    fresh = p.fresh;
    old = λ t lt a lo hi. refl;
    stands = λ i lt. refl;
    apart = λ i j li lj ne small. absurd (omega (arith, small));
    owned = λ t lo hi. absurd (omega arith);
  }
    where
      none : weight excess n (λ i. waiting) ≡ 0
      none = weight-zero excess n (λ i. waiting) (λ i lt. refl)

  module _ (schedule : List ℕ) (all : AllBelow n schedule) where
    abbrev pub reached : System
    reached = turns schedule (start h rt.geometry requests m)

    pub reached-Inv : Inv h rt.geometry base n requests m first reached
    reached-Inv =
        turns-Inv h rt.geometry base n requests m first u32 hosts terms schedule
          (start h rt.geometry requests m) all start-Inv

    Stands-CanGo :
        (i : ℕ) (ph : Phase)
        → Stands h rt.geometry base
            (requests i)
            first
            reached-Inv.taken
            ph
            (reached.calls i)
            reached.memory
        → CanGo (reached.calls i) reached.memory
    Stands-CanGo i waiting st =
        elim (le-cases (length (requests i).payload) rt.geometry.payload_size) [
          | inr big ↦ rw (st, request-big h rt.geometry base (requests i) big) tt
          | inl fit ↦
              rw (st, request-fits h rt.geometry base (requests i) fit)
                (header-Word rt.geometry reached.memory.size 40 reached-Inv.good.mapped
                  (omega arith) refl)
        ]
    Stands-CanGo i (over v) st =
        rw (st.0, full-call h rt.geometry base (requests i) v)
          (header-Word rt.geometry reached.memory.size 40 reached-Inv.good.mapped (omega arith)
            refl)
    Stands-CanGo i refused st =
        (Safe-advance rt.geometry base rt.geometry.capacity (Full h rt.geometry base)
          (reached.calls i) reached.memory reached-Inv.good st.0).0
    Stands-CanGo i (owner s) st =
        (Safe-advance rt.geometry base s (Kept h rt.geometry base (requests i) s) (reached.calls i)
          reached.memory reached-Inv.good st.0).0

    -- Where fewer than 2 ^ 32 appends of hosts of the pool, with terms that are u64s, start on a
    -- well-formed pool and take turns in any order, one call of the backend at a time: at every
    -- moment the assertions of the backend hold for the next call of each of them, and none has
    -- panicked or run out of fuel.
    pub turns-CanGo : (i : ℕ) → i < n → CanGo (reached.calls i) reached.memory
    turns-CanGo i lt = Stands-CanGo i (reached-Inv.phases i) (reached-Inv.stands i lt)

    -- A call that has answered.
    Stands-Answered :
        (i : ℕ) (ph : Phase) (res : Result ℕ)
        → reached.calls i ≡ ret res
        → Stands h rt.geometry base
            (requests i)
            first
            reached-Inv.taken
            ph
            (reached.calls i)
            reached.memory
        → Answered (requests i) res reached.memory
    Stands-Answered i waiting res e st =
        elim (le-cases (length (requests i).payload) rt.geometry.payload_size) [
          | inr big ↦ inl (big, cc (st, e, request-big h rt.geometry base (requests i) big))
          | inl fit ↦ absurd (cc (st, e, request-fits h rt.geometry base (requests i) fit))
        ]
    Stands-Answered i (over v) res e st =
        absurd (cc (st.0, e, full-call h rt.geometry base (requests i) v))
    Stands-Answered i refused res e st = inr (
      st.2,
      inl (
        subst
            (λ c.
              Safe rt.geometry base rt.geometry.capacity (Full h rt.geometry base) c reached.memory)
            e st.0 reached.memory
            (Rely-refl rt.geometry base rt.geometry.capacity reached.memory reached-Inv.good),
        omega (arith, reached-Inv.reserve, st.1),
      ),
    )
    Stands-Answered i (owner s) res e st =
        let kept =
          subst
            (λ c. Safe rt.geometry base s (Kept h rt.geometry base (requests i) s) c reached.memory)
            e st.0 reached.memory (Rely-refl rt.geometry base s reached.memory reached-Inv.good) in
        inr (st.3, inr (s, st.1, omega (arith, st.2, reached-Inv.taken_le), kept.0, kept.1))

    -- Where fewer than 2 ^ 32 appends of hosts of the pool, with terms that are u64s, start on a
    -- well-formed pool and take turns in any order, one call of the backend at a time: an append
    -- that has answered has answered `PayloadTooLarge`, and its payload is larger than the pool's;
    -- or its payload fits and it has answered `PoolFull`, and the reserve tail has reached the
    -- capacity; or the index of a slot that was not reserved at the start, and the slot holds the
    -- record, COMMITTED, with the call's term, host and payload.
    pub answer_lem :
        (i : ℕ) (res : Result ℕ)
        → i < n
        → reached.calls i ≡ ret res
        → Answered (requests i) res reached.memory
    answer_lem i res lt e = Stands-Answered i (reached-Inv.phases i) res e (reached-Inv.stands i lt)

    -- Where fewer than 2 ^ 32 appends of hosts of the pool, with terms that are u64s, start on a
    -- well-formed pool and take turns in any order, one call of the backend at a time: an append
    -- that has had `most` turns, a number that is quadratic in the capacity, has ended, however
    -- the others' turns lie between its own, and its answer is right: `PayloadTooLarge`,
    -- `PoolFull`, or the index of a slot that holds its record, COMMITTED.
    pub append-ends :
        (i : ℕ)
        → i < n
        → most rt.geometry ≤ turns_of i schedule
        → (res : Result ℕ) × (reached.calls i ≡ ret res) × Answered (requests i) res reached.memory
    append-ends i lt enough = go (reached.calls i) refl (turns-CanGo i lt) (
        turns-Depth i schedule (start h rt.geometry requests m) 0 (
          Depth-mono (request h rt.geometry (requests i)) (most rt.geometry)
            (0 + turns_of i schedule) (omega (arith, enough))
            (request-Depth rt.geometry h (requests i))))
      where
        go :
            (c : Prog (Result ℕ))
            → reached.calls i ≡ c
            → CanGo c reached.memory
            → Depth c 0
            → (res : Result ℕ) × (reached.calls i ≡ ret res)
              × Answered (requests i) res reached.memory
        go (ret res) e can d = (res, e, answer_lem i res lt e)
        go panic e can d = absurd can
        go out_of_fuel e can d = absurd can
        go (call o f) e can d = absurd d

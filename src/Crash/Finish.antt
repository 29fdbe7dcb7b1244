-- ===== src/Crash/Finish.antt =====
-- The end of `append`: the sweep of the tail and the counters.
use fence.Prelude.{ℕ, zero, suc, ◌+◌, ◌-◌, ◌≤◌, inl, inr, arith, Bool-cases, ◌==◌, as_u32}
use fence.Prelude.Bytes.{Space}
use fence.Backend.{Memory, Exchange, swapped, actual, load_u8, load_u64, compare_exchange_u64}
use fence.Program.{ret}
use fence.Layout.{PoolGeometry, record_offset, state_committed}
use fence.Recovery.{scan_committed, advance_loop, advance_committed_tail}
use fence.Crash.Rules.{Stable, Keeps, Keeps-bind}
use fence.Crash.Append.{Durable, Durable-exec}

module _ (g : PoolGeometry) (r size slot : ℕ) (early : Type 0) (above : 64 ≤ r) (room : 64 ≤ size)
    (x : Space) (P : Memory → Type 0)
    (stable : Stable r (r + size) slot early (Durable r size slot early above room x))
    (safe : (m : Memory) → Durable r size slot early above room x m → P m) where
  abbrev I : Memory → Type 0
  I = Durable r size slot early above room x

  Keeps-scan : (n t : ℕ) → Keeps r (r + size) slot early P I stable safe (scan_committed g n t)
  unfolding scan_committed
  Keeps-scan zero t = tt
  Keeps-scan (suc n) t = (
    λ m d.
        Durable-exec r size slot early above room x (load_u8 (record_offset g (as_u32 t) + 0)) m tt
          d,
    λ state. elim (Bool-cases (state == state_committed)) [
      | inl e ↦ rw e (Keeps-scan n (suc t))
      | inr ne ↦ rw ne tt
    ],
  )

  Keeps-answer :
      (fuel new_tail : ℕ)
      → Keeps r (r + size) slot early P I stable safe (advance_loop g fuel)
      → (answer : Exchange)
      → Keeps r
          (r + size)
          slot
          early
          P
          I
          stable
          safe
          (elim answer [ swapped _ ↦ ret new_tail | actual _ ↦ advance_loop g fuel ])
  Keeps-answer fuel new_tail k (swapped v) = tt
  Keeps-answer fuel new_tail k (actual v) = k

  Keeps-loop : (fuel : ℕ) → Keeps r (r + size) slot early P I stable safe (advance_loop g fuel)
  unfolding advance_loop
  Keeps-loop zero = tt
  Keeps-loop (suc fuel) = (
    λ m d. Durable-exec r size slot early above room x (load_u64 32) m tt d,
    λ tail.
        Keeps-bind r (r + size) slot early P I stable safe
          (scan_committed g (g.capacity - tail) tail) _ (Keeps-scan (g.capacity - tail) tail)
          (λ new_tail. elim (Bool-cases (new_tail == tail)) [
            | inl e ↦ rw e tt
            | inr ne ↦ rw ne (
              λ m d.
                  Durable-exec r size slot early above room x
                    (compare_exchange_u64 32 tail new_tail) m (inl (omega arith)) d,
              Keeps-answer fuel new_tail (Keeps-loop fuel),
            )
          ]),
  )

  pub Keeps-advance : Keeps r (r + size) slot early P I stable safe (advance_committed_tail g)
  unfolding advance_committed_tail
  Keeps-advance = Keeps-loop (suc g.capacity)

-- ===== src/Concurrent/Depth.antt =====
-- How many calls of the backend a program makes at most, whatever the answers are.
use fence.Prelude.{
  ℕ, zero, suc, ◌+◌, ◌*◌, ◌-◌, ◌≤◌, ◌≡◌, arith, sym, List, [], ◌∷◌, length, Bool-cases, inl, inr,
  ◌==◌, leb, ltb, if◌then◌else◌, as_u32,
}
use mathlib.Core.Path.{subst}
use fence.Backend.{Memory, Reply, exec, Exchange, swapped, actual}
use fence.Program.{Prog, ret, panic, out_of_fuel, call, ◌>>=◌}
use fence.Layout.{PoolGeometry, record_offset, state_committed}
use fence.Checksum.{Hasher}
use fence.Metrics
use fence.Recovery
use fence.Recovery.{scan_committed, advance_loop}
use fence.Engine.{append, append_at, append_full, write_record, commit_record}
use fence.Concurrent.{System, Request, host, request, advance, turn, turns}
use fence.Concurrent.Family.{update, update_self, update_other}

abbrev pub Depth : {A : Type 0} → Prog A → ℕ → Type 0
Depth (ret a) b = Unit
Depth panic b = Unit
Depth out_of_fuel b = Unit
Depth (call o k) zero = ⊥
Depth (call o k) (suc b) = (r : Reply o) → Depth (k r) b

pub Depth-mono : {A : Type 0} (p : Prog A) (a b : ℕ) → a ≤ b → Depth p a → Depth p b
Depth-mono (ret x) a b le d = tt
Depth-mono panic a b le d = tt
Depth-mono out_of_fuel a b le d = tt
Depth-mono (call o k) zero b le d = absurd d
Depth-mono (call o k) (suc a) zero le d = absurd (omega (arith, le))
Depth-mono (call o k) (suc a) (suc b) le d = λ r. Depth-mono (k r) a b (omega (arith, le)) (d r)

Depth-bind :
    {A B : Type 0} (f : A → Prog B) (p : Prog A) (a b : ℕ)
    → Depth p a
    → ((x : A) → Depth (f x) b)
    → Depth (p >>= f) (a + b)
Depth-bind f (ret x) a b d next = Depth-mono (f x) b (a + b) (omega arith) (next x)
Depth-bind f panic a b d next = tt
Depth-bind f out_of_fuel a b d next = tt
Depth-bind f (call o k) zero b d next = absurd d
Depth-bind f (call o k) (suc a) b d next =
    Depth-mono (call o (λ r. k r >>= f)) (suc (a + b)) (suc a + b) (omega arith)
      (λ r. Depth-bind f (k r) a b (d r) next)

module _ (g : PoolGeometry) where
  -- One round of the compare-and-swap loop.
  abbrev pub round : ℕ
  round = g.capacity + 2

  scan-Depth : (n x : ℕ) → Depth (scan_committed g n x) n
  unfolding scan_committed
  scan-Depth zero x = tt
  scan-Depth (suc n) x = λ state. elim (Bool-cases (state == state_committed)) [
    | inl st ↦ rw st (scan-Depth n (suc x))
    | inr other ↦ rw other tt
  ]

  exchange-Depth :
      (fuel a b t x : ℕ) (answer : Exchange)
      → Depth (advance_loop g fuel) b
      → Depth (elim answer [ swapped _ ↦ ret x | actual _ ↦ advance_loop g fuel ]) b
  exchange-Depth fuel a b t x (swapped v) d = tt
  exchange-Depth fuel a b t x (actual v) d = d

  loop-Depth : (fuel : ℕ) → Depth (advance_loop g fuel) (fuel * round)
  unfolding advance_loop
  loop-Depth zero = tt
  loop-Depth (suc fuel) =
      Depth-mono (advance_loop g (suc fuel)) (suc (g.capacity + suc (fuel * round)))
        (suc fuel * round) (omega arith)
        (λ t.
          Depth-bind _ (scan_committed g (g.capacity - t) t) g.capacity (suc (fuel * round))
            (Depth-mono (scan_committed g (g.capacity - t) t) (g.capacity - t) g.capacity
              (omega arith) (scan-Depth (g.capacity - t) t))
            (λ x. elim (Bool-cases (x == t)) [
              | inl none ↦ rw none tt
              | inr more ↦
                  rw more
                    (λ answer. exchange-Depth fuel 0 (fuel * round) t x answer (loop-Depth fuel))
            ]))

  advance-Depth : Depth (Recovery.advance_committed_tail g) (suc g.capacity * round)
  unfolding Recovery.advance_committed_tail
  advance-Depth = loop-Depth (suc g.capacity)

  -- The calls that an append makes at most.
  abbrev pub most : ℕ
  most = suc (12 + suc g.capacity * round)

  module _ (h : Hasher) (q : Request) where
    write-Depth :
        (r index term : ℕ) (payload : List ℕ)
        → Depth (write_record h (host g q) r index term payload) 8
    unfolding write_record
    write-Depth r index term payload = λ _ _ _ _ _. elim (Bool-cases (ltb 0 (length payload))) [
      | inl some_bytes ↦ rw some_bytes (λ _ _ _. tt)
      | inr empty ↦ rw empty (λ _ _. tt)
    ]

    commit-Depth : (r : ℕ) → Depth (commit_record h (host g q) r) 2
    unfolding commit_record
    commit-Depth r = λ _ _. tt

    append_at-Depth :
        (slot term : ℕ) (payload : List ℕ)
        → Depth (append_at h (host g q) slot term payload) (8 + (2 + (suc g.capacity * round + 2)))
    unfolding append_at Metrics.increment_appends Metrics.increment_bytes_written
    append_at-Depth slot term payload =
        Depth-bind _
          (write_record h (host g q) (record_offset g (as_u32 slot)) (slot + 1) term payload) 8
          (2 + (suc g.capacity * round + 2))
          (write-Depth (record_offset g (as_u32 slot)) (slot + 1) term payload)
          (λ _.
            Depth-bind _ (commit_record h (host g q) (record_offset g (as_u32 slot))) 2
              (suc g.capacity * round + 2) (commit-Depth (record_offset g (as_u32 slot)))
              (λ _.
                Depth-bind _ (Recovery.advance_committed_tail g) (suc g.capacity * round) 2
                  advance-Depth (λ _ _ _. tt)))

    full-Depth : (slot : ℕ) → Depth (append_full h (host g q) slot) 2
    unfolding append_full Metrics.increment_appends_failed
    full-Depth slot = λ _ _. tt

    pub request-Depth : Depth (request h g q) most
    unfolding append
    request-Depth = elim (Bool-cases (ltb g.payload_size (length q.payload))) [
      | inl big ↦ rw big tt
      | inr fit ↦ rw fit (λ slot. elim (Bool-cases (leb g.capacity slot)) [
        | inl full ↦ rw full (
            Depth-mono (append_full h (host g q) slot) 2 (12 + suc g.capacity * round) (omega arith)
              (full-Depth slot))
        | inr room ↦ rw room (
            Depth-mono (append_at h (host g q) slot q.term q.payload)
              (8 + (2 + (suc g.capacity * round + 2))) (12 + suc g.capacity * round) (omega arith)
              (append_at-Depth slot q.term q.payload))
      ])
    ]

-- How many turns of the schedule are those of call `i`.
abbrev pub turns_of : ℕ → List ℕ → ℕ
turns_of i [] = 0
turns_of i (j ∷ js) = (if j == i then 1 else 0) + turns_of i js

advance-less :
    {A : Type 0} (p : Prog A) (m : Memory) (b : ℕ) → Depth p (suc b) → Depth (advance p m).0 b
advance-less (ret a) m b d = tt
advance-less panic m b d = tt
advance-less out_of_fuel m b d = tt
advance-less (call o k) m b d = d (exec o m).0

-- A call that has all the turns that it can use ends up with no call to make.
pub turns-Depth :
    (i : ℕ) (schedule : List ℕ) (sys : System) (b : ℕ)
    → Depth (sys.calls i) (b + turns_of i schedule)
    → Depth ((turns schedule sys).calls i) b
unfolding turns turn
turns-Depth i [] sys b d = subst (Depth (sys.calls i)) (omega arith) d
turns-Depth i (j ∷ js) sys b d = elim (Bool-cases (j == i)) [
  | inl mine ↦
      let e : i ≡ j = ground (arith, mine) in
      let enough : Depth (sys.calls i) (b + (1 + turns_of i js)) = rw mine at d in
      let less : Depth (sys.calls j) (suc (b + turns_of i js)) =
        subst (λ u. Depth (sys.calls u) (suc (b + turns_of i js))) e
          (subst (Depth (sys.calls i)) (omega arith) enough) in
      turns-Depth i js (turn j sys) b (
        subst
          (λ u.
            Depth (update sys.calls j (advance (sys.calls j) sys.memory).0 u) (b + turns_of i js))
          (sym e)
          (rw (update_self sys.calls j (advance (sys.calls j) sys.memory).0)
            (advance-less (sys.calls j) sys.memory (b + turns_of i js) less)))
  | inr other ↦
      let kept : Depth (sys.calls i) (b + (0 + turns_of i js)) = rw other at d in
      turns-Depth i js (turn j sys) b (
        rw
          (update_other sys.calls j i (advance (sys.calls j) sys.memory).0
            (λ e. absurd (ground (arith, other, e))))
          (subst (Depth (sys.calls i)) (omega arith) kept))
]

-- ===== src/Concurrent/Rely.antt =====
-- What a call may count on while others work, what it may do to them, and the correctness of a call
-- among others.
-- A call owns at most one slot: the number of its slot, or the capacity where it has none.
use fence.Prelude.{ℕ, ◌+◌, ◌≤◌, ◌<◌, ◌≡◌, ◌≢◌, refl, ◌∙◌, arith}
use fence.Backend.{Memory, exec, Asserts, get_le}
use fence.Program.{Prog, ret, panic, out_of_fuel, call, ◌>>=◌}
use fence.Layout.{PoolGeometry, record_offset, state_committed}
use fence.Metrics.Counters.{IsMapped}
use fence.Recovery.Sweep.{state_at}
use fence.Recovery.Check.{Agree}
use fence.Concurrent.{advance, CanGo}

-- `base` is the tail at the start: from there on the tail passes COMMITTED slots alone.
module _ (g : PoolGeometry) (base : ℕ) where
  abbrev pub tail_at : Memory → ℕ
  tail_at m = get_le 8 m.cache 32

  pub record IsGood (m : Memory) : Type 0 where
    pub mapped : IsMapped g m.size
    pub tail_le : tail_at m ≤ g.capacity
    pub base_le : base ≤ tail_at m
    pub dense : (t : ℕ) → base ≤ t → t < tail_at m → state_at g m.cache t ≡ state_committed

  -- A slot's record is the same in both memories.
  abbrev pub SameRecord : ℕ → Memory → Memory → Type 0
  SameRecord t m n = Agree m.cache n.cache (record_offset g t) (record_offset g t + g.record_size)

  -- What nobody does to the pool.
  pub record Moves (m n : Memory) : Type 0 where
    pub size : n.size ≡ m.size
    pub good : IsGood n
    pub tail : tail_at m ≤ tail_at n
    pub keeps :
        (t : ℕ)
        → t < g.capacity
        → state_at g m.cache t ≡ state_committed
        → state_at g n.cache t ≡ state_committed

  -- What the others may do to the call that owns slot `s`.
  pub record Rely (s : ℕ) (m n : Memory) : Type 0 where
    pub moves : Moves m n
    pub mine : s < g.capacity → SameRecord s m n

  -- What the call that owns slot `s` may do.
  pub record Guar (s : ℕ) (m n : Memory) : Type 0 where
    pub moves : Moves m n
    pub rest : (t : ℕ) → t < g.capacity → t ≢ s → SameRecord t m n
    pub reserve : get_le 8 n.cache 40 ≡ get_le 8 m.cache 40

  Moves-refl : (m : Memory) → IsGood m → Moves m m
  Moves-refl m k = record { size = refl; good = k; tail = omega arith; keeps = λ t lt st. st }

  Moves-trans : (m n k : Memory) → Moves m n → Moves n k → Moves m k
  Moves-trans m n k a b = record {
    size = b.size ∙ a.size;
    good = b.good;
    tail = omega (arith, a.tail, b.tail);
    keeps = λ t lt st. b.keeps t lt (a.keeps t lt st);
  }

  pub Rely-refl : (s : ℕ) (m : Memory) → IsGood m → Rely s m m
  Rely-refl s m k = record { moves = Moves-refl m k; mine = λ lt a lo hi. refl }

  pub Rely-trans : (s : ℕ) (m n k : Memory) → Rely s m n → Rely s n k → Rely s m k
  Rely-trans s m n k a b = record {
    moves = Moves-trans m n k a.moves b.moves;
    mine = λ lt p lo hi. b.mine lt p lo hi ∙ a.mine lt p lo hi;
  }

  pub Guar-refl : (s : ℕ) (m : Memory) → IsGood m → Guar s m m
  Guar-refl s m k = record {
    moves = Moves-refl m k;
    rest = λ t lt ne a lo hi. refl;
    reserve = refl;
  }

  -- What one does, another relies on.
  pub Guar-Rely : (s t : ℕ) (m n : Memory) → (t < g.capacity → t ≢ s) → Guar s m n → Rely t m n
  Guar-Rely s t m n ne k = record { moves = k.moves; mine = λ lt. k.rest t lt (ne lt) }

  -- Before each call the others may work. Then its assertions hold, it does what it may, and what
  -- follows is correct; at the end `Q` holds, and lasts.
  abbrev pub Safe : {A : Type 0} → ℕ → (A → Memory → Type 0) → Prog A → Memory → Type 0
  Safe s Q (ret a) m = (n : Memory) → Rely s m n → Q a n
  Safe s Q panic m = ⊥
  Safe s Q out_of_fuel m = ⊥
  Safe s Q (call o k) m =
      (n : Memory)
      → Rely s m n
      → Asserts o n.size × Guar s n (exec o n).1 × Safe s Q (k (exec o n).0) (exec o n).1

  module _ {A : Type 0} (s : ℕ) where
    -- Others may work at any time.
    pub Safe-Rely :
        (Q : A → Memory → Type 0) (p : Prog A) (m n : Memory)
        → Rely s m n
        → Safe s Q p m
        → Safe s Q p n
    Safe-Rely Q (ret a) m n r k = λ l q. k l (Rely-trans s m n l r q)
    Safe-Rely Q panic m n r k = k
    Safe-Rely Q out_of_fuel m n r k = k
    Safe-Rely Q (call o f) m n r k = λ l q. k l (Rely-trans s m n l r q)

    pub Safe-mono :
        (P Q : A → Memory → Type 0)
        → ((a : A) (m : Memory) → P a m → Q a m)
        → (p : Prog A) (m : Memory) → Safe s P p m
        → Safe s Q p m
    Safe-mono P Q weaken (ret a) m k = λ n r. weaken a n (k n r)
    Safe-mono P Q weaken panic m k = k
    Safe-mono P Q weaken out_of_fuel m k = k
    Safe-mono P Q weaken (call o f) m k =
        λ n r. let c = k n r in (c.0, c.1, Safe-mono P Q weaken (f (exec o n).0) (exec o n).1 c.2)

    -- One call of the backend.
    pub Safe-advance :
        (Q : A → Memory → Type 0) (p : Prog A) (m : Memory)
        → IsGood m
        → Safe s Q p m
        → CanGo p m × Guar s m (advance p m).1 × Safe s Q (advance p m).0 (advance p m).1
    Safe-advance Q (ret a) m good k = (tt, Guar-refl s m good, k)
    Safe-advance Q panic m good k = absurd k
    Safe-advance Q out_of_fuel m good k = absurd k
    Safe-advance Q (call o f) m good k = k m (Rely-refl s m good)

  pub Safe-bind :
      {A B : Type 0} (s : ℕ) (Q : B → Memory → Type 0) (f : A → Prog B) (p : Prog A) (m : Memory)
      → IsGood m
      → Safe s (λ a n. IsGood n → Safe s Q (f a) n) p m
      → Safe s Q (p >>= f) m
  Safe-bind s Q f (ret a) m good k = k m (Rely-refl s m good) good
  Safe-bind s Q f panic m good k = k
  Safe-bind s Q f out_of_fuel m good k = k
  Safe-bind s Q f (call o l) m good k = λ n r.
      let c = k n r in (c.0, c.1, Safe-bind s Q f (l (exec o n).0) (exec o n).1 c.1.moves.good c.2)

  -- What follows `p` is correct where `p` ends.
  pub Safe-then :
      {A B : Type 0} (s : ℕ) (P : A → Memory → Type 0) (Q : B → Memory → Type 0) (f : A → Prog B)
      (p : Prog A)
      → (m : Memory) → IsGood m
      → Safe s P p m
      → ((a : A) (n : Memory) → P a n → IsGood n → Safe s Q (f a) n)
      → Safe s Q (p >>= f) m
  Safe-then s P Q f p m good k next = Safe-bind s Q f p m good (Safe-mono s P _ next p m k)

-- ===== src/Crash/Rules.antt =====
-- How an invariant is carried through a program that may crash.
use fence.Prelude.{ℕ, ◌+◌, ◌≤◌, ◌<◌, ◌≡◌, ◌⊎◌, inl, inr, refl, arith}
use fence.Backend.{Op, Reply, Memory, exec, get_le}
use fence.Program.{Prog, ret, panic, out_of_fuel, call, ◌>>=◌}
use fence.Recovery.Check.{get_le-Agree}
use fence.Crash.Lines.{LineWise, evict-LineWise, media-LineWise, cache-Spares}
use fence.Crash.{Spares, Passes, Env, still, evict, other, During, before, after, Always}

module _ (lo hi slot : ℕ) (early : Type 0) where
  -- The invariant survives evictions and the operations of others.
  abbrev pub Stable : (Memory → Type 0) → Type 0
  Stable I = (m n : Memory) → I m → Env lo hi slot early m n → I n

  -- What evictions and others may change: nothing in `[lo, hi)` of the cache, the tail only as `Passes`
  -- says, and of the media whole cachelines.
  pub record Quiet (m n : Memory) : Type 0 where
    pub range : (a : ℕ) → lo ≤ a → a < hi → n.cache a ≡ m.cache a
    pub tail :
        (get_le 8 n.cache 32 ≡ get_le 8 m.cache 32)
        ⊎ (get_le 8 n.cache 32 ≤ slot)
        ⊎ ((m.cache (lo + 0) ≡ 2) × (early ⊎ (m.media (lo + 0) ≡ 2)))
    pub lines : LineWise m.cache m.media n.media

  moved :
      (o : Op) (n : Memory)
      → Spares 32 40 o ⊎ Passes lo slot early n (exec o n).1
      → (get_le 8 (exec o n).1.cache 32 ≡ get_le 8 n.cache 32)
        ⊎ (get_le 8 (exec o n).1.cache 32 ≤ slot)
        ⊎ ((n.cache (lo + 0) ≡ 2) × (early ⊎ (n.media (lo + 0) ≡ 2)))
  moved o n (inl t) = inl (
      get_le-Agree 8 n.cache (exec o n).1.cache 32 32 40 (λ a l u. cache-Spares 32 40 o n a t l u)
        (omega arith) (omega arith))
  moved o n (inr p) = inr p

  pub Stable_of : (I : Memory → Type 0) → ((m n : Memory) → Quiet m n → I m → I n) → Stable I
  Stable_of I keep m _ i still = i
  Stable_of I keep m _ i (evict {n} e ptr) =
      keep n _ (record { range = λ a l u. refl; tail = inl refl; lines = evict-LineWise n ptr })
        (Stable_of I keep m n i e)
  Stable_of I keep m _ i (other {n} e o s t) =
      keep n _
        (record {
          range = λ a l u. cache-Spares lo hi o n a s l u;
          tail = moved o n t;
          lines = media-LineWise o n;
        })
        (Stable_of I keep m n i e)

  pub Always-During :
      {A : Type 0} (P : Memory → Type 0) {p : Prog A} {m m' : Memory}
      → During lo hi slot early p m m'
      → Always lo hi slot early P p m
      → P m'
  Always-During P (before {p = ret a} e) h = h _ e
  Always-During P (before {p = panic} e) h = h _ e
  Always-During P (before {p = out_of_fuel} e) h = h _ e
  Always-During P (before {p = call o k} e) h = (h _ e).0
  Always-During P (after e d) h = Always-During P d (h _ e).1

  module _ (P I : Memory → Type 0) (stable : Stable I) (safe : (m : Memory) → I m → P m) where
    pub Always-ret : {A : Type 0} (a : A) (m : Memory) → I m → Always lo hi slot early P (ret a) m
    Always-ret a m i = λ n e. safe n (stable m n i e)

    pub Always-call :
        {A : Type 0} (o : Op) (k : Reply o → Prog A) (m : Memory)
        → I m
        → ((n : Memory) → I n → Always lo hi slot early P (k (exec o n).0) (exec o n).1)
        → Always lo hi slot early P (call o k) m
    Always-call o k m i next = λ n e. (safe n (stable m n i e), next n (stable m n i e))

    -- Every call that the program may make keeps the invariant.
    abbrev pub Keeps : {A : Type 0} → Prog A → Type 0
    Keeps (ret a) = Unit {0}
    Keeps panic = Unit {0}
    Keeps out_of_fuel = Unit {0}
    Keeps (call o k) = ((m : Memory) → I m → I (exec o m).1) × ((x : Reply o) → Keeps (k x))

    pub Keeps-Always :
        {A : Type 0} (p : Prog A) (m : Memory) → Keeps p → I m → Always lo hi slot early P p m
    Keeps-Always (ret a) m k i = λ n e. safe n (stable m n i e)
    Keeps-Always panic m k i = λ n e. safe n (stable m n i e)
    Keeps-Always out_of_fuel m k i = λ n e. safe n (stable m n i e)
    Keeps-Always (call o f) m k i = λ n e. (
      safe n (stable m n i e),
      Keeps-Always (f (exec o n).0) (exec o n).1 (k.1 (exec o n).0) (k.0 n (stable m n i e)),
    )

    pub Keeps-bind :
        {A B : Type 0} (p : Prog A) (f : A → Prog B)
        → Keeps p
        → ((a : A) → Keeps (f a))
        → Keeps (p >>= f)
    Keeps-bind (ret a) f k h = h a
    Keeps-bind panic f k h = tt
    Keeps-bind out_of_fuel f k h = tt
    Keeps-bind (call o g) f k h = (k.0, λ x. Keeps-bind (g x) f (k.1 x) h)

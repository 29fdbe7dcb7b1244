-- ===== src/Program.antt =====
-- Code that works on a pool through the `MemoryBackend` trait: the calls that it makes, each followed
-- by a continuation on the answer. So the same text can be run to its end, cut short by a crash, or
-- interleaved with another host's.
use mathlib.Core.Path.{subst₂}
use fence.Prelude.{ℕ, ◌≡◌, refl, sym, ◌∙◌, arith, ◌==◌, Bool-cases, inl, inr}
use fence.Backend.{
  Op, Reply, Memory, exec, Asserts, get_le, read, write, load_u64, store_u64, fetch_add_u64,
  compare_exchange_u64, load_u8, store_u8, flush,
}

-- `panic` is a Rust panic, `out_of_fuel` a loop that was cut short by its fuel.
pub data Prog (A : Type 0) : Type 0 where
  ret : A → Prog A
  panic : Prog A
  out_of_fuel : Prog A
  call : (o : Op) → (Reply o → Prog A) → Prog A

module _ {A B : Type 0} where
  infixl 5 ◌>>=◌ ◌>>◌
  abbrev pub ◌>>=◌ : Prog A → (A → Prog B) → Prog B
  ret a >>= f = f a
  panic >>= f = panic
  out_of_fuel >>= f = out_of_fuel
  call o k >>= f = call o (λ r. k r >>= f)

  abbrev pub ◌>>◌ : Prog A → Prog B → Prog B
  m >> n = m >>= λ _. n

-- One call, as a program that returns the answer.
abbrev pub perform : (o : Op) → Prog (Reply o)
perform o = call o ret

pub data Outcome (A : Type 0) : Type 0 where
  done : A → Outcome A
  panicked : Outcome A
  unfinished : Outcome A

-- The run of a program by one host, to its end.
unfoldable pub run : {A : Type 0} → Prog A → Memory → Outcome A × Memory
run (ret a) m = (done a, m)
run panic m = (panicked, m)
run out_of_fuel m = (unfinished, m)
run (call o k) m = let (r, m') = exec o m in run (k r) m'

-- Total correctness of the run: no assertion of the backend fails, the code does not panic, the fuel
-- suffices, and the result and the final memory satisfy `Q`.
abbrev pub Ensures : {A : Type 0} → (A → Memory → Type 0) → Prog A → Memory → Type 0
Ensures Q (ret a) m = Q a m
Ensures Q panic m = ⊥
Ensures Q out_of_fuel m = ⊥
Ensures Q (call o k) m = Asserts o m.size × Ensures Q (k (exec o m).0) (exec o m).1

module _ {A B : Type 0} where
  pub Ensures-bind :
      (Q : B → Memory → Type 0) (f : A → Prog B) (p : Prog A) (m : Memory)
      → Ensures (λ a m'. Ensures Q (f a) m') p m
      → Ensures Q (p >>= f) m
  Ensures-bind Q f (ret a) m h = h
  Ensures-bind Q f panic m h = h
  Ensures-bind Q f out_of_fuel m h = h
  Ensures-bind Q f (call o k) m h = (h.0, Ensures-bind Q f (k (exec o m).0) (exec o m).1 h.1)

module _ {A : Type 0} (P Q : A → Memory → Type 0) where
  pub Ensures-mono :
      ((a : A) (m' : Memory) → P a m' → Q a m')
      → (p : Prog A) (m : Memory) → Ensures P p m
      → Ensures Q p m
  Ensures-mono weaken (ret a) m h = weaken a m h
  Ensures-mono weaken panic m h = h
  Ensures-mono weaken out_of_fuel m h = h
  Ensures-mono weaken (call o k) m h = (h.0, Ensures-mono weaken (k (exec o m).0) (exec o m).1 h.1)

-- What a total correctness statement says of the run.
abbrev pub Ended : {A : Type 0} → (A → Memory → Type 0) → Outcome A × Memory → Type 0
Ended Q (done a, m) = Q a m
Ended Q (panicked, m) = ⊥
Ended Q (unfinished, m) = ⊥

pub Ensures-run :
    {A : Type 0} (Q : A → Memory → Type 0) (p : Prog A) (m : Memory)
    → Ensures Q p m
    → Ended Q (run p m)
unfolding run
Ensures-run Q (ret a) m h = h
Ensures-run Q panic m h = h
Ensures-run Q out_of_fuel m h = h
Ensures-run Q (call o k) m h = Ensures-run Q (k (exec o m).0) (exec o m).1 h.1

-- `p` runs on `m` with no failure, returns `a` and leaves the memory `m'`.
abbrev pub Runs : {A : Type 0} → Prog A → Memory → A → Memory → Type 0
Runs p m a m' = Ensures (λ x n. (x ≡ a) × (n ≡ m')) p m

module _ {A B : Type 0} where
  -- What follows `p` starts where `p` ends.
  pub Runs-bind :
      (Q : B → Memory → Type 0) (f : A → Prog B) (p : Prog A) (m : Memory) (a : A) (m' : Memory)
      → Runs p m a m'
      → Ensures Q (f a) m'
      → Ensures Q (p >>= f) m
  Runs-bind Q f (ret x) m a m' h q = subst₂ (λ y n. Ensures Q (f y) n) (sym h.0) (sym h.1) q
  Runs-bind Q f panic m a m' h q = h
  Runs-bind Q f out_of_fuel m a m' h q = h
  Runs-bind Q f (call o k) m a m' h q =
      (h.0, Runs-bind Q f (k (exec o m).0) (exec o m).1 a m' h.1 q)

pub Runs-eq :
    {A : Type 0} (p : Prog A) (m : Memory) {a b : A} {m' n : Memory}
    → a ≡ b
    → m' ≡ n
    → Runs p m a m'
    → Runs p m b n
Runs-eq p m e f h = subst₂ (λ x y. Runs p m x y) e f h

pub Runs-run :
    {A : Type 0} (p : Prog A) (m : Memory) (a : A) (m' : Memory)
    → Runs p m a m'
    → run p m ≡ (done a, m')
unfolding run
Runs-run (ret x) m a m' h = ground (arith, h)
Runs-run panic m a m' h = absurd h
Runs-run out_of_fuel m a m' h = absurd h
Runs-run (call o k) m a m' h = Runs-run (k (exec o m).0) (exec o m).1 a m' h.1

pub Runs-Ensures :
    {A : Type 0} (Q : A → Memory → Type 0) (p : Prog A) (m : Memory) (a : A) (m' : Memory)
    → Runs p m a m'
    → Q a m'
    → Ensures Q p m
Runs-Ensures Q p m a m' h q =
    Ensures-mono (λ x n. (x ≡ a) × (n ≡ m')) Q
      (λ x n e. subst₂ (λ y k. Q y k) (sym e.0) (sym e.1) q) p m h

-- No operation moves the mapping.
exchange-size : (o e d : ℕ) (m : Memory) → (exec (compare_exchange_u64 o e d) m).1.size ≡ m.size
exchange-size o e d m = elim (Bool-cases (get_le 8 m.cache o == e)) [
  | inl same ↦ rw same refl
  | inr other ↦ rw other refl
]

exec-size : (o : Op) (m : Memory) → (exec o m).1.size ≡ m.size
exec-size (read o n) m = refl
exec-size (write o bs) m = refl
exec-size (load_u64 o) m = refl
exec-size (store_u64 o v) m = refl
exec-size (fetch_add_u64 o d) m = refl
exec-size (compare_exchange_u64 o e d) m = exchange-size o e d m
exec-size (load_u8 o) m = refl
exec-size (store_u8 o v) m = refl
exec-size (flush o n) m = refl

pub Ensures-size :
    {A : Type 0} (Q : A → Memory → Type 0) (size : ℕ) (p : Prog A) (m : Memory)
    → m.size ≡ size
    → Ensures Q p m
    → Ensures (λ a n. Q a n × (n.size ≡ size)) p m
Ensures-size Q size (ret a) m e k = (k, e)
Ensures-size Q size panic m e k = k
Ensures-size Q size out_of_fuel m e k = k
Ensures-size Q size (call o f) m e k =
    (k.0, Ensures-size Q size (f (exec o m).0) (exec o m).1 (exec-size o m ∙ e) k.1)

-- ===== src/Crash.antt =====
-- Crashes: what a power failure may find while a host runs, with cachelines evicted at any time and
-- other hosts at work. A crash keeps the media alone.
pub mod Lines
pub mod Rules
pub mod Append
pub mod Steps
pub mod Finish
pub mod Protocol
use fence.Prelude.{ℕ, ◌+◌, ◌≤◌, ◌≡◌, ◌⊎◌, List, length}
use fence.Backend.{
  Op, Memory, exec, clwb, read, write, load_u64, store_u64, fetch_add_u64, compare_exchange_u64,
  load_u8, store_u8, flush, get_le,
}
use fence.Program.{Prog, ret, panic, out_of_fuel, call}

-- The operation writes nothing in `[lo, hi)`.
abbrev pub Outside : ℕ → ℕ → ℕ → ℕ → Type 0
Outside lo hi o n = (o + n ≤ lo) ⊎ (hi ≤ o)

abbrev pub Spares : ℕ → ℕ → Op → Type 0
Spares lo hi (read o n) = Unit {0}
Spares lo hi (write o bs) = Outside lo hi o (length bs)
Spares lo hi (load_u64 o) = Unit {0}
Spares lo hi (store_u64 o v) = Outside lo hi o 8
Spares lo hi (fetch_add_u64 o d) = Outside lo hi o 8
Spares lo hi (compare_exchange_u64 o e d) = Outside lo hi o 8
Spares lo hi (load_u8 o) = Unit {0}
Spares lo hi (store_u8 o v) = Outside lo hi o 1
Spares lo hi (flush o n) = Unit {0}

-- Another host has changed `n` into `k`: it has not moved `committed_tail` past the slot, or the slot
-- was COMMITTED, and, unless `early` may happen, on the media too.
abbrev pub Passes : ℕ → ℕ → Type 0 → Memory → Memory → Type 0
Passes lo slot early n k =
    (get_le 8 k.cache 32 ≤ slot) ⊎ ((n.cache (lo + 0) ≡ 2) × (early ⊎ (n.media (lo + 0) ≡ 2)))

-- What may happen between two calls of a host that works on the slot in `[lo, hi)`: the cache evicts a
-- line, or another host performs an operation that does not write there, and that either does not write
-- `committed_tail` or passes the slot only as above.
pub data Env (lo hi slot : ℕ) (early : Type 0) (m : Memory) : Memory → Type 0 where
  still : Env lo hi slot early m m
  evict :
      {n : Memory}
      → Env lo hi slot early m n
      → (ptr : ℕ) → Env lo hi slot early m (record n { media = clwb n.cache n.media ptr })
  other :
      {n : Memory}
      → Env lo hi slot early m n
      → (o : Op) → Spares lo hi o
      → Spares 32 40 o ⊎ Passes lo slot early n (exec o n).1
      → Env lo hi slot early m (exec o n).1

-- The memories in which a crash may find the pool while `p` runs from `m`.
pub data During (lo hi slot : ℕ) (early : Type 0) {A : Type 0}
    : Prog A → Memory → Memory → Type 0 where
  before : {p : Prog A} {m n : Memory} → Env lo hi slot early m n → During lo hi slot early p m n
  after :
      {o : Op} {k : fence.Backend.Reply o → Prog A} {m n m' : Memory}
      → Env lo hi slot early m n
      → During lo hi slot early (k (exec o n).0) (exec o n).1 m'
      → During lo hi slot early (call o k) m m'

-- `P` holds in each of them.
abbrev pub Always : ℕ → ℕ → ℕ → Type 0 → (Memory → Type 0) → {A : Type 0} → Prog A → Memory → Type 0
Always lo hi slot early P (ret a) m = (n : Memory) → Env lo hi slot early m n → P n
Always lo hi slot early P panic m = (n : Memory) → Env lo hi slot early m n → P n
Always lo hi slot early P out_of_fuel m = (n : Memory) → Env lo hi slot early m n → P n
Always lo hi slot early P (call o k) m =
    (n : Memory)
    → Env lo hi slot early m n
    → P n × Always lo hi slot early P (k (exec o n).0) (exec o n).1

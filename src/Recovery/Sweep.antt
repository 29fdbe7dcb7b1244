-- ===== src/Recovery/Sweep.antt =====
-- The sweep of `committed_tail`: what `advance_committed_tail` finds and stores.
use native.Mathlib.Nat.{mod-eq_of_lt}
use fence.Prelude.{
  ℕ, zero, suc, ◌+◌, ◌-◌, ◌^◌, ◌≤◌, ◌<◌, ◌≡◌, ◌≢◌, ◌⊎◌, inl, inr, refl, arith, ◌==◌, ==_refl, ==_ne,
  Bool-cases, true, false, sym, if◌then◌else◌, ap,
}
use fence.Prelude.Bytes.{Space}
use fence.Backend.{Memory, with_cache, get_le, put_le, Word}
use fence.Backend.Fields.{put_le-outside, get_le-put_le_self}
use fence.Program.{Runs, Runs-bind, Runs-eq}
use fence.Layout.{PoolGeometry, record_offset, state_committed}
use fence.Recovery.{scan_committed, advance_loop, advance_committed_tail}

-- The state byte of a slot.
abbrev pub state_at : PoolGeometry → Space → ℕ → ℕ
state_at g c slot = c (record_offset g slot + 0)

-- The end of the run of COMMITTED slots from `t` on, among the next `n` slots.
unfoldable pub sweep : PoolGeometry → Space → ℕ → ℕ → ℕ
sweep g c zero t = t
sweep g c (suc n) t =
    let rest = sweep g c n (suc t) in if state_at g c t == state_committed then rest else t

-- Where `committed_tail` stands after a sweep.
abbrev pub swept : PoolGeometry → Space → ℕ
swept g c = sweep g c (g.capacity - get_le 8 c 32) (get_le 8 c 32)

abbrev pub advanced : PoolGeometry → Memory → Memory
advanced g m = with_cache m (
    if swept g m.cache == get_le 8 m.cache 32
    then m.cache
    else put_le 8 m.cache 32 (swept g m.cache))

==-eq : (a b : ℕ) → (a == b) ≡ true → a ≡ b
==-eq a b h = ground arith

module _ (g : PoolGeometry) (c : Space) where
  pub sweep-zero : (t : ℕ) → sweep g c zero t ≡ t
  unfolding sweep
  sweep-zero t = refl

  pub sweep-hit :
      (n t : ℕ)
      → (state_at g c t == state_committed) ≡ true
      → sweep g c (suc n) t ≡ sweep g c n (suc t)
  unfolding sweep
  sweep-hit n t e = rw e

  pub sweep-miss : (n t : ℕ) → (state_at g c t == state_committed) ≡ false → sweep g c (suc n) t ≡ t
  unfolding sweep
  sweep-miss n t e = rw e

  pub sweep-bounds : (n t : ℕ) → (t ≤ sweep g c n t) × (sweep g c n t ≤ t + n)
  unfolding sweep
  sweep-bounds zero t = omega arith
  sweep-bounds (suc n) t = ground (arith, sweep-bounds n (suc t))

  pub sweep-committed : (n t s : ℕ) → t ≤ s → s < sweep g c n t → state_at g c s ≡ state_committed
  unfolding sweep
  sweep-committed zero t s lo hi = absurd (omega arith)
  sweep-committed (suc n) t s lo hi = elim (Bool-cases (t == s)) [
    | inl e ↦ ground (arith, ap (state_at g c) (==-eq t s e))
    | inr ne ↦ ground (arith, sweep-committed n (suc t) s)
  ]

  -- The sweep stops only at the end or at a slot that is not COMMITTED.
  pub sweep-stops :
      (n t : ℕ) → sweep g c n t < t + n → state_at g c (sweep g c n t) ≢ state_committed
  unfolding sweep
  sweep-stops zero t h = absurd (omega arith)
  sweep-stops (suc n) t h = ground (arith, sweep-stops n (suc t))

module _ (g : PoolGeometry) (m : Memory) (cap_u32 : g.capacity < 2 ^ 32) where
  -- The states that the sweep loads are in bounds.
  abbrev pub StatesFit : Type 0
  StatesFit = (slot : ℕ) → slot < g.capacity → record_offset g slot + 0 < m.size

  scan_committed-Runs :
      StatesFit
      → (n t : ℕ) → n ≤ g.capacity - t
      → Runs (scan_committed g n t) m (sweep g m.cache n t) m
  unfolding scan_committed
  scan_committed-Runs fits zero t h = (sym (sweep-zero g m.cache t), refl)
  scan_committed-Runs fits (suc n) t h = rw (mod-eq_of_lt {n = t} {m = 2 ^ 32} (omega arith)) (
    fits t (omega arith),
    elim (Bool-cases (state_at g m.cache t == state_committed)) [
      | inl e ↦ rw e (
          Runs-eq _ m (sym (sweep-hit g m.cache n t e)) refl
            (scan_committed-Runs fits n (suc t) (omega arith)))
      | inr ne ↦ rw (ne, sweep-miss g m.cache n t ne) (refl, refl)
    ],
  )

  -- With no other host at work one round of the loop is enough.
  advance_loop-Runs :
      StatesFit
      → Word m.size 32
      → (fuel : ℕ) → Runs (advance_loop g (suc fuel)) m (swept g m.cache) (advanced g m)
  unfolding advance_loop
  advance_loop-Runs fits word fuel = (
    word,
    Runs-bind _ _ (scan_committed g (g.capacity - t) t) m (swept g m.cache) m
        (scan_committed-Runs fits (g.capacity - t) t (omega arith))
        (elim (Bool-cases (swept g m.cache == t)) [
          | inl same ↦ rw same (sym (==-eq _ _ same), refl)
          | inr moved ↦ rw (moved, ==_refl t) (word, (refl, refl))
        ]),
  )
    where
      t : ℕ
      t = get_le 8 m.cache 32

  pub advance-Runs :
      StatesFit
      → Word m.size 32
      → Runs (advance_committed_tail g) m (swept g m.cache) (advanced g m)
  unfolding advance_committed_tail
  advance-Runs fits word = advance_loop-Runs fits word g.capacity

-- The sweep writes nothing but the tail, and stores there what it found.
pub advanced-outside :
    (g : PoolGeometry) (m : Memory) (a : ℕ)
    → (a < 32) ⊎ (40 ≤ a)
    → (advanced g m).cache a ≡ m.cache a
advanced-outside g m a out = elim (Bool-cases (swept g m.cache == get_le 8 m.cache 32)) [
  | inl same ↦ rw same
  | inr moved ↦ rw moved (put_le-outside 8 m.cache 32 (swept g m.cache) a out)
]

pub tail-advanced :
    (g : PoolGeometry) (m : Memory)
    → get_le 8 m.cache 32 ≤ g.capacity
    → g.capacity < 2 ^ 32
    → get_le 8 (advanced g m).cache 32 ≡ swept g m.cache
tail-advanced g m le u32 = elim (Bool-cases (swept g m.cache == get_le 8 m.cache 32)) [
  | inl same ↦ rw same (sym (==-eq _ _ same))
  | inr moved ↦ rw moved (
      get_le-put_le_self 8 m.cache 32 (swept g m.cache) (
        omega
          (arith, sweep-bounds g m.cache (g.capacity - get_le 8 m.cache 32) (get_le 8 m.cache 32))))
]

-- The sweep passes a COMMITTED slot.
pub sweep-passes :
    (g : PoolGeometry) (c : Space) (n t : ℕ)
    → 0 < n
    → state_at g c t ≡ state_committed
    → suc t ≤ sweep g c n t
sweep-passes g c zero t pos st = absurd (omega arith)
sweep-passes g c (suc n) t pos st =
    omega (arith, sweep-hit g c n t (rw st), (sweep-bounds g c n (suc t)).0)

-- The sweep stays where the next slot is not COMMITTED.
pub sweep-stays :
    (g : PoolGeometry) (c : Space) (n t : ℕ)
    → (0 < n → state_at g c t ≢ state_committed)
    → sweep g c n t ≡ t
sweep-stays g c zero t stuck = sweep-zero g c t
sweep-stays g c (suc n) t stuck = sweep-miss g c n t (==_ne _ _ (stuck (omega arith)))

-- The state bytes decide the sweep.
pub sweep-Agree :
    (g : PoolGeometry) (c d : Space) (n t : ℕ)
    → ((s : ℕ) → t ≤ s → s < t + n → state_at g d s ≡ state_at g c s)
    → sweep g d n t ≡ sweep g c n t
unfolding sweep
sweep-Agree g c d zero t same = refl
sweep-Agree g c d (suc n) t same = rw (
  same t (omega arith) (omega arith),
  sweep-Agree g c d n (suc t) (λ s lo hi. same s (omega arith) (omega arith)),
)

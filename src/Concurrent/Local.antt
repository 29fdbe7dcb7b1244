-- ===== src/Concurrent/Local.antt =====
-- A part of a call that writes to its own record alone does among others what it does alone.
use mathlib.Core.Path.{subst}
use fence.Prelude.{
  ℕ, ◌+◌, ◌≤◌, ◌<◌, ◌≡◌, ◌≢◌, ◌⊎◌, refl, sym, ◌∙◌, arith, length, eq-cases, inl, inr,
}
use fence.Prelude.Bytes.{poke-congr, poke-outside, to_le, length-to_le}
use fence.Backend.{
  Memory, Op, Reply, exec, Asserts, put_le, read, write, load_u64, store_u64, fetch_add_u64,
  compare_exchange_u64, load_u8, store_u8, flush,
}
use fence.Program.{Prog, ret, panic, out_of_fuel, call, Runs}
use fence.Layout.{PoolGeometry, record_offset, state_committed}
use fence.Layout.Regions.{records-Apart}
use fence.Metrics.Counters.{IsMapped}
use fence.Recovery.Sweep.{state_at}
use fence.Recovery.Check.{Agree, get_le-Agree}
use fence.Concurrent.Rely.{IsGood, Guar, Safe, SameRecord, tail_at}

-- The stores that lie in `[lo, hi)`, and flushes.
abbrev pub StoresIn : ℕ → ℕ → Op → Type 0
StoresIn lo hi (read o n) = ⊥
StoresIn lo hi (write o bs) = (lo ≤ o) × (o + length bs ≤ hi)
StoresIn lo hi (load_u64 o) = ⊥
StoresIn lo hi (store_u64 o v) = (lo ≤ o) × (o + 8 ≤ hi)
StoresIn lo hi (fetch_add_u64 o d) = ⊥
StoresIn lo hi (compare_exchange_u64 o e d) = ⊥
StoresIn lo hi (load_u8 o) = ⊥
StoresIn lo hi (store_u8 o v) = (lo ≤ o) × (o + 1 ≤ hi)
StoresIn lo hi (flush o n) = Unit

abbrev pub Local : {A : Type 0} → ℕ → ℕ → Prog A → Type 0
Local lo hi (ret a) = Unit
Local lo hi panic = ⊥
Local lo hi out_of_fuel = ⊥
Local lo hi (call o k) = StoresIn lo hi o × ((r : Reply o) → Local lo hi (k r))

-- A store in the range leaves the rest, and makes the same of the same bytes, at any time.
pub StoresIn-outside :
    (lo hi : ℕ) (o : Op) (m : Memory)
    → StoresIn lo hi o
    → ((exec o m).1.size ≡ m.size)
      × ((a : ℕ) → (a < lo) ⊎ (hi ≤ a) → (exec o m).1.cache a ≡ m.cache a)
unfolding put_le
StoresIn-outside lo hi (read o n) m k = absurd k
StoresIn-outside lo hi (write o bs) m k =
    (refl, λ a out. poke-outside m.cache o bs a (omega (arith, out, k)))
StoresIn-outside lo hi (load_u64 o) m k = absurd k
StoresIn-outside lo hi (store_u64 o v) m k =
    (refl, λ a out. poke-outside m.cache o (to_le 8 v) a (omega (arith, out, k, length-to_le 8 v)))
StoresIn-outside lo hi (fetch_add_u64 o d) m k = absurd k
StoresIn-outside lo hi (compare_exchange_u64 o e d) m k = absurd k
StoresIn-outside lo hi (load_u8 o) m k = absurd k
StoresIn-outside lo hi (store_u8 o v) m k =
    (refl, λ a out. poke-outside m.cache o (to_le 1 v) a (omega (arith, out, k, length-to_le 1 v)))
StoresIn-outside lo hi (flush o n) m k = (refl, λ a out. refl)

pub StoresIn-same :
    (lo hi : ℕ) (o : Op) (m n : Memory) (from to : ℕ)
    → StoresIn lo hi o
    → Agree m.cache n.cache from to
    → ((exec o n).0 ≡ (exec o m).0) × Agree (exec o m).1.cache (exec o n).1.cache from to
unfolding put_le
StoresIn-same lo hi (read o l) m n from to k same = absurd k
StoresIn-same lo hi (write o bs) m n from to k same =
    (refl, λ a p q. poke-congr n.cache m.cache o bs a (same a p q))
StoresIn-same lo hi (load_u64 o) m n from to k same = absurd k
StoresIn-same lo hi (store_u64 o v) m n from to k same =
    (refl, λ a p q. poke-congr n.cache m.cache o (to_le 8 v) a (same a p q))
StoresIn-same lo hi (fetch_add_u64 o d) m n from to k same = absurd k
StoresIn-same lo hi (compare_exchange_u64 o e d) m n from to k same = absurd k
StoresIn-same lo hi (load_u8 o) m n from to k same = absurd k
StoresIn-same lo hi (store_u8 o v) m n from to k same =
    (refl, λ a p q. poke-congr n.cache m.cache o (to_le 1 v) a (same a p q))
StoresIn-same lo hi (flush o l) m n from to k same = (refl, same)

module _ (g : PoolGeometry) (base : ℕ) where
  sized : (m : Memory) → IsGood g base m → g.record_size ≡ 64 + g.payload_size
  sized m good = good.mapped.geometry.record_lem

  -- A change of nothing but the record of slot `s`, which is not COMMITTED before or is so after.
  pub record-Guar :
      (s : ℕ) (m n : Memory)
      → s < g.capacity
      → IsGood g base m
      → n.size ≡ m.size
      → ((a : ℕ)
          → (a < record_offset g s) ⊎ (record_offset g s + g.record_size ≤ a)
          → n.cache a ≡ m.cache a)
      → (state_at g m.cache s ≡ state_committed → state_at g n.cache s ≡ state_committed)
      → Guar g base s m n
  record-Guar s m n small good size outside state = record {
    moves = record {
      size = size;
      good = record {
        mapped = subst (λ k. IsMapped g k) (sym size) good.mapped;
        tail_le = omega (arith, tail, good.tail_le);
        base_le = omega (arith, tail, good.base_le);
        dense = λ t lo hi.
            keeps t (omega (arith, tail, good.tail_le)) (good.dense t lo (omega (arith, tail)));
      };
      tail = omega (arith, tail);
      keeps = keeps;
    };
    rest = rest;
    reserve =
        get_le-Agree 8 m.cache n.cache 40 40 48 (λ a lo hi. outside a (omega arith)) (omega arith)
          (omega arith);
  }
    where
      tail : tail_at g base n ≡ tail_at g base m
      tail =
          get_le-Agree 8 m.cache n.cache 32 32 40 (λ a lo hi. outside a (omega arith)) (omega arith)
            (omega arith)

      rest : (t : ℕ) → t < g.capacity → t ≢ s → SameRecord g base t m n
      rest t lt ne a lo hi = outside a (omega (arith, lo, hi, records-Apart g t s ne))

      keeps :
          (t : ℕ)
          → t < g.capacity
          → state_at g m.cache t ≡ state_committed
          → state_at g n.cache t ≡ state_committed
      keeps t lt st = elim (eq-cases t s) [
        | inl e ↦
            subst (λ u. state_at g n.cache u ≡ state_committed) (sym e)
              (state (subst (λ u. state_at g m.cache u ≡ state_committed) e st))
        | inr ne ↦ rest t lt ne _ (omega arith) (omega (arith, sized m good)) ∙ st
      ]

  module _ (s : ℕ) (small : s < g.capacity) where
    abbrev r : ℕ
    r = record_offset g s

    -- Among others, `p` ends with the bytes in the record that it leaves when it runs alone.
    pub Local-Safe :
        {A : Type 0} (p : Prog A) (m n : Memory) (a : A) (m' : Memory)
        → Local (record_offset g s + 1) (record_offset g s + g.record_size) p
        → Runs p m a m'
        → n.size ≡ m.size
        → SameRecord g base s m n
        → IsGood g base n
        → Safe g base s (λ x k. (x ≡ a) × SameRecord g base s m' k) p n
    Local-Safe (ret x) m n a m' loc run size same good = λ k q. (
      run.0,
      subst (λ (l : Memory). SameRecord g base s l k) run.1
          (λ b lo hi. q.mine small b lo hi ∙ same b lo hi),
    )
    Local-Safe panic m n a m' loc run size same good = run
    Local-Safe out_of_fuel m n a m' loc run size same good = run
    Local-Safe (call o f) m n a m' loc run size same good = λ k q.
        let out = StoresIn-outside _ _ o k loc.0 in
        let after =
          StoresIn-same _ _ o m k r (r + g.record_size) loc.0
            (λ b lo hi. q.mine small b lo hi ∙ same b lo hi) in
        let done : Guar g base s k (exec o k).1 =
          record-Guar s k (exec o k).1 small q.moves.good out.0
            (λ b away. out.1 b (omega (arith, away)))
            (λ st. out.1 (r + 0) (inl (omega arith)) ∙ st) in
        (
          subst (λ z. Asserts o z) (sym (q.moves.size ∙ size)) run.0,
          done,
          Local-Safe (f (exec o k).0) (exec o m).1 (exec o k).1 a m' (loc.1 (exec o k).0)
              (subst (λ z. Runs (f z) (exec o m).1 a m') (sym after.0) run.1)
              (out.0 ∙ q.moves.size ∙ size ∙ sym (StoresIn-outside _ _ o m loc.0).0) after.1
              done.moves.good,
        )

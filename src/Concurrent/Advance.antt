-- ===== src/Concurrent/Advance.antt =====
-- crates/fence-runtime/src/recovery.rs: `advance_committed_tail` while others advance the tail too.
use native.Mathlib.Nat.{mod-eq_of_lt}
use mathlib.Core.Path.{subst}
use fence.Prelude.{
  ℕ, zero, suc, ◌+◌, ◌-◌, ◌^◌, ◌≤◌, ◌<◌, ◌≡◌, ◌≢◌, refl, sym, ◌∙◌, arith, eq-cases, le-cases,
  Bool-cases, inl, inr, ◌==◌, false,
}
use fence.Backend.{Memory, get_le, put_le, with_cache}
use fence.Backend.Fields.{put_le-outside, get_le-put_le_self, get_le-put_le-Apart}
use fence.Layout.{PoolGeometry, state_committed}
use fence.Recovery.{scan_committed, advance_loop, advance_committed_tail}
use fence.Recovery.Places.{header-Word, states-fit}
use fence.Recovery.Sweep.{state_at}
use fence.Concurrent.Rely.{
  IsGood, Rely, Guar, Safe, Safe-bind, Safe-mono, Rely-trans, Guar-refl, SameRecord, tail_at,
}

module _ (g : PoolGeometry) (base : ℕ) (s : ℕ) where
  -- The own record is kept.
  abbrev pub Mine : Memory → Memory → Type 0
  Mine m n = s < g.capacity → SameRecord g base s m n

  -- The scan from `t₀` ends at `x`: what it passed is COMMITTED.
  pub record Scanned (t₀ : ℕ) (m : Memory) (x : ℕ) (n : Memory) : Type 0 where
    pub rely : Rely g base s m n
    pub from : t₀ ≤ x
    pub bound : x ≤ g.capacity
    pub passed : (t : ℕ) → t₀ ≤ t → t < x → state_at g n.cache t ≡ state_committed

  Scanned-Rely :
      (t₀ x : ℕ) (m n k : Memory) → Rely g base s m n → Scanned t₀ n x k → Scanned t₀ m x k
  Scanned-Rely t₀ x m n k r a = record {
    rely = Rely-trans g base s m n k r a.rely;
    from = a.from;
    bound = a.bound;
    passed = a.passed;
  }

  scan-Safe :
      (n t₀ x : ℕ) (m : Memory)
      → g.capacity < 2 ^ 32
      → t₀ ≤ x
      → x + n ≤ g.capacity
      → ((t : ℕ) → t₀ ≤ t → t < x → state_at g m.cache t ≡ state_committed)
      → Safe g base s (Scanned t₀ m) (scan_committed g n x) m
  unfolding scan_committed
  scan-Safe zero t₀ x m u32 lo hi seen = λ k r. record {
    rely = r;
    from = lo;
    bound = omega arith;
    passed = λ t a b. r.moves.keeps t (omega arith) (seen t a b);
  }
  scan-Safe (suc n) t₀ x m u32 lo hi seen =
      rw (mod-eq_of_lt {n = x} {m = 2 ^ 32} (omega arith)) (λ k r. (
        states-fit g k.size r.moves.good.mapped x (omega arith),
        Guar-refl g base s k r.moves.good,
        elim (Bool-cases (state_at g k.cache x == state_committed)) [
          | inl st ↦ rw st (
              Safe-mono g base s _ (Scanned t₀ m) (λ y l a. Scanned-Rely t₀ y m k l r a)
                (scan_committed g n (suc x)) k
                (scan-Safe n t₀ (suc x) k u32 (omega arith) (omega arith) (λ t a b.
                  elim (eq-cases t x) [
                    | inl e ↦
                        subst (λ u. state_at g k.cache u ≡ state_committed) (sym e)
                          (ground (arith, st))
                    | inr ne ↦ r.moves.keeps t (omega arith) (seen t a (omega arith))
                  ])))
          | inr other ↦ rw other (λ l q. Scanned-Rely t₀ x m k l r (record {
            rely = q;
            from = lo;
            bound = omega arith;
            passed =
                λ t a b. q.moves.keeps t (omega arith) (r.moves.keeps t (omega arith) (seen t a b));
          }))
        ],
      ))

  -- An exchange that succeeds raises the tail over COMMITTED slots.
  swap-Guar :
      (m : Memory) (x : ℕ)
      → IsGood g base m
      → tail_at g base m ≤ x
      → x ≤ g.capacity
      → ((t : ℕ) → tail_at g base m ≤ t → t < x → state_at g m.cache t ≡ state_committed)
      → Guar g base s m (with_cache m (put_le 8 m.cache 32 x))
  swap-Guar m x good up le seen = record {
    moves = record {
      size = refl;
      good = record {
        mapped = good.mapped;
        tail_le = omega (arith, tail);
        base_le = omega (arith, tail, good.base_le);
        dense = λ t lo hi. above _ (omega arith) ∙ passed t lo (omega (arith, tail));
      };
      tail = omega (arith, tail);
      keeps = λ t lt st. above _ (omega arith) ∙ st;
    };
    rest = λ t lt ne a lo hi. above a (omega arith);
    reserve = get_le-put_le-Apart 8 8 m.cache 32 x 40 (omega arith);
  }
    where
      above : (a : ℕ) → 40 ≤ a → put_le 8 m.cache 32 x a ≡ m.cache a
      above a lo = put_le-outside 8 m.cache 32 x a (omega arith)

      tail : get_le 8 (put_le 8 m.cache 32 x) 32 ≡ x
      tail = get_le-put_le_self 8 m.cache 32 x (omega (arith, good.mapped.geometry.capacity_u32))

      passed : (t : ℕ) → base ≤ t → t < x → state_at g m.cache t ≡ state_committed
      passed t lo hi = elim (le-cases (tail_at g base m) t) [
        | inl new ↦ seen t new hi
        | inr old ↦ good.dense t lo old
      ]

  -- On fuel for every time that another can forestall the exchange, the loop ends. It keeps the own
  -- record.
  loop-Safe :
      (fuel : ℕ) (m : Memory)
      → g.capacity - tail_at g base m < fuel
      → Safe g base s (λ x n. Mine m n) (advance_loop g fuel) m
  unfolding advance_loop
  loop-Safe zero m enough = absurd (omega arith)
  loop-Safe (suc fuel) m enough = λ k r.
      let t : ℕ = tail_at g base k in
      (
        header-Word g k.size 32 r.moves.good.mapped (omega arith) refl,
        Guar-refl g base s k r.moves.good,
        Safe-bind g base s (λ x n. Mine m n) _ (scan_committed g (g.capacity - t) t) k r.moves.good
            (Safe-mono g base s (Scanned t k) _
              (λ x l a gd. elim (Bool-cases (x == t)) [
                | inl none ↦ rw none (λ z q lt b lo hi.
                    q.mine lt b lo hi ∙ a.rely.mine lt b lo hi ∙ r.mine lt b lo hi)
                | inr some_new ↦ rw some_new (λ z q.
                    let word = header-Word g z.size 32 q.moves.good.mapped (omega arith) refl in
                    elim (Bool-cases (tail_at g base z == t)) [
                      | inl same ↦
                          let e : tail_at g base z ≡ t = ground (arith, same) in
                          let done =
                            swap-Guar z x q.moves.good (omega (arith, e, a.from)) a.bound
                              (λ u lo hi.
                                q.moves.keeps u (omega (arith, a.bound))
                                  (a.passed u (omega (arith, e)) hi)) in
                          rw same (
                            word,
                            done,
                            λ y w lt b lo hi.
                                w.mine lt b lo hi
                                ∙ put_le-outside 8 z.cache 32 x b (omega arith)
                                ∙ q.mine lt b lo hi
                                ∙ a.rely.mine lt b lo hi
                                ∙ r.mine lt b lo hi,
                          )
                      | inr moved ↦ rw moved (
                        word,
                        Guar-refl g base s z q.moves.good,
                        Safe-mono g base s _ _
                            (λ y w b lt c lo hi.
                              b lt c lo hi
                              ∙ q.mine lt c lo hi
                              ∙ a.rely.mine lt c lo hi
                              ∙ r.mine lt c lo hi)
                            (advance_loop g fuel) z
                            (loop-Safe fuel z (
                              omega (
                                arith,
                                enough,
                                r.moves.tail,
                                a.rely.moves.tail,
                                q.moves.tail,
                                q.moves.good.tail_le,
                                ne moved,
                              ))),
                      )
                    ])
              ])
              (scan_committed g (g.capacity - t) t) k
              (scan-Safe (g.capacity - t) t t k r.moves.good.mapped.geometry.capacity_u32
                (omega arith) (omega (arith, r.moves.good.tail_le))
                (λ u lo hi. absurd (omega arith)))),
      )
    where
      ne : {a b : ℕ} → (a == b) ≡ false → a ≢ b
      ne e = λ same. absurd (ground (arith, e, same))

  pub advance-Safe : (m : Memory) → Safe g base s (λ x n. Mine m n) (advance_committed_tail g) m
  unfolding advance_committed_tail
  advance-Safe m = loop-Safe (suc g.capacity) m (omega arith)

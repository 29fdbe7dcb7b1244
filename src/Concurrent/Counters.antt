-- ===== src/Concurrent/Counters.antt =====
-- crates/fence-runtime/src/metrics.rs: a counter that is raised while others work.
use fence.Prelude.{ℕ, ◌+◌, ◌%◌, ◌≤◌, ◌<◌, ◌≡◌, refl, ◌∙◌, arith}
use fence.Backend.{Memory, get_le}
use fence.Layout.{PoolGeometry}
use fence.Layout.Regions.{record_below_metrics}
use fence.Metrics.{bump}
use fence.Metrics.Counters.{counted, counted-below, counter-Word}
use fence.Recovery.Check.{get_le-Agree}
use fence.Concurrent.Rely.{IsGood, Guar, Safe, SameRecord}
use fence.Concurrent.Advance.{Mine}

module _ (g : PoolGeometry) (base : ℕ) where
  -- A counter may be raised at any time.
  counted-Guar :
      (s host field n : ℕ) (m : Memory)
      → IsGood g base m
      → Guar g base s m (counted g host field n m)
  counted-Guar s host field n m good = record {
    moves = record {
      size = refl;
      good = record {
        mapped = good.mapped;
        tail_le = omega (arith, word 32 (omega arith), good.tail_le);
        base_le = omega (arith, word 32 (omega arith), good.base_le);
        dense = λ t lo hi.
            rest t (omega (arith, word 32 (omega arith), good.tail_le)) _ (omega arith)
              (omega (arith, sized))
            ∙ good.dense t lo (omega (arith, word 32 (omega arith)));
      };
      tail = omega (arith, word 32 (omega arith));
      keeps = λ t lt st. rest t lt _ (omega arith) (omega (arith, sized)) ∙ st;
    };
    rest = λ t lt ne. rest t lt;
    reserve = word 40 (omega arith);
  }
    where
      sized : g.record_size ≡ 64 + g.payload_size
      sized = good.mapped.geometry.record_lem

      rest : (t : ℕ) → t < g.capacity → SameRecord g base t m (counted g host field n m)
      rest t lt a lo hi =
          counted-below g host m field n a (omega (arith, record_below_metrics g t host lt))

      word : (o : ℕ) → o + 8 ≤ 64 → get_le 8 (counted g host field n m).cache o ≡ get_le 8 m.cache o
      word o le =
          get_le-Agree 8 m.cache (counted g host field n m).cache o o (o + 8)
            (λ a lo hi. counted-below g host m field n a (omega arith)) (omega arith) (omega arith)

  pub bump-Safe :
      (s host field n : ℕ) (m : Memory)
      → host < g.max_hosts
      → field ≤ 56
      → field % 8 ≡ 0
      → Safe g base s (λ x k. Mine g base s m k) (bump g host field n) m
  bump-Safe s host field n m lt le al = λ k r. (
    counter-Word g host k.size field r.moves.good.mapped lt le al,
    counted-Guar s host field n k r.moves.good,
    λ l q small a lo hi.
        q.mine small a lo hi
        ∙ counted-below g host k field n a (omega (arith, record_below_metrics g s host small))
        ∙ r.mine small a lo hi,
  )

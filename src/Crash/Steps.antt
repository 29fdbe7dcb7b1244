-- ===== src/Crash/Steps.antt =====
-- How the steps of an append lead from stage to stage.
use fence.Prelude.{ℕ, ◌+◌, ◌≤◌, ◌<◌, ◌≡◌, ◌≢◌, refl, ◌∙◌, List, arith, true}
use fence.Prelude.Bytes.{Space, poke, poke-congr, to_le, poke-outside, poke_byte, length-to_le}
use fence.Backend.{Memory, with_cache, flushed, flush_range}
use fence.Backend.Flush.{flush_range_lem, covered}
use fence.Recovery.Check.{get_le-Agree}
use fence.Crash.Lines.{LineWise-word, flush-LineWise}
use fence.Crash.Append.{Writing, Written, Marked, Durable, still_open, media_holds-lines}

module _ (r size slot : ℕ) (early : Type 0) (above : 64 ≤ r) (room : 64 ≤ size) where
  covered-inside : (n a : ℕ) → r ≤ a → a < r + n → covered r n a ≡ true
  covered-inside n a lo hi = ground arith

  pub Writing-poke :
      (x : Space) (o : ℕ) (bs : List ℕ) (m : Memory)
      → 64 ≤ o
      → poke x o bs (r + 0) ≢ 2
      → Writing r size slot early above room x m
      → Writing r size slot early above room (poke x o bs) (with_cache m (poke m.cache o bs))
  Writing-poke x o bs m far ne w = record {
    holds = λ a lo hi. poke-congr m.cache x o bs a (w.holds a lo hi);
    open_state = ne;
    media_state = w.media_state;
    tail = omega (
      arith,
      get_le-Agree 8 m.cache (poke m.cache o bs) 32 32 40
          (λ a lo hi. poke-outside m.cache o bs a (omega arith)) (omega arith) (omega arith),
      w.tail,
    );
    media_tail = w.media_tail;
  }

  pub Writing-flush :
      (x : Space) (m : Memory)
      → Writing r size slot early above room x m
      → Written r size slot early above room x (flushed m r size)
  Writing-flush x m w = record {
    holds = λ a lo hi. w.holds a (omega arith) hi;
    media_holds = λ a lo hi.
        flush_range_lem m.cache m.media r size a
        ∙ rw (covered-inside size a (omega arith) hi) (w.holds a (omega arith) hi);
    unmarked = still_open r size slot early above room m w;
    tail = w.tail;
    media_tail = omega (
      arith,
      LineWise-word m.cache m.media (flush_range m.cache m.media r size) 32 refl
          (flush-LineWise m.cache m.media r size),
      w.tail,
      w.media_tail,
    );
  }

  pub Written-commit :
      (x : Space) (m : Memory)
      → Written r size slot early above room x m
      → Marked r size slot early above room x (with_cache m (poke m.cache (r + 0) (to_le 1 2)))
  Written-commit x m w = record {
    holds = λ a lo hi.
        poke-outside m.cache (r + 0) (to_le 1 2) a (omega (arith, length-to_le 1 2))
        ∙ w.holds a lo hi;
    media_holds = w.media_holds;
    passed = λ lt. absurd (
        omega (
          arith,
          get_le-Agree 8 m.cache (poke m.cache (r + 0) (to_le 1 2)) 32 32 40
              (λ a lo hi.
                poke-outside m.cache (r + 0) (to_le 1 2) a (omega (arith, length-to_le 1 2)))
              (omega arith) (omega arith),
          w.tail,
          lt,
        ));
    media_passed = λ lt. absurd (omega (arith, w.media_tail, lt));
    state = poke_byte m.cache (r + 0) 2 (omega arith);
  }

  pub Marked-flush :
      (x : Space) (m : Memory)
      → Marked r size slot early above room x m
      → Durable r size slot early above room x (flushed m r 64)
  Marked-flush x m d = record {
    holds = d.holds;
    media_holds =
        media_holds-lines r size slot early above room x m (flushed m r 64)
          (flush-LineWise m.cache m.media r 64) d.holds d.media_holds;
    state = d.state;
    media_state =
        flush_range_lem m.cache m.media r 64 (r + 0)
        ∙ rw (covered-inside 64 (r + 0) (omega arith) (omega arith)) d.state;
  }

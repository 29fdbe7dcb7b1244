-- ===== src/Crash/Append.antt =====
-- The stages of an append, by what the cache and the media hold of the record, what a crash may find, and
-- that others keep a stage.
use fence.Prelude.{ℕ, ◌+◌, ◌≤◌, ◌<◌, ◌≡◌, ◌≢◌, ◌⊎◌, inl, inr, refl, sym, ◌∙◌, List, arith}
use fence.Prelude.Bytes.{Space}
use fence.Backend.{Op, Memory, exec, get_le}
use fence.Layout.{record_offset}
use fence.Checksum.{Hasher, compute}
use fence.Recovery.Check.{Agree}
use fence.Engine.{FenceRuntime}
use fence.Engine.Stored.{Stores}
use fence.Crash.{Spares}
use fence.Crash.Lines.{LineWise, LineWise-byte, LineWise-word, media-LineWise, cache-Spares}
use fence.Crash.Rules.{Quiet}

-- What a crash finds in a slot: if COMMITTED, then a complete record; and the tail has passed the slot
-- only if the record is complete, and, unless hosts may pass it `early`, COMMITTED.
pub record CrashSafe (h : Hasher) (rt : FenceRuntime) (slot term : ℕ) (payload : List ℕ)
    (early : Type 0) (m : Memory) : Type 0 where
  pub complete :
      m.media (record_offset rt.geometry slot + 0) ≡ 2
      → Stores m.media
          (record_offset rt.geometry slot)
          term
          (slot + 1)
          rt.host_id
          (compute h term (slot + 1) payload)
          payload
  pub ordered :
      slot < get_le 8 m.media 32
      → Stores m.media
          (record_offset rt.geometry slot)
          term
          (slot + 1)
          rt.host_id
          (compute h term (slot + 1) payload)
          payload
        × (early ⊎ (m.media (record_offset rt.geometry slot + 0) ≡ 2))

module _ (r size slot : ℕ) (early : Type 0) (above : 64 ≤ r) (room : 64 ≤ size) where
  -- The record is being written: the cache holds `x` there, and the media do not say COMMITTED.
  pub record Writing (x : Space) (m : Memory) : Type 0 where
    pub holds : Agree x m.cache r (r + size)
    pub open_state : x (r + 0) ≢ 2
    pub media_state : m.media (r + 0) ≢ 2
    pub tail : get_le 8 m.cache 32 ≤ slot
    pub media_tail : get_le 8 m.media 32 ≤ slot

  -- The record stands in the cache and on the media, behind its state.
  pub record Written (x : Space) (m : Memory) : Type 0 where
    pub holds : Agree x m.cache (r + 1) (r + size)
    pub media_holds : Agree x m.media (r + 1) (r + size)
    pub unmarked : m.cache (r + 0) ≢ 2
    pub tail : get_le 8 m.cache 32 ≤ slot
    pub media_tail : get_le 8 m.media 32 ≤ slot

  -- The slot is COMMITTED in the cache: others may pass it.
  pub record Marked (x : Space) (m : Memory) : Type 0 where
    pub holds : Agree x m.cache (r + 1) (r + size)
    pub media_holds : Agree x m.media (r + 1) (r + size)
    pub state : m.cache (r + 0) ≡ 2
    pub passed : slot < get_le 8 m.cache 32 → early ⊎ (m.media (r + 0) ≡ 2)
    pub media_passed : slot < get_le 8 m.media 32 → early ⊎ (m.media (r + 0) ≡ 2)

  pub record Durable (x : Space) (m : Memory) : Type 0 where
    pub holds : Agree x m.cache (r + 1) (r + size)
    pub media_holds : Agree x m.media (r + 1) (r + size)
    pub state : m.cache (r + 0) ≡ 2
    pub media_state : m.media (r + 0) ≡ 2

  tail-Quiet :
      (m n : Memory)
      → Quiet r (r + size) slot early m n
      → m.cache (r + 0) ≢ 2
      → get_le 8 m.cache 32 ≤ slot
      → get_le 8 n.cache 32 ≤ slot
  tail-Quiet m n q open_slot le = elim q.tail [
    | inl same ↦ omega (arith, same)
    | inr moved ↦ elim moved [
      | inl below ↦ below
      | inr early_pass ↦ absurd (open_slot early_pass.0)
    ]
  ]

  media_tail-Quiet :
      (m n : Memory)
      → Quiet r (r + size) slot early m n
      → get_le 8 m.cache 32 ≤ slot
      → get_le 8 m.media 32 ≤ slot
      → get_le 8 n.media 32 ≤ slot
  media_tail-Quiet m n q c d = omega (arith, LineWise-word m.cache m.media n.media 32 refl q.lines)

  pub still_open : {x : Space} (m : Memory) → Writing x m → m.cache (r + 0) ≢ 2
  still_open m w e = w.open_state (sym (w.holds (r + 0) (omega arith) (omega arith)) ∙ e)

  pub Writing-Quiet :
      (x : Space) (m n : Memory) → Quiet r (r + size) slot early m n → Writing x m → Writing x n
  Writing-Quiet x m n q w = record {
    holds = λ a lo hi. q.range a lo hi ∙ w.holds a lo hi;
    open_state = w.open_state;
    media_state =
        let same : m.cache (r + 0) ≡ x (r + 0) = w.holds (r + 0) (omega arith) (omega arith) in
        omega (
          arith,
          LineWise-byte m.cache m.media n.media (r + 0) q.lines,
          w.open_state,
          w.media_state,
        );
    tail = tail-Quiet m n q (still_open m w) w.tail;
    media_tail = media_tail-Quiet m n q w.tail w.media_tail;
  }

  pub media_holds-lines :
      (x : Space) (m n : Memory)
      → LineWise m.cache m.media n.media
      → Agree x m.cache (r + 1) (r + size)
      → Agree x m.media (r + 1) (r + size)
      → Agree x n.media (r + 1) (r + size)
  media_holds-lines x m n w c d a lo hi =
      omega (arith, LineWise-byte m.cache m.media n.media a w, c a lo hi, d a lo hi)

  pub Written-Quiet :
      (x : Space) (m n : Memory) → Quiet r (r + size) slot early m n → Written x m → Written x n
  Written-Quiet x m n q w = record {
    holds = λ a lo hi. q.range a (omega arith) hi ∙ w.holds a lo hi;
    media_holds = media_holds-lines x m n q.lines w.holds w.media_holds;
    unmarked = λ e. w.unmarked (sym (q.range (r + 0) (omega arith) (omega arith)) ∙ e);
    tail = tail-Quiet m n q w.unmarked w.tail;
    media_tail = media_tail-Quiet m n q w.tail w.media_tail;
  }

  -- A state that stands on the media stays there, since the cache holds the same.
  settle :
      (m n : Memory)
      → LineWise m.cache m.media n.media
      → m.cache (r + 0) ≡ 2
      → early ⊎ (m.media (r + 0) ≡ 2)
      → early ⊎ (n.media (r + 0) ≡ 2)
  settle m n w st (inl e) = inl e
  settle m n w st (inr e) =
      inr (omega (arith, LineWise-byte m.cache m.media n.media (r + 0) w, st, e))

  Marked-passed :
      (x : Space) (m n : Memory)
      → Quiet r (r + size) slot early m n
      → Marked x m
      → slot < get_le 8 n.cache 32
      → early ⊎ (n.media (r + 0) ≡ 2)
  Marked-passed x m n q w lt = elim q.tail [
    | inl same ↦ settle m n q.lines w.state (w.passed (omega (arith, same, lt)))
    | inr moved ↦ elim moved [
      | inl below ↦ absurd (omega (arith, below, lt))
      | inr passes ↦ settle m n q.lines w.state passes.1
    ]
  ]

  Marked-media_passed :
      (x : Space) (m n : Memory)
      → LineWise m.cache m.media n.media
      → Marked x m
      → slot < get_le 8 n.media 32
      → early ⊎ (n.media (r + 0) ≡ 2)
  Marked-media_passed x m n lines w lt =
      elim (LineWise-word m.cache m.media n.media 32 refl lines) [
        | inl old ↦ settle m n lines w.state (w.media_passed (omega (arith, old, lt)))
        | inr new ↦ settle m n lines w.state (w.passed (omega (arith, new, lt)))
      ]

  pub Marked-Quiet :
      (x : Space) (m n : Memory) → Quiet r (r + size) slot early m n → Marked x m → Marked x n
  Marked-Quiet x m n q w = record {
    holds = λ a lo hi. q.range a (omega arith) hi ∙ w.holds a lo hi;
    media_holds = media_holds-lines x m n q.lines w.holds w.media_holds;
    state = q.range (r + 0) (omega arith) (omega arith) ∙ w.state;
    passed = Marked-passed x m n q w;
    media_passed = Marked-media_passed x m n q.lines w;
  }

  -- Later operations of this host may write the tail, and spare the record.
  pub Durable-lines :
      (x : Space) (m n : Memory)
      → ((a : ℕ) → r ≤ a → a < r + size → n.cache a ≡ m.cache a)
      → LineWise m.cache m.media n.media
      → Durable x m
      → Durable x n
  Durable-lines x m n same w d = record {
    holds = λ a lo hi. same a (omega arith) hi ∙ d.holds a lo hi;
    media_holds = media_holds-lines x m n w d.holds d.media_holds;
    state = same (r + 0) (omega arith) (omega arith) ∙ d.state;
    media_state =
        omega (arith, LineWise-byte m.cache m.media n.media (r + 0) w, d.state, d.media_state);
  }

  pub Durable-exec :
      (x : Space) (o : Op) (m : Memory)
      → Spares r (r + size) o
      → Durable x m
      → Durable x (exec o m).1
  Durable-exec x o m s d =
      Durable-lines x m (exec o m).1 (λ a lo hi. cache-Spares r (r + size) o m a s lo hi)
        (media-LineWise o m) d

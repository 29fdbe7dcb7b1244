-- ===== src/Engine/Log/Refine.antt =====
-- The runtime's operations against the abstract log.
use mathlib.Core.Path.{subst}
use fence.Prelude.{
  ℕ, zero, suc, ◌+◌, ◌-◌, ◌^◌, ◌≤◌, ◌<◌, ◌≡◌, ◌≢◌, refl, sym, ◌∙◌, ap, arith, List, [], ◌∷◌, ◌++◌,
  some, length, length-append, get_elem?, ◌⊎◌, ltb, ◌==◌, ◌||◌, if◌then◌else◌, Bool-cases, le-cases,
  inl, inr, ltb→false, lt→ltb, leb→false, le→leb, ==_ne,
}
use fence.Backend.{Memory, get_le}
use fence.Program.{Ensures, Ensures-mono, Runs-Ensures}
use fence.FenceError.{Result, ok, err, pool_full}
use fence.Layout.{record_offset, metrics_offset, state_committed}
use fence.Checksum.{Hasher, compute}
use fence.Metrics.Counters.{counted, counted-below}
use fence.Recovery.Check.{get_le-Agree, intact}
use fence.Recovery.Sweep.{state_at}
use fence.Engine.{FenceRuntime, append, read_index}
use fence.Engine.Stored.{Stores, Stores-Agree, intact-Stores, bytes-Stores}
use fence.Engine.Append.{append-too_large, refused, append-refused}
use fence.Engine.Full.{reserve_kept, kept}
use fence.Engine.Protocol.{Appended, append_lem}
use fence.Engine.Read.{read_result, read_memory, read_result-intact, read_index-Runs}
use fence.Engine.Log.{Represents, Entry, log_append, log_read, record_of}
use fence.Engine.Log.Keep.{SameLog, Represents-SameLog, get_elem?-bound, get_elem?-some}

pub get_elem?-snoc :
    {A : Type 0} (xs : List A) (x : A) (i : ℕ)
    → get_elem? (xs ++ (x ∷ [])) i ≡ (if i == length xs then some x else get_elem? xs i)
get_elem?-snoc [] x zero = refl
get_elem?-snoc [] x (suc i) = rw (==_ne (suc i) 0 (omega arith)) refl
get_elem?-snoc (y ∷ ys) x zero = rw (==_ne 0 (suc (length ys)) (omega arith)) refl
get_elem?-snoc (y ∷ ys) x (suc i) = get_elem?-snoc ys x i ∙ ground arith

module _ (h : Hasher) (rt : FenceRuntime) (m : Memory) (log : List Entry)
    (rep : Represents h rt m log) where
  -- A counter of this host may be raised.
  pub counted-SameLog : (field n : ℕ) → SameLog rt m (counted rt.geometry rt.host_id field n m)
  counted-SameLog field n = record {
    size = refl;
    tail =
        get_le-Agree 8 m.cache (counted rt.geometry rt.host_id field n m).cache 32 32 40
          (λ a lo hi. counted-below rt.geometry rt.host_id m field n a (omega arith)) (omega arith)
          (omega arith);
    reserve =
        get_le-Agree 8 m.cache (counted rt.geometry rt.host_id field n m).cache 40 40 48
          (λ a lo hi. counted-below rt.geometry rt.host_id m field n a (omega arith)) (omega arith)
          (omega arith);
    records = λ a lo hi. counted-below rt.geometry rt.host_id m field n a (omega arith);
  }

  -- Reading what the log holds.
  read-entry :
      (s : ℕ) (e : Entry)
      → get_elem? log s ≡ some e
      → read_result h rt m (s + 1) ≡ ok (some (record_of (s + 1) e))
  read-entry s e at =
      let k = rep.entries s e at in
      read_result-intact h rt m s (omega (arith, get_elem?-bound log s e at, rep.tail)) k.0
        (intact-Stores h rt.geometry m.cache _ e.term (s + 1) e.writer_id e.bytes k.1 k.2)
      ∙ ap (λ x. ok (some x))
          (cc (
            k.1.index_lem,
            k.1.term_lem,
            k.1.writer_lem,
            bytes-Stores h rt.geometry m.cache _ e.term (s + 1) e.writer_id e.bytes k.1 k.2,
          ))

  -- No read changes more than a counter.
  SameLog-refl : SameLog rt m m
  SameLog-refl = record { size = refl; tail = refl; reserve = refl; records = λ a lo hi. refl }

  SameLog-read : (index : ℕ) → SameLog rt m (read_memory h rt m index)
  SameLog-read index = elim (Bool-cases (index == 0 || ltb (get_le 8 m.cache 32) index)) [
    | inl out ↦ rw out SameLog-refl
    | inr within ↦ rw within (elim (Bool-cases (m.cache (r + 0) == state_committed)) [
      | inl st ↦ rw st (elim (Bool-cases (intact h rt.geometry m.cache r)) [
        | inl good ↦ rw good (counted-SameLog 24 1)
        | inr bad ↦ rw bad (counted-SameLog 32 1)
      ])
      | inr other ↦ rw other SameLog-refl
    ])
  ]
    where
      r : ℕ
      r = record_offset rt.geometry (index - 1)

  read-log : (index : ℕ) → read_result h rt m index ≡ log_read log index
  read-log index = elim (Bool-cases (index == 0 || ltb (length log) index)) [
    | inl out ↦ rw (rep.tail, out) refl
    | inr within ↦
        let below : (0 < index) × (index ≤ length log) = ground (arith, within) in
        let hit = get_elem?-some log (index - 1) (omega arith) in
        let back : index - 1 + 1 ≡ index = omega arith in
        subst (λ i. read_result h rt m i ≡ ok (some (record_of i hit.0))) back
          (read-entry (index - 1) hit.0 hit.1)
        ∙ rw (within, hit.1) refl
  ]

  -- Reading a pool that holds a log answers what the log says of the index: `IndexOutOfBounds` for 0
  -- and past its end, and otherwise its entry as a record. The pool holds the same log afterwards.
  pub read-refines :
      (index : ℕ)
      → Ensures
          (λ res n. (res ≡ log_read log index) × Represents h rt n log)
          (read_index h rt index)
          m
  read-refines index =
      Runs-Ensures _ (read_index h rt index) m (read_result h rt m index) (read_memory h rt m index)
        (read_index-Runs h rt m index rep.pool.runtime
          (omega (arith, rep.pool.tail_le, rep.pool.reserve_le)))
        (
          read-log index,
          Represents-SameLog h rt m (read_memory h rt m index) (SameLog-read index) log rep,
        )

  module _ (term : ℕ) (payload : List ℕ) (term_u64 : term < 2 ^ 64) where
    abbrev new_entry : Entry
    new_entry = record { term = term; writer_id = rt.host_id; bytes = payload }

    abbrev Answer : Result ℕ → Memory → Type 0
    Answer res n =
        (res ≡ (log_append rt log term payload).0)
        × Represents h rt n (log_append rt log term payload).1

    sized : rt.geometry.record_size ≡ 64 + rt.geometry.payload_size
    sized = rep.pool.runtime.mapped.geometry.record_lem

    -- The entries of the longer log.
    snoc-entries :
        (n : Memory)
        → Appended h rt m (length log) term payload n
        → length log < rt.geometry.capacity
        → length payload ≤ rt.geometry.payload_size
        → (s : ℕ) (e : Entry) → get_elem? (log ++ (new_entry ∷ [])) s ≡ some e
        → (state_at rt.geometry n.cache s ≡ state_committed)
          × Stores n.cache
              (record_offset rt.geometry s)
              e.term
              (s + 1)
              e.writer_id
              (compute h e.term (s + 1) e.bytes)
              e.bytes
          × (length e.bytes ≤ rt.geometry.payload_size)
    snoc-entries n after room fit s e at = elim (Bool-cases (s == length log)) [
      | inl last ↦
          let same : s ≡ length log = ground (arith, last) in
          let new : some new_entry ≡ some e =
            sym (get_elem?-snoc log new_entry s ∙ rw last refl) ∙ at in
          let is_new : new_entry ≡ e = cc new in
          subst
            (λ (d : Entry).
              (state_at rt.geometry n.cache s ≡ state_committed)
              × Stores n.cache (record_offset rt.geometry s) d.term (s + 1) d.writer_id
                  (compute h d.term (s + 1) d.bytes) d.bytes
              × (length d.bytes ≤ rt.geometry.payload_size))
            is_new (rw same (after.state, after.stored, fit))
      | inr older ↦
          let old : get_elem? log s ≡ some e =
            sym (get_elem?-snoc log new_entry s ∙ rw older refl) ∙ at in
          let k = rep.entries s e old in
          let ne : s ≢ length log = λ same. absurd (ground (arith, older, same)) in
          let kept = after.others s (omega (arith, get_elem?-bound log s e old)) ne in
          (
            kept _ (omega arith) (omega (arith, sized)) ∙ k.0,
            Stores-Agree m.cache n.cache (record_offset rt.geometry s) e.term (s + 1) e.writer_id
                (compute h e.term (s + 1) e.bytes) e.bytes
                (λ a lo hi. kept a (omega arith) (omega (arith, sized, k.2))) k.1,
            k.2,
          )
    ]

    snoc-Represents :
        (n : Memory)
        → Appended h rt m (get_le 8 m.cache 40) term payload n
        → length log < rt.geometry.capacity
        → length payload ≤ rt.geometry.payload_size
        → Represents h rt n (log ++ (new_entry ∷ []))
    snoc-Represents n after room fit = record {
      pool = after.pool;
      reserve = omega (arith, after.reserve, rep.reserve, length-append {0} log (new_entry ∷ []));
      tail = omega (
        arith,
        after.dense (rep.tail ∙ sym rep.reserve),
        rep.reserve,
        length-append {0} log (new_entry ∷ []),
      );
      entries =
          snoc-entries n (subst (λ s. Appended h rt m s term payload n) rep.reserve after) room fit;
    }

    refused-SameLog :
        (n : Memory)
        → n.size ≡ m.size
        → get_le 8 n.cache 40 ≡ get_le 8 m.cache 40
        → ((a : ℕ)
            → (a < 40) ⊎ (48 ≤ a)
            → a < metrics_offset rt.geometry rt.host_id
            → n.cache a ≡ m.cache a)
        → SameLog rt m n
    refused-SameLog n size reserve kept = record {
      size = size;
      tail =
          get_le-Agree 8 m.cache n.cache 32 32 40
            (λ a lo hi. kept a (inl (omega arith)) (omega arith)) (omega arith) (omega arith);
      reserve = reserve;
      records = λ a lo hi. kept a (inr (omega arith)) (omega arith);
    }

    -- Appending to a pool that holds a log answers what the abstract log answers, `PayloadTooLarge`,
    -- `PoolFull` or the new index, and leaves a pool that holds the abstract log's new entries, where the
    -- term is a u64.
    pub append-refines : Ensures Answer (append h rt term payload) m
    append-refines = elim (le-cases (length payload) rt.geometry.payload_size) [
      | inr big ↦
          Runs-Ensures _ (append h rt term payload) m _ m (append-too_large h rt m term payload big)
            (rw (lt→ltb rt.geometry.payload_size (length payload) big) (refl, rep))
      | inl fit ↦ elim (le-cases rt.geometry.capacity (length log)) [
        | inl full ↦
            Runs-Ensures _ (append h rt term payload) m _ (refused h rt m)
              (append-refused h rt m term payload rep.pool.runtime (omega (arith, rep.reserve)) fit)
              (rw
                (
                  ltb→false rt.geometry.payload_size (length payload) fit,
                  le→leb rt.geometry.capacity (length log) full,
                )
                (
                  ap (λ k. err (pool_full rt.geometry.capacity k)) rep.reserve,
                  Represents-SameLog h rt m (refused h rt m)
                      (refused-SameLog (refused h rt m) refl
                        (reserve_kept h rt m term payload rep.pool.runtime
                          (omega (arith, rep.reserve))
                          (omega (
                            arith, rep.pool.reserve_le,
                            rep.pool.runtime.mapped.geometry.capacity_u32,
                          ))
                          fit)
                        (kept h rt m term payload rep.pool.runtime (omega (arith, rep.reserve))
                          (omega (
                            arith, rep.pool.reserve_le,
                            rep.pool.runtime.mapped.geometry.capacity_u32,
                          ))
                          fit))
                      log rep,
                ))
        | inr room ↦
            Ensures-mono _ Answer
              (λ res n a.
                rw
                  (
                    ltb→false rt.geometry.payload_size (length payload) fit,
                    leb→false rt.geometry.capacity (length log) room,
                  )
                  (a.0 ∙ ap (λ k. ok (k + 1)) rep.reserve, snoc-Represents n a.1 room fit))
              (append h rt term payload) m
              (append_lem h rt m term payload rep.pool (omega (arith, rep.reserve)) fit term_u64)
      ]
    ]

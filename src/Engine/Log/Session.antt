-- ===== src/Engine/Log/Session.antt =====
-- Ranges of the log, and whole sessions of one host.
use fence.Prelude.{
  ℕ, zero, suc, ◌-◌, ◌^◌, ◌≤◌, ◌<◌, ◌≡◌, refl, ◌∙◌, ap, List, [], ◌∷◌, ◌++◌, Option, none, some,
  ltb→false, leb→false, ◌*◌,
}
use fence.Backend.{Memory}
use fence.Program.{Prog, ret, Ensures, Ensures-bind, Ensures-mono, ◌>>=◌}
use fence.FenceError.{Result, ok, err}
use fence.Checksum.{Hasher}
use fence.Engine.{
  FenceRuntime, Record, append, read_index, read_range, read_range_from, collect, record_bytes,
}
use fence.Engine.Log.{Represents, Entry, log_append, log_read}
use fence.Engine.Log.Refine.{append-refines, read-refines}

-- The loop of `read_range` on the abstract log.
abbrev pub log_collect :
    (List Record → Result (List Record))
    → List Record
    → Result (Option Record)
    → Result (List Record)
log_collect rest records (err e) = err e
log_collect rest records (ok none) = rest records
log_collect rest records (ok (some entry)) = rest (records ++ (entry ∷ []))

unfoldable pub log_range : List Entry → ℕ → ℕ → List Record → Result (List Record)
log_range log zero idx records = ok records
log_range log (suc n) idx records =
    log_collect (log_range log n (suc idx)) records (log_read log idx)

-- A call of the runtime, and its answer.
pub data Call : Type 0 where
  append_call : ℕ → List ℕ → Call
  read_call : ℕ → Call
  range_call : ℕ → ℕ → Call

pub data Reply : Type 0 where
  appended_at : Result ℕ → Reply
  record_read : Result (Option Record) → Reply
  records_read : Result (List Record) → Reply

-- The calls that the source's types allow and that do not panic: of a range, the records fit in an
-- allocation.
abbrev pub Proper : Call → Type 0
Proper (append_call term payload) = term < 2 ^ 64
Proper (read_call index) = Unit {0}
Proper (range_call start_index end_index) =
    (start_index ≤ end_index) × ((end_index - start_index) * record_bytes < 2 ^ 63)

abbrev pub AllProper : List Call → Type 0
AllProper [] = Unit {0}
AllProper (c ∷ cs) = Proper c × AllProper cs

-- What the abstract log answers to one call, and to a session.
abbrev pub log_call : FenceRuntime → List Entry → Call → Reply × List Entry
log_call rt log (append_call term payload) =
    (appended_at (log_append rt log term payload).0, (log_append rt log term payload).1)
log_call rt log (read_call index) = (record_read (log_read log index), log)
log_call rt log (range_call start_index end_index) =
    (records_read (log_range log (end_index - start_index) start_index []), log)

unfoldable pub log_session : FenceRuntime → List Entry → List Call → List Reply × List Entry
log_session rt log [] = ([], log)
log_session rt log (c ∷ cs) =
    let one = log_call rt log c in let rest = log_session rt one.1 cs in (one.0 ∷ rest.0, rest.1)

module _ (h : Hasher) (rt : FenceRuntime) where
  abbrev pub perform_call : Call → Prog Reply
  perform_call (append_call term payload) = append h rt term payload >>= (λ x. ret (appended_at x))
  perform_call (read_call index) = read_index h rt index >>= (λ x. ret (record_read x))
  perform_call (range_call start_index end_index) =
      read_range h rt start_index end_index >>= (λ x. ret (records_read x))

  unfoldable pub session : List Call → Prog (List Reply)
  session [] = ret []
  session (c ∷ cs) = perform_call c >>= (λ one. session cs >>= (λ rest. ret (one ∷ rest)))

  -- The operation answers `x` and leaves the log.
  abbrev Reads : {A : Type 0} → A → List Entry → A → Memory → Type 0
  Reads x log res n = (res ≡ x) × Represents h rt n log

  collect-refines :
      (log : List Entry) (rest : List Record → Prog (Result (List Record)))
      → (spec : List Record → Result (List Record))
      → ((records : List Record) (m : Memory)
          → Represents h rt m log
          → Ensures (Reads (spec records) log) (rest records) m)
      → (records : List Record) (answer : Result (Option Record)) (m : Memory)
      → Represents h rt m log
      → Ensures (Reads (log_collect spec records answer) log) (collect h rt rest records answer) m
  collect-refines log rest spec step records (err e) m rep = (refl, rep)
  collect-refines log rest spec step records (ok none) m rep = step records m rep
  collect-refines log rest spec step records (ok (some entry)) m rep =
      step (records ++ (entry ∷ [])) m rep

  range-refines :
      (log : List Entry) (n idx : ℕ) (records : List Record) (m : Memory)
      → Represents h rt m log
      → Ensures (Reads (log_range log n idx records) log) (read_range_from h rt n idx records) m
  unfolding read_range_from log_range
  range-refines log zero idx records m rep = (refl, rep)
  range-refines log (suc n) idx records m rep = Ensures-bind _ _ (read_index h rt idx) m (
      Ensures-mono _ _
        (λ res k a.
          Ensures-mono _ _
            (λ x l b. (b.0 ∙ ap (log_collect (log_range log n (suc idx)) records) a.0, b.1))
            (collect h rt (read_range_from h rt n (suc idx)) records res) k
            (collect-refines log (read_range_from h rt n (suc idx)) (log_range log n (suc idx))
              (λ rs j r. range-refines log n (suc idx) rs j r) records res k a.1))
        (read_index h rt idx) m (read-refines h rt m log rep idx))

  call-refines :
      (log : List Entry) (c : Call) (m : Memory)
      → Proper c
      → Represents h rt m log
      → Ensures
          (λ res n. (res ≡ (log_call rt log c).0) × Represents h rt n (log_call rt log c).1)
          (perform_call c)
          m
  unfolding read_range
  call-refines log (append_call term payload) m ok_call rep =
      Ensures-bind _ _ (append h rt term payload) m (
        Ensures-mono _ _ (λ x n a. (ap appended_at a.0, a.1)) (append h rt term payload) m
          (append-refines h rt m log rep term payload ok_call))
  call-refines log (read_call index) m ok_call rep = Ensures-bind _ _ (read_index h rt index) m (
      Ensures-mono _ _ (λ x n a. (ap record_read a.0, a.1)) (read_index h rt index) m
        (read-refines h rt m log rep index))
  call-refines log (range_call start_index end_index) m ok_call rep =
      rw
        (
          ltb→false end_index start_index ok_call.0,
          leb→false (2 ^ 63) ((end_index - start_index) * record_bytes) ok_call.1,
        )
        (Ensures-bind _ _ (read_range_from h rt (end_index - start_index) start_index []) m (
          Ensures-mono _ _ (λ x n a. (ap records_read a.0, a.1))
            (read_range_from h rt (end_index - start_index) start_index []) m
            (range-refines log (end_index - start_index) start_index [] m rep)))

  -- A host that alone works on a pool which holds a log sees the abstract log: any session of appends,
  -- reads and reads of ranges, where the terms are u64s and no range is reversed or so long that the
  -- capacity of its vector overflows, ends without failure: each call is answered as the abstract log answers it after the calls before, and the pool holds the
  -- log with the entries that the session appended.
  pub session-refines :
      (log : List Entry) (calls : List Call) (m : Memory)
      → AllProper calls
      → Represents h rt m log
      → Ensures
          (λ replies n.
            (replies ≡ (log_session rt log calls).0)
            × Represents h rt n (log_session rt log calls).1)
          (session calls)
          m
  unfolding session log_session
  session-refines log [] m proper rep = (refl, rep)
  session-refines log (c ∷ cs) m proper rep = Ensures-bind _ _ (perform_call c) m (
      Ensures-mono _ _
        (λ one n a. Ensures-bind _ _ (session cs) n (
          Ensures-mono _ _ (λ rest k b. (cc (a.0, b.0), b.1)) (session cs) n
            (session-refines (log_call rt log c).1 cs n proper.1 a.1)))
        (perform_call c) m (call-refines log c m proper.0 rep))

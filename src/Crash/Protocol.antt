-- ===== src/Crash/Protocol.antt =====
-- `append` under power failures, evictions and other hosts.
use native.Mathlib.Nat.{mod-eq_of_lt}
use fence.Prelude.{
  ℕ, suc, ◌+◌, ◌^◌, ◌≤◌, ◌<◌, ◌≢◌, refl, ◌∙◌, sym, List, [], ◌∷◌, arith, length, inr, lt→ltb, ltb,
  if◌then◌else◌, as_u32,
}
use mathlib.Core.Path.{subst}
use fence.Prelude.Bytes.{Space, poke, poke-outside, poke_byte, poke-nil, to_le}
use fence.Backend.{
  fetch_add_u64, flush, store_u64, write, Memory, with_cache, flushed, get_le, put_le,
}
use fence.Program.{Prog, ret, call, perform, ◌>>◌}
use fence.FenceError.{Result, ok}
use fence.Layout.{record_offset, metrics_offset}
use fence.Layout.Bounds.{IsGeometry}
use fence.Layout.Regions.{record_below_metrics}
use fence.Checksum.{Hasher, compute}
use fence.Metrics
use fence.Recovery
use fence.Recovery.Check.{Agree}
use fence.Engine.{FenceRuntime, append_at, write_record, commit_record}
use fence.Engine.Stored.{Stores, Stores-Agree}
use fence.Engine.Write.{written-Stores}
use fence.Crash.{During, Always, Env}
use fence.Crash.Rules.{Stable, Stable_of, Always-During, Keeps, Keeps-Always, Keeps-bind}
use fence.Crash.Append.{
  CrashSafe, Writing, Written, Marked, Durable, Writing-Quiet, Written-Quiet, Marked-Quiet,
  Durable-lines, Durable-exec,
}
use fence.Crash.Steps.{Writing-poke, Writing-flush, Written-commit, Marked-flush}
use fence.Crash.Finish.{Keeps-advance}

module _ (h : Hasher) (rt : FenceRuntime) (slot term : ℕ) (payload : List ℕ)
    (v : IsGeometry rt.geometry) (small : slot < rt.geometry.capacity)
    (fit : length payload ≤ rt.geometry.payload_size) (term_u64 : term < 2 ^ 64)
    (host : rt.host_id < rt.geometry.max_hosts) (early : Type 0) where
  abbrev r : ℕ
  r = record_offset rt.geometry slot

  abbrev size : ℕ
  size = rt.geometry.record_size

  above : 64 ≤ r
  above = omega arith

  room : 64 ≤ size
  room = omega (arith, v.record_lem)

  abbrev hi : ℕ
  hi = r + size

  abbrev P : Memory → Type 0
  P = CrashSafe h rt slot term payload early

  -- The record's fields in a space.
  abbrev Holds : Space → Type 0
  Holds c = Stores c r term (slot + 1) rt.host_id (compute h term (slot + 1) payload) payload

  abbrev W : Space → Memory → Type 0
  W x = Writing r size slot early above room x

  Writing-safe : (x : Space) (m : Memory) → W x m → P m
  Writing-safe x m w = record {
    complete = λ st. absurd (omega (arith, w.media_state, st));
    ordered = λ lt. absurd (omega (arith, w.media_tail));
  }

  Holds-Agree : (x d : Space) → Holds x → Agree x d (r + 1) hi → Holds d
  Holds-Agree x d s same =
      Stores-Agree x d r term (slot + 1) rt.host_id (compute h term (slot + 1) payload) payload
        (λ a lo up. same a lo (omega (arith, v.record_lem))) s

  Written-safe :
      (x : Space) → Holds x → (m : Memory) → Written r size slot early above room x m → P m
  Written-safe x s m w = record {
    complete = λ st. Holds-Agree x m.media s w.media_holds;
    ordered = λ lt. absurd (omega (arith, w.media_tail));
  }

  Marked-safe : (x : Space) → Holds x → (m : Memory) → Marked r size slot early above room x m → P m
  Marked-safe x s m d = record {
    complete = λ st. Holds-Agree x m.media s d.media_holds;
    ordered = λ lt. (Holds-Agree x m.media s d.media_holds, d.media_passed lt);
  }

  Durable-safe :
      (x : Space) → Holds x → (m : Memory) → Durable r size slot early above room x m → P m
  Durable-safe x s m d = record {
    complete = λ st. Holds-Agree x m.media s d.media_holds;
    ordered = λ lt. (Holds-Agree x m.media s d.media_holds, inr d.media_state);
  }

  Writing-stable : (x : Space) → Stable r hi slot early (W x)
  Writing-stable x = Stable_of r hi slot early (W x) (Writing-Quiet r size slot early above room x)

  Written-stable : (x : Space) → Stable r hi slot early (Written r size slot early above room x)
  Written-stable x = Stable_of r hi slot early _ (Written-Quiet r size slot early above room x)

  Marked-stable : (x : Space) → Stable r hi slot early (Marked r size slot early above room x)
  Marked-stable x = Stable_of r hi slot early _ (Marked-Quiet r size slot early above room x)

  Durable-stable : (x : Space) → Stable r hi slot early (Durable r size slot early above room x)
  Durable-stable x =
      Stable_of r hi slot early _
        (λ m n q d. Durable-lines r size slot early above room x m n q.range q.lines d)

  -- A field is written behind the state.
  field :
      (x : Space) (o : ℕ) (bs : List ℕ) (m : Memory)
      → r + 1 ≤ o
      → W x m
      → W (poke x o bs) (with_cache m (poke m.cache o bs))
  field x o bs m behind w =
      Writing-poke r size slot early above room x o bs m (omega arith)
        (λ e. w.open_state (sym (poke-outside x o bs (r + 0) (omega arith)) ∙ e)) w

  -- After the commit: the sweep and the counters.
  abbrev finish : Prog (Result ℕ)
  finish = do
    Recovery.advance_committed_tail rt.geometry
    Metrics.increment_appends rt.geometry rt.host_id
    Metrics.increment_bytes_written rt.geometry rt.host_id (length payload)
    ret (ok (slot + 1))

  Keeps-finish :
      (x : Space) (s : Holds x)
      → Keeps r hi slot early P
          (Durable r size slot early above room x)
          (Durable-stable x)
          (Durable-safe x s)
          finish
  unfolding Metrics.increment_appends Metrics.increment_bytes_written
  Keeps-finish x s =
      Keeps-bind r hi slot early P _ (Durable-stable x) (Durable-safe x s)
        (Recovery.advance_committed_tail rt.geometry) _
        (Keeps-advance rt.geometry r size slot early above room x P (Durable-stable x)
          (Durable-safe x s))
        (λ tail. (
          λ m d.
              Durable-exec r size slot early above room x
                (fetch_add_u64 (metrics_offset rt.geometry rt.host_id + 0) 1) m
                (inr (omega (arith, record_below_metrics rt.geometry slot rt.host_id small))) d,
          λ old. (
            λ m d.
                Durable-exec r size slot early above room x
                  (fetch_add_u64 (metrics_offset rt.geometry rt.host_id + 16) (length payload)) m
                  (inr (omega (arith, record_below_metrics rt.geometry slot rt.host_id small))) d,
            λ old'. tt,
          ),
        ))

  -- From the flush of the record on.
  abbrev closing : Prog (Result ℕ)
  closing = call (flush r size) (λ _. commit_record h rt r >> finish)

  Always-closing : (x : Space) → Holds x → (m : Memory) → W x m → Always r hi slot early P closing m
  unfolding commit_record
  Always-closing x s m w = λ n e.
      let w' : W x n = Writing-stable x m n w e in
      (
        Writing-safe x n w',
        λ k e'.
            let w'' : Written r size slot early above room x k =
              Written-stable x (flushed n r size) k
                (Writing-flush r size slot early above room x n w') e' in
            (
              Written-safe x s k w'',
              λ j e''.
                  let d : Marked r size slot early above room x j =
                    Marked-stable x (with_cache k (poke k.cache (r + 0) (to_le 1 2))) j
                      (Written-commit r size slot early above room x k w'') e'' in
                  (
                    Marked-safe x s j d,
                    Keeps-Always r hi slot early P (Durable r size slot early above room x)
                        (Durable-stable x) (Durable-safe x s) finish (flushed j r 64)
                        (Keeps-finish x s) (Marked-flush r size slot early above room x j d),
                  ),
            ),
      )

  abbrev crc : ℕ
  crc = compute h term (slot + 1) payload

  -- From the payload on.
  Always-payload :
      (bs : List ℕ) (x : Space)
      → Holds (put_le 8 (poke x (r + 64) bs) (r + 40) crc)
      → (m : Memory) → W x m
      → Always r hi slot early P
          ((if ltb 0 (length bs) then perform (write (r + 64) bs) else ret tt)
            >> (perform (store_u64 (r + 40) crc) >> perform (flush r size))
            >> (commit_record h rt r >> finish))
          m
  unfolding put_le
  Always-payload [] x s m w = λ n e.
      let w' : W x n = Writing-stable x m n w e in
      (
        Writing-safe x n w',
        Always-closing (poke x (r + 40) (to_le 8 crc))
            (subst (λ y. Holds (poke y (r + 40) (to_le 8 crc))) (poke-nil x (r + 64)) s)
            (with_cache n (poke n.cache (r + 40) (to_le 8 crc)))
            (field x (r + 40) (to_le 8 crc) n (omega arith) w'),
      )
  Always-payload (b ∷ bs) x s m w = rw (lt→ltb 0 (suc (length bs)) (omega arith)) (λ n e.
      let w' : W x n = Writing-stable x m n w e in
      (
        Writing-safe x n w',
        λ k e'.
            let w'' : W (poke x (r + 64) (b ∷ bs)) k =
              Writing-stable (poke x (r + 64) (b ∷ bs))
                (with_cache n (poke n.cache (r + 64) (b ∷ bs))) k
                (field x (r + 64) (b ∷ bs) n (omega arith) w') e' in
            (
              Writing-safe (poke x (r + 64) (b ∷ bs)) k w'',
              Always-closing (poke (poke x (r + 64) (b ∷ bs)) (r + 40) (to_le 8 crc)) s
                  (with_cache k (poke k.cache (r + 40) (to_le 8 crc)))
                  (field (poke x (r + 64) (b ∷ bs)) (r + 40) (to_le 8 crc) k (omega arith) w''),
            ),
      ))

  Always-field :
      (o : ℕ) (bs : List ℕ) (x : Space) (rest : Prog (Result ℕ))
      → r + 1 ≤ o
      → ((n : Memory) → W (poke x o bs) n → Always r hi slot early P rest n)
      → (m : Memory) → W x m
      → (n : Memory) → Env r hi slot early m n
      → P n × Always r hi slot early P rest (with_cache n (poke n.cache o bs))
  Always-field o bs x rest behind next m w n e =
      let w' : W x n = Writing-stable x m n w e in
      (Writing-safe x n w', next (with_cache n (poke n.cache o bs)) (field x o bs n behind w'))

  abbrev x₁ : Space → Space
  x₁ c = poke c (r + 0) (to_le 1 1)

  abbrev x₂ : Space → Space
  x₂ c = poke (x₁ c) (r + 8) (to_le 8 term)

  abbrev x₃ : Space → Space
  x₃ c = poke (x₂ c) (r + 16) (to_le 8 (slot + 1))

  abbrev x₄ : Space → Space
  x₄ c = poke (x₃ c) (r + 24) (to_le 8 rt.host_id)

  abbrev x₅ : Space → Space
  x₅ c = poke (x₄ c) (r + 32) (to_le 4 (as_u32 (length payload)))

  -- The calls that are left, from the payload, the length, the host and the index on.
  abbrev from_payload : Prog (Result ℕ)
  from_payload =
      (if ltb 0 (length payload) then perform (write (r + 64) payload) else ret tt)
      >> (perform (store_u64 (r + 40) crc) >> perform (flush r size))
      >> (commit_record h rt r >> finish)

  abbrev from_len : Prog (Result ℕ)
  from_len = call (write (r + 32) (to_le 4 (as_u32 (length payload)))) (λ _. from_payload)

  abbrev from_host : Prog (Result ℕ)
  from_host = call (store_u64 (r + 24) rt.host_id) (λ _. from_len)

  abbrev from_index : Prog (Result ℕ)
  from_index = call (store_u64 (r + 16) (slot + 1)) (λ _. from_host)

  Holds-all : (c : Space) → Holds (put_le 8 (poke (x₅ c) (r + 64) payload) (r + 40) crc)
  unfolding put_le
  Holds-all c =
      written-Stores h rt c r (slot + 1) term payload term_u64 (omega (arith, v.capacity_u32))
        (omega (arith, v.hosts_u16)) (omega (arith, v.record_lem, v.record_u32))

  Always-append :
      (m : Memory) → W m.cache m → Always r hi slot early P (append_at h rt slot term payload) m
  unfolding append_at write_record put_le
  Always-append m w =
      rw (mod-eq_of_lt {n = slot} {m = 2 ^ 32} (omega (arith, v.capacity_u32))) (λ n e.
        let w' : W m.cache n = Writing-stable m.cache m n w e in
        (
          Writing-safe m.cache n w',
          Always-field (r + 8) (to_le 8 term) (x₁ m.cache) from_index (omega arith)
              (Always-field (r + 16) (to_le 8 (slot + 1)) (x₂ m.cache) from_host (omega arith) (
                Always-field (r + 24) (to_le 8 rt.host_id) (x₃ m.cache) from_len (omega arith) (
                  Always-field (r + 32) (to_le 4 (as_u32 (length payload))) (x₄ m.cache)
                    from_payload (omega arith)
                    (λ k. Always-payload payload (x₅ m.cache) (Holds-all m.cache) k))))
              (with_cache n (x₁ n.cache))
              (Writing-poke r size slot early above room m.cache (r + 0) (to_le 1 1) n (omega arith)
                (λ st. absurd (omega (arith, poke_byte m.cache (r + 0) 1 (omega arith), st))) w'),
        ))

  -- Power may fail at any point of an append into a reserved slot, with cachelines evicted before, between
  -- and after its steps, and other hosts writing anywhere but in the slot; a host that writes
  -- `committed_tail` moves it past the slot only where the cache says COMMITTED. Where the slot was not
  -- COMMITTED and the tail had not passed it, neither in the cache nor on the media, the media then say
  -- COMMITTED only with the whole record behind it (term, index, host, length, checksum and payload), and
  -- the tail on the media has passed the slot only if the media hold that whole record. If besides no other
  -- host passes the slot before the media say COMMITTED (`early` is then empty), the tail on the media has
  -- passed the slot only if the media say COMMITTED.
  pub append_at-CrashSafe :
      (m n : Memory)
      → m.cache (r + 0) ≢ 2
      → m.media (r + 0) ≢ 2
      → get_le 8 m.cache 32 ≤ slot
      → get_le 8 m.media 32 ≤ slot
      → During r hi slot early (append_at h rt slot term payload) m n
      → CrashSafe h rt slot term payload early n
  append_at-CrashSafe m n open_slot open_media tail media_tail d =
      Always-During r hi slot early P d (
        Always-append m (record {
          holds = λ a lo up. refl;
          open_state = open_slot;
          media_state = open_media;
          tail = tail;
          media_tail = media_tail;
        }))

-- ===== src/Concurrent/Requests.antt =====
-- The first steps of an append, and the last ones of one that is refused.
use fence.Prelude.{
  ℕ, ◌-◌, ◌≤◌, ◌<◌, ◌≡◌, refl, arith, length, leb, ltb→false, lt→ltb, if◌then◌else◌,
}
use fence.Backend.{Memory, u64_mod, fetch_add_u64}
use fence.Program.{Prog, ret, call, ◌>>◌}
use fence.FenceError.{Result, err, pool_full, payload_too_large}
use fence.Layout.{PoolGeometry}
use fence.Checksum.{Hasher}
use fence.Metrics
use fence.Metrics.{bump}
use fence.Engine.{append, append_full, append_at}
use fence.Concurrent.{Request, host, request}
use fence.Concurrent.Rely.{IsGood, Safe, Safe-then}
use fence.Concurrent.Counters.{bump-Safe}
use fence.Concurrent.Advance.{Mine}
use fence.Concurrent.Invariant.{Full}

module _ (h : Hasher) (g : PoolGeometry) (base : ℕ) where
  pub request-big :
      (q : Request)
      → g.payload_size < length q.payload
      → request h g q ≡ ret (err (payload_too_large g.payload_size (length q.payload)))
  unfolding append
  request-big q big = rw (lt→ltb g.payload_size (length q.payload) big) refl

  -- The first call of an append that fits, and what follows it.
  abbrev pub placed : Request → ℕ → Prog (Result ℕ)
  placed q slot =
      if leb g.capacity slot
      then append_full h (host g q) slot
      else append_at h (host g q) slot q.term q.payload

  pub request-fits :
      (q : Request)
      → length q.payload ≤ g.payload_size
      → request h g q ≡ call (fetch_add_u64 40 1) (placed q)
  unfolding append
  request-fits q fit = rw (ltb→false g.payload_size (length q.payload) fit) refl

  -- After the undo of a reservation the counter is raised and `PoolFull` answered.
  abbrev pub rest_full : Request → ℕ → Prog (Result ℕ)
  rest_full q v = bump g q.host_id 8 1 >> ret (err (pool_full g.capacity v))

  pub full-call :
      (q : Request) (v : ℕ)
      → append_full h (host g q) v ≡ call (fetch_add_u64 40 (u64_mod - 1)) (λ _. rest_full q v)
  unfolding append_full Metrics.increment_appends_failed
  full-call q v = refl

  pub Full-Safe :
      (q : Request) (v : ℕ) (m : Memory)
      → q.host_id < g.max_hosts
      → g.capacity ≤ v
      → IsGood g base m
      → Safe g base g.capacity (Full h g base) (rest_full q v) m
  Full-Safe q v m lt le good =
      Safe-then g base g.capacity (λ _. Mine g base g.capacity m) (Full h g base)
        (λ _. ret (err (pool_full g.capacity v))) (bump g q.host_id 8 1) m good
        (bump-Safe g base g.capacity q.host_id 8 1 m lt (omega arith) refl)
        (λ _ n a gd k r. (v, le, refl))

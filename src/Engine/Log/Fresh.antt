-- ===== src/Engine/Log/Fresh.antt =====
-- A new pool and the empty log.
use mathlib.Core.Path.{subst}
use fence.Prelude.{ℕ, ◌<◌, ◌≡◌, sym, ap, arith, List, [], true, some}
use fence.Backend.{Memory}
use fence.Program.{Prog, Ensures, Ensures-bind, Ensures-mono, ret, ◌>>=◌}
use fence.FenceError.{Result, ok, err}
use fence.Layout.{PoolGeometry, new, state_free}
use fence.Checksum.{Hasher}
use fence.Metrics.Counters.{IsMapped}
use fence.Recovery.Sweep.{state_at}
use fence.Engine.{PoolConfig, FenceRuntime, open_pool}
use fence.Engine.Open.{create-IsPool}
use fence.Engine.Log.Keep.{get_elem?-bound}
use fence.Engine.Log.{Represents}
use fence.Engine.Log.Session.{Call, Reply, session, log_session, AllProper, session-refines}

-- A host opens the pool and makes the calls.
abbrev pub run_session : Hasher → List Call → Result FenceRuntime → Prog (Result (List Reply))
run_session h calls (err e) = ret (err e)
run_session h calls (ok rt) = session h rt calls >>= (λ replies. ret (ok replies))

module _ (h : Hasher) (config : PoolConfig) (g : PoolGeometry) (m : Memory)
    (made : new config.capacity config.payload_size config.max_hosts ≡ some g)
    (v : IsMapped g m.size) (host : config.host_id < g.max_hosts) (fresh : config.create ≡ true)
    (blank : (s : ℕ) → s < g.capacity → state_at g m.cache s ≡ state_free) where
  abbrev rt : FenceRuntime
  rt = record { geometry = g; host_id = config.host_id }

  abbrev Served : List Call → Result (List Reply) → Memory → Type 0
  Served calls res n =
      (res ≡ ok (log_session rt [] calls).0) × Represents h rt n (log_session rt [] calls).1

  -- A host of the pool that creates it in a mapping that is large enough and aligned, and in which
  -- every slot is FREE, and then makes any session of appends, reads and reads of ranges, ends
  -- without failure and is answered as the abstract log answers from the empty log on, where the
  -- terms are u64s and no range is reversed or so long that the capacity of its vector overflows. The pool then holds the entries that the session
  -- appended.
  pub create-session :
      (calls : List Call)
      → AllProper calls
      → Ensures
          (λ res n.
            (res ≡ ok (log_session rt [] calls).0) × Represents h rt n (log_session rt [] calls).1)
          (open_pool config (ok tt) >>= run_session h calls)
          m
  create-session calls proper =
      Ensures-bind (Served calls) (run_session h calls) (open_pool config (ok tt)) m (
        Ensures-mono _ _
          (λ res n a.
            subst (λ (x : Result FenceRuntime). Ensures (Served calls) (run_session h calls x) n)
              (sym a.0)
              (Ensures-bind (Served calls) _ (session h rt calls) n (
                Ensures-mono _ _ (λ replies k b. (ap ok b.0, b.1)) (session h rt calls) n
                  (session-refines h rt [] calls n proper (record {
                    pool = a.1;
                    reserve = a.3;
                    tail = a.2;
                    entries = λ s e at. absurd (omega (arith, get_elem?-bound [] s e at));
                  })))))
          (open_pool config (ok tt)) m (create-IsPool config g m made v h host fresh blank))

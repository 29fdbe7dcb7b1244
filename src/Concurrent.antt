-- ===== src/Concurrent.antt =====
-- crates/fence-runtime/src/engine.rs: "Thread-safe: multiple threads can append/read concurrently".
-- Appends of several hosts on one shared memory, interleaved: a turn lets one of them make one call of
-- the backend.
pub mod Family
pub mod Rely
pub mod Local
pub mod Advance
pub mod Counters
pub mod Append
pub mod Invariant
pub mod Requests
pub mod Moved
pub mod Turns
pub mod Depth
pub mod Protocol
pub mod Settled
pub mod Died
use fence.Prelude.{ℕ, List, [], ◌∷◌, ◌<◌}
use fence.Backend.{Memory, exec, Asserts}
use fence.Program.{Prog, ret, panic, out_of_fuel, call}
use fence.FenceError.{Result}
use fence.Layout.{PoolGeometry}
use fence.Checksum.{Hasher}
use fence.Engine.{FenceRuntime, append}
use fence.Concurrent.Family.{update}

-- One call of the backend.
abbrev pub advance : {A : Type 0} → Prog A → Memory → Prog A × Memory
advance (ret a) m = (ret a, m)
advance panic m = (panic, m)
advance out_of_fuel m = (out_of_fuel, m)
advance (call o k) m = (k (exec o m).0, (exec o m).1)

-- The assertions of that call hold, and the code has not failed.
abbrev pub CanGo : {A : Type 0} → Prog A → Memory → Type 0
CanGo (ret a) m = Unit
CanGo panic m = ⊥
CanGo out_of_fuel m = ⊥
CanGo (call o k) m = Asserts o m.size

pub record System : Type 0 where
  pub memory : Memory
  pub calls : ℕ → Prog (Result ℕ)

unfoldable pub turn : ℕ → System → System
turn i sys = record {
  memory = (advance (sys.calls i) sys.memory).1;
  calls = update sys.calls i (advance (sys.calls i) sys.memory).0;
}

-- A schedule says whose turn it is.
unfoldable pub turns : List ℕ → System → System
turns [] sys = sys
turns (i ∷ is) sys = turns is (turn i sys)

abbrev pub AllBelow : ℕ → List ℕ → Type 0
AllBelow n [] = Unit {0}
AllBelow n (i ∷ is) = (i < n) × AllBelow n is

-- What a host asks to append.
pub record Request : Type 0 where
  pub host_id : ℕ
  pub term : ℕ
  pub payload : List ℕ

abbrev pub host : PoolGeometry → Request → FenceRuntime
host g q = record { geometry = g; host_id = q.host_id }

abbrev pub request : Hasher → PoolGeometry → Request → Prog (Result ℕ)
request h g q = append h (host g q) q.term q.payload

-- Every request at its start. The calls of one host after another are among the schedules.
abbrev pub start : Hasher → PoolGeometry → (ℕ → Request) → Memory → System
start h g requests m = record { memory = m; calls = λ i. request h g (requests i) }

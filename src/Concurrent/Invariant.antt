-- ===== src/Concurrent/Invariant.antt =====
-- The invariant of appends that take turns.
use fence.Prelude.{ℕ, ◌+◌, ◌≤◌, ◌<◌, ◌≡◌, ◌≢◌, length}
use fence.Backend.{Memory, get_le}
use fence.Program.{Prog}
use fence.FenceError.{Result, ok, err, pool_full}
use fence.Layout.{PoolGeometry, state_free}
use fence.Checksum.{Hasher}
use fence.Recovery.Sweep.{state_at}
use fence.Engine.{append_full}
use fence.Concurrent.{System, Request, host, request}
use fence.Concurrent.Family.{weight}
use fence.Concurrent.Rely.{IsGood, Safe, SameRecord}
use fence.Concurrent.Append.{Holds}

-- How far a call has come. `over` has taken a reservation behind the last slot, `refused` has given it
-- back, `owner` has reserved the slot.
pub data Phase : Type 0 where
  waiting : Phase
  over : ℕ → Phase
  refused : Phase
  owner : ℕ → Phase

-- The reservations behind the last slot.
abbrev pub excess : Phase → ℕ
excess waiting = 0
excess (over v) = 1
excess refused = 0
excess (owner s) = 0

module _ (h : Hasher) (g : PoolGeometry) (base : ℕ) where
  -- The slot that a call owns, or the capacity.
  abbrev pub slot_of : Phase → ℕ
  slot_of waiting = g.capacity
  slot_of (over v) = g.capacity
  slot_of refused = g.capacity
  slot_of (owner s) = s

  abbrev pub Full : Result ℕ → Memory → Type 0
  Full res m = (v : ℕ) × (g.capacity ≤ v) × (res ≡ err (pool_full g.capacity v))

  abbrev pub Kept : Request → ℕ → Result ℕ → Memory → Type 0
  Kept q s res m = (res ≡ ok (s + 1)) × Holds h (host g q) base s q.term q.payload m

  -- What is left of a call in its phase. The slots from `first` on are handed out in turn, `taken` of
  -- them all in all.
  abbrev pub Stands : Request → ℕ → ℕ → Phase → Prog (Result ℕ) → Memory → Type 0
  Stands q first taken waiting p m = p ≡ request h g q
  Stands q first taken (over v) p m =
      (p ≡ append_full h (host g q) v)
      × (g.capacity ≤ v)
      × (taken ≡ g.capacity)
      × (length q.payload ≤ g.payload_size)
  Stands q first taken refused p m =
      Safe g base g.capacity Full p m × (taken ≡ g.capacity) × (length q.payload ≤ g.payload_size)
  Stands q first taken (owner s) p m =
      Safe g base s (Kept q s) p m × (first ≤ s) × (s < taken) × (length q.payload ≤ g.payload_size)

  -- `m₀` is the memory at the start, and `first` its reserve tail.
  pub record Inv (n : ℕ) (requests : ℕ → Request) (m₀ : Memory) (first : ℕ) (sys : System)
      : Type 0 where
    pub phases : ℕ → Phase
    pub taken : ℕ
    pub good : IsGood g base sys.memory
    pub size : sys.memory.size ≡ m₀.size
    pub taken_le : taken ≤ g.capacity
    pub first_le : first ≤ taken
    pub reserve : get_le 8 sys.memory.cache 40 ≡ taken + weight excess n phases
    pub spare : taken < g.capacity → weight excess n phases ≡ 0
    pub fresh : (t : ℕ) → taken ≤ t → t < g.capacity → state_at g sys.memory.cache t ≡ state_free
    pub old : (t : ℕ) → t < first → SameRecord g base t m₀ sys.memory
    pub stands :
        (i : ℕ) → i < n → Stands (requests i) first taken (phases i) (sys.calls i) sys.memory
    pub apart :
        (i j : ℕ)
        → i < n
        → j < n
        → i ≢ j
        → slot_of (phases i) < g.capacity
        → slot_of (phases i) ≢ slot_of (phases j)
    pub owned : (t : ℕ) → first ≤ t → t < taken → (i : ℕ) × (i < n) × (phases i ≡ owner t)

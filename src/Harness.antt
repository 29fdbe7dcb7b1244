-- ===== src/Harness.antt =====
-- crates/fence-test-harness/src/crash_sim.rs, pool.rs and assertions.rs: what the tests use to break a
-- pool, to make one and to look at it.
-- `expect` and the `assert_eq!`s panic. The shared flag of `CrashSim` is its value at one time.
pub mod Crashed
use fence.Prelude.{
  ℕ, zero, suc, ◌+◌, Bool, true, false, List, Option, none, some, ◌==◌, if◌then◌else◌, same_string,
  as_u32,
}
use fence.Backend.{load_u64, store_u64, load_u8, store_u8, fetch_add_u64}
use fence.Program.{Prog, ret, panic, perform, ◌>>=◌, ◌>>◌}
use fence.FenceError.{Result, ok, err}
use fence.Layout
use fence.Layout.{
  PoolGeometry, record_offset, hdr_reserve_tail, hdr_committed_tail, hdr_magic, magic, rec_state,
  rec_term, rec_index, state_writing, state_committed,
}
use fence.Engine.{PoolConfig, FenceRuntime, open_pool}

pub record CrashSim : Type 0 where
  pub should_crash : Bool
  pub crash_point : List ℕ

abbrev pub new_sim : List ℕ → CrashSim
new_sim crash_point = record { should_crash = false; crash_point = crash_point }

abbrev pub arm : CrashSim → CrashSim
arm sim = record sim { should_crash = true }

abbrev pub disarm : CrashSim → CrashSim
disarm sim = record sim { should_crash = false }

unfoldable pub should_crash_at : CrashSim → List ℕ → Bool
should_crash_at sim point = if sim.should_crash then same_string sim.crash_point point else false

-- The writes of `simulate_crashed_write`: the record is left WRITING.
unfoldable pub crashed_write : PoolGeometry → Prog ℕ
crashed_write geometry = do
  slot ← perform (fetch_add_u64 hdr_reserve_tail 1)
  let rec_offset = record_offset geometry (as_u32 slot)
  perform (store_u8 (rec_offset + rec_state) state_writing)
  perform (store_u64 (rec_offset + rec_term) 99)
  perform (store_u64 (rec_offset + rec_index) (slot + 1))
  ret slot

abbrev pub crashed_in : Result (Unit {0}) → Option PoolGeometry → Prog ℕ
crashed_in mapped none = panic
crashed_in (err e) (some geometry) = panic
crashed_in (ok u) (some geometry) = crashed_write geometry

-- `mapped` is what `MmapBackend::open` returned.
unfoldable pub simulate_crashed_write : Result (Unit {0}) → ℕ → ℕ → ℕ → Prog ℕ
simulate_crashed_write mapped capacity payload_size max_hosts =
    crashed_in mapped (Layout.new capacity payload_size max_hosts)

pub record TempPoolBuilder : Type 0 where
  pub capacity : ℕ
  pub payload_size : ℕ
  pub max_hosts : ℕ
  pub host_id : ℕ

abbrev pub default_builder : TempPoolBuilder
default_builder = record { capacity = 1024; payload_size = 128; max_hosts = 4; host_id = 0 }

abbrev pub with_capacity : TempPoolBuilder → ℕ → TempPoolBuilder
with_capacity builder capacity = record builder { capacity = capacity }

abbrev pub with_payload_size : TempPoolBuilder → ℕ → TempPoolBuilder
with_payload_size builder payload_size = record builder { payload_size = payload_size }

abbrev pub with_max_hosts : TempPoolBuilder → ℕ → TempPoolBuilder
with_max_hosts builder max_hosts = record builder { max_hosts = max_hosts }

abbrev pub with_host_id : TempPoolBuilder → ℕ → TempPoolBuilder
with_host_id builder host_id = record builder { host_id = host_id }

abbrev pub expect : {A : Type 0} → Result A → Prog A
expect (ok a) = ret a
expect (err e) = panic

-- The file is a fresh temporary one.
unfoldable pub build : TempPoolBuilder → Result (Unit {0}) → Prog FenceRuntime
build builder mapped =
    open_pool
      (record {
        capacity = builder.capacity;
        payload_size = builder.payload_size;
        max_hosts = builder.max_hosts;
        host_id = builder.host_id;
        create = true;
      })
      mapped
    >>= expect

abbrev pub assert_eq : ℕ → ℕ → Prog (Unit {0})
assert_eq actual expected = if actual == expected then ret tt else panic

unfoldable pub assert_record_state : PoolGeometry → ℕ → ℕ → Prog (Unit {0})
assert_record_state geometry slot expected_state =
    perform (load_u8 (record_offset geometry slot + rec_state))
    >>= (λ actual. assert_eq actual expected_state)

unfoldable pub assert_committed_tail : ℕ → Prog (Unit {0})
assert_committed_tail expected =
    perform (load_u64 hdr_committed_tail) >>= (λ actual. assert_eq actual expected)

unfoldable pub assert_reserve_tail : ℕ → Prog (Unit {0})
assert_reserve_tail expected =
    perform (load_u64 hdr_reserve_tail) >>= (λ actual. assert_eq actual expected)

unfoldable pub assert_valid_magic : Prog (Unit {0})
assert_valid_magic = perform (load_u64 hdr_magic) >>= (λ found. assert_eq found magic)

-- `for slot in 0..count`: `n` slots are left.
unfoldable pub assert_committed_from : PoolGeometry → ℕ → ℕ → Prog (Unit {0})
assert_committed_from geometry zero slot = ret tt
assert_committed_from geometry (suc n) slot =
    assert_record_state geometry slot state_committed >> assert_committed_from geometry n (suc slot)

unfoldable pub assert_committed_range : PoolGeometry → ℕ → Prog (Unit {0})
assert_committed_range geometry count = assert_committed_from geometry count 0

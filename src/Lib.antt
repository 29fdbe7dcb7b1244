-- ===== src/Lib.antt =====
-- Verification of Fence, a crash-consistent log of records in shared memory.
--
-- The parts of the program and the files that model them:
-- In crates/fence-core/src/layout.rs: Layout.antt. The constants and `PoolGeometry`, whose `new` returns
--   no geometry where the code panics. Layout/Bounds.antt, Layout/Regions.antt: the offsets.
--   Layout/Structs.antt: the structs that mirror the format.
-- In crates/fence-core/src/checksum.rs: Checksum.antt. The package crc32fast is the parameter `Hasher`,
--   of which the hash being below 2 ^ 32 is assumed.
-- In crates/fence-core/src/error.rs: FenceError.antt. The texts of the errors are not modelled.
-- In crates/fence-core/src/backend.rs, mmap_backend.rs, persistence.rs: Backend.antt. A `Memory` has the
--   size of the mapping, the bytes that loads see (`cache`) and the bytes that have been written back
--   (`media`). `exec` is what each operation of `MemoryBackend` does, `Asserts` its debug assertions.
--   Backend/Fields.antt, Backend/Flush.antt: stored numbers, and `flush_range`.
-- In crates/fence-runtime/src/metrics.rs: Metrics.antt and the modules below it.
-- In crates/fence-runtime/src/recovery.rs: Recovery.antt and the modules below it.
-- In crates/fence-runtime/src/compaction.rs: Compaction.antt and Compaction/Trim.antt.
-- In crates/fence-runtime/src/engine.rs: Engine.antt. `open`, `read`, `append` are `open_pool`,
--   `read_index`, `append`; the steps of `append` are `write_record`, `commit_record`, `append_at`.
-- In crates/fence-alloc/src/catalog.rs, region.rs, allocator.rs: Catalog.antt, Region.antt,
--   Allocator.antt and the modules below it.
-- In crates/fence-config/src/config.rs, defaults.rs: Config.antt and Config/Pool.antt.
-- In crates/fence-test-harness/src/crash_sim.rs, pool.rs, assertions.rs: Harness.antt and Harness/Crashed.antt.
-- In crates/fenced/src/main.rs: Fenced.antt and the modules below it. A command is a `Prog` on the mapping
--   of the pool's file that ends with the report it prints or the error it exits with.
--
-- Program.antt: code that uses the backend is a `Prog`, the calls that it makes, each followed by a
-- continuation on the answer. `run` executes it to its end; `Ensures Q p m` says that from the memory `m`
-- no assertion of the backend fails, the code does not panic, no fuel runs out, and the result and the
-- final memory satisfy `Q`. `Runs p m a n` says that the result is `a` and the final memory `n`.
-- Concurrent.antt: appends of several hosts take turns, one call of the backend each (`turn`, `turns`);
-- Concurrent/Rely.antt has what a call may count on and do among others (`Rely`, `Guar`, `Safe`), and
-- Concurrent/Invariant.antt how far each call has come. Concurrent/Depth.antt counts calls;
-- Concurrent/Died.antt has recovery where hosts have died among their appends.
-- Engine/Log.antt: the abstract log, a list of entries, and when a pool holds it; Engine/Log/Session.antt:
-- sessions of one host.
-- Crash.antt: `During` gives the memories that a power failure may find while a `Prog` runs, with
-- cachelines evicted at any time and other hosts at work, which pass the slot in hand with the tail only
-- as `Passes` says.
--
-- Conventions. Numbers are natural numbers, wrapped where the code wraps; a sum that overflows is a panic,
-- as in a debug build, and the offset functions write no wrap. The mapping is page aligned, so
-- an address is aligned as its offset. A backend operation is one indivisible step; memory orderings are
-- not modelled, nor is an allocation that fails for want of memory. A string is the list of its bytes, and `from_utf8_lossy` the parameter `lossy`.
--
-- Fuel. The compare-and-swap loop of `advance_committed_tail` has `capacity + 1` rounds: alone a host
-- needs one, and each round that another host forestalls raises the tail, which ends at `capacity`. The
-- loop of `flush_range` has one round more than the range has bytes. Every other loop is bounded in the
-- code and is structural recursion.
--
-- Tests/*Units.antt: the repository's unit tests of the engine, the recovery, the compaction, the metrics
-- and the layout, as definitions.
--
-- Not modelled: the system calls behind `MmapBackend::open` (its result is an argument of `open_pool`),
-- the texts of errors and reports, TOML parsing, file reading and
-- argument parsing (their results are parameters), and the barrier and the temporary
-- files of the test harness.
pub mod Prelude
pub mod Backend
pub mod Program
pub mod FenceError
pub mod Layout
pub mod Checksum
pub mod Metrics
pub mod Recovery
pub mod Compaction
pub mod Engine
pub mod Catalog
pub mod Region
pub mod Allocator
pub mod Config
pub mod Tests
pub mod Crash
pub mod Concurrent
pub mod Fenced
pub mod Harness

-- ===== src/Tests/EngineRuns.antt =====
-- A pool is created, appended to twice, and read.
use fence.Prelude.{◌≡◌, refl, [], ◌∷◌, Option, some}
use fence.Prelude.Bytes.{to_le, from_le, peek, poke}
use fence.Backend.{get_le, put_le, flush_range, flush_lines, clwb}
use fence.Program.{Prog, done, run, ◌>>◌}
use fence.FenceError.{Result, ok}
use fence.Layout
use fence.Checksum
use fence.Metrics
use fence.Recovery.{scan_committed, advance_committed_tail}
use fence.Engine.{
  open_pool, write_header, append, append_at, write_record, commit_record, read_index,
  read_committed, committed_tail, Record,
}
use fence.Tests.Samples.{sample_hasher, zeros, sample_config, sample_runtime}

session : Prog (Result (Option Record))
unfolding open_pool write_header append append_at write_record commit_record read_index
    read_committed advance_committed_tail scan_committed committed_tail to_le from_le peek poke
    get_le put_le flush_range flush_lines clwb Layout.new Checksum.compute Checksum.verify
    Metrics.increment_appends Metrics.increment_bytes_written Metrics.increment_reads
session = do
  open_pool sample_config (ok tt)
  append sample_hasher sample_runtime 7 (104 ∷ 105 ∷ [])
  append sample_hasher sample_runtime 8 (1 ∷ [])
  read_index sample_hasher sample_runtime 2

second_record :
    (run session zeros).0
    ≡ done (ok (some (record { index = 2; term = 8; writer_id = 1; bytes = 1 ∷ [] })))
unfolding run session
second_record = refl

-- ===== src/Engine/Stored.antt =====
-- What a record's bytes say, and when they still say it.
use mathlib.Core.Path.{subst}
use fence.Prelude.{ℕ, ◌+◌, ◌≤◌, ◌<◌, ◌≡◌, ◌∙◌, ap, List, arith, length, true, ==_refl}
use fence.Prelude.Bytes.{Space, peek, from_le}
use fence.Backend.{get_le}
use fence.Layout.{PoolGeometry}
use fence.Metrics.Counters.{IsMapped}
use fence.Recovery.Check.{intact, bytes_at, Agree, get_le-Agree, peek-Agree}
use fence.Checksum.{Hasher, compute, verify}
use fence.Engine.{FenceRuntime}

-- The record at `r` holds these fields and this payload. The state byte is not among them.
pub record Stores (c : Space) (r term index writer crc : ℕ) (payload : List ℕ) : Type 0 where
  pub term_lem : get_le 8 c (r + 8) ≡ term
  pub index_lem : get_le 8 c (r + 16) ≡ index
  pub writer_lem : get_le 8 c (r + 24) ≡ writer
  pub len_lem : from_le (peek c (r + 32) 4) ≡ length payload
  pub crc_lem : get_le 8 c (r + 40) ≡ crc
  pub payload_lem : peek c (r + 64) (length payload) ≡ payload

-- A record lasts as long as its bytes behind the state do.
pub Stores-Agree :
    (c d : Space) (r term index writer crc : ℕ) (payload : List ℕ)
    → Agree c d (r + 1) (r + 64 + length payload)
    → Stores c r term index writer crc payload
    → Stores d r term index writer crc payload
Stores-Agree c d r term index writer crc payload h s = record {
  term_lem = get_le-Agree 8 c d (r + 8) (r + 1) hi h (omega arith) (omega arith) ∙ s.term_lem;
  index_lem = get_le-Agree 8 c d (r + 16) (r + 1) hi h (omega arith) (omega arith) ∙ s.index_lem;
  writer_lem = get_le-Agree 8 c d (r + 24) (r + 1) hi h (omega arith) (omega arith) ∙ s.writer_lem;
  len_lem =
      ap from_le (peek-Agree 4 c d (r + 32) (r + 1) hi h (omega arith) (omega arith)) ∙ s.len_lem;
  crc_lem = get_le-Agree 8 c d (r + 40) (r + 1) hi h (omega arith) (omega arith) ∙ s.crc_lem;
  payload_lem =
      peek-Agree (length payload) c d (r + 64) (r + 1) hi h (omega arith) (omega arith)
      ∙ s.payload_lem;
}
  where
    hi : ℕ
    hi = r + 64 + length payload

-- The runtime's pool lies in a memory of `size` bytes, and its host is one of the pool's.
pub record IsRuntime (rt : FenceRuntime) (size : ℕ) : Type 0 where
  pub mapped : IsMapped rt.geometry size
  pub host : rt.host_id < rt.geometry.max_hosts

module _ (h : Hasher) (g : PoolGeometry) (c : Space) (r term index writer : ℕ) (payload : List ℕ)
    (s : Stores c r term index writer (compute h term index payload) payload)
    (fit : length payload ≤ g.payload_size) where
  pub bytes-Stores : bytes_at h g c r ≡ payload
  bytes-Stores = subst (λ k. peek c (r + 64) k ≡ payload) (omega (arith, s.len_lem)) s.payload_lem

  -- A record stored with its own checksum passes the check.
  pub intact-Stores : intact h g c r ≡ true
  unfolding intact verify
  intact-Stores =
      rw (s.term_lem, s.index_lem, s.crc_lem, bytes-Stores) (==_refl (compute h term index payload))

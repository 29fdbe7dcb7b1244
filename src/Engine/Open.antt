-- ===== src/Engine/Open.antt =====
-- `open` of a new pool.
use mathlib.Core.Path.{subst}
use fence.Prelude.{
  ℕ, ◌+◌, ◌%◌, ◌≤◌, ◌<◌, ◌≡◌, refl, ◌∙◌, arith, true, false, some, ◌==◌, sym, if◌then◌else◌,
  Bool-cases, inl, inr,
}
use fence.Prelude.Bytes.{Space}
use fence.Backend.{Memory, with_cache, flushed, get_le, put_le}
use fence.Backend.Flush.{flush_range_lem, covered}
use fence.Backend.Fields.{put_le-outside, get_le-put_le_self, get_le-put_le-Apart}
use fence.Program.{Ensures, Runs, Runs-Ensures, Runs-eq}
use fence.FenceError.{Result, ok, err, invalid_magic}
use fence.Layout.{PoolGeometry, new, magic, record_offset, state_free}
use fence.Checksum.{Hasher}
use fence.Metrics.Counters.{IsMapped}
use fence.Recovery.Places.{header-Word}
use fence.Recovery.Sweep.{state_at}
use fence.Engine.{PoolConfig, FenceRuntime, open_pool, open_mapped, write_header}
use fence.Engine.Pool.{IsPool}

covered-line : (a : ℕ) → a < 64 → covered 0 64 a ≡ true
covered-line a lt = ground arith

-- The header of a new pool.
abbrev pub headed : PoolConfig → PoolGeometry → Space → Space
headed config g c =
    put_le 8
      (put_le 8
        (put_le 8
          (put_le 8 (put_le 8 (put_le 8 (put_le 8 c 0 magic) 8 config.capacity) 16 g.record_size) 24
            config.max_hosts)
          32 0)
        40 0)
      48 1

-- The geometry has the configured capacity and host count.
new-fields :
    (config : PoolConfig) (g : PoolGeometry)
    → new config.capacity config.payload_size config.max_hosts ≡ some g
    → (config.capacity ≡ g.capacity) × (config.max_hosts ≡ g.max_hosts)
unfolding new
new-fields config g made = ground arith

module _ (config : PoolConfig) (g : PoolGeometry) (m : Memory)
    (made : new config.capacity config.payload_size config.max_hosts ≡ some g)
    (v : IsMapped g m.size) where
  abbrev pub opened : FenceRuntime
  opened = record { geometry = g; host_id = config.host_id }

  word : (o : ℕ) → o ≤ 56 → o % 8 ≡ 0 → (o + 8 ≤ m.size) × (o % 8 ≡ 0)
  word o le al = header-Word g m.size o v le al

  pub create-Runs :
      config.create ≡ true
      → Runs
          (open_pool config (ok tt))
          m
          (ok opened)
          (flushed (with_cache m (headed config g m.cache)) 0 64)
  unfolding open_pool write_header
  create-Runs e =
      subst
        (λ geometry.
          Runs (open_mapped config (ok tt) geometry) m (ok opened)
            (flushed (with_cache m (headed config g m.cache)) 0 64))
        (sym made)
        (rw e (
          word 0 (omega arith) refl,
          (
            word 8 (omega arith) refl,
            (
              word 16 (omega arith) refl,
              (
                word 24 (omega arith) refl,
                (
                  word 32 (omega arith) refl,
                  (
                    word 40 (omega arith) refl,
                    (word 48 (omega arith) refl, ((word 56 (omega arith) refl).0, (refl, refl))),
                  ),
                ),
              ),
            ),
          ),
        ))

  pub headed-above : (c : Space) (a : ℕ) → 56 ≤ a → headed config g c a ≡ c a
  headed-above c a h =
      put_le-outside 8 _ 48 1 a (omega arith)
      ∙ put_le-outside 8 _ 40 0 a (omega arith)
      ∙ put_le-outside 8 _ 32 0 a (omega arith)
      ∙ put_le-outside 8 _ 24 config.max_hosts a (omega arith)
      ∙ put_le-outside 8 _ 16 g.record_size a (omega arith)
      ∙ put_le-outside 8 _ 8 config.capacity a (omega arith)
      ∙ put_le-outside 8 c 0 magic a (omega arith)

  pub reserve-headed : (c : Space) → get_le 8 (headed config g c) 40 ≡ 0
  reserve-headed c =
      get_le-put_le-Apart 8 8 _ 48 1 40 (omega arith) ∙ get_le-put_le_self 8 _ 40 0 (omega arith)

  pub tail-headed : (c : Space) → get_le 8 (headed config g c) 32 ≡ 0
  tail-headed c =
      get_le-put_le-Apart 8 8 _ 48 1 32 (omega arith)
      ∙ get_le-put_le-Apart 8 8 _ 40 0 32 (omega arith)
      ∙ get_le-put_le_self 8 _ 32 0 (omega arith)

  state-headed : (c : Space) (s : ℕ) → state_at g (headed config g c) s ≡ state_at g c s
  state-headed c s = headed-above c (record_offset g s + 0) (omega arith)

  pub magic-headed : (c : Space) → get_le 8 (headed config g c) 0 ≡ magic
  magic-headed c =
      get_le-put_le-Apart 8 8 _ 48 1 0 (omega arith)
      ∙ get_le-put_le-Apart 8 8 _ 40 0 0 (omega arith)
      ∙ get_le-put_le-Apart 8 8 _ 32 0 0 (omega arith)
      ∙ get_le-put_le-Apart 8 8 _ 24 config.max_hosts 0 (omega arith)
      ∙ get_le-put_le-Apart 8 8 _ 16 g.record_size 0 (omega arith)
      ∙ get_le-put_le-Apart 8 8 _ 8 config.capacity 0 (omega arith)
      ∙ get_le-put_le_self 8 c 0 magic (omega arith)

  epoch-headed : (c : Space) → get_le 8 (headed config g c) 48 ≡ 1
  epoch-headed c = get_le-put_le_self 8 _ 48 1 (omega arith)

  hosts-headed : (c : Space) → get_le 8 (headed config g c) 24 ≡ g.max_hosts
  hosts-headed c =
      get_le-put_le-Apart 8 8 _ 48 1 24 (omega arith)
      ∙ get_le-put_le-Apart 8 8 _ 40 0 24 (omega arith)
      ∙ get_le-put_le-Apart 8 8 _ 32 0 24 (omega arith)
      ∙ get_le-put_le_self 8 _ 24 config.max_hosts
          (omega (arith, (new-fields config g made).1, v.geometry.hosts_u16))
      ∙ (new-fields config g made).1

  size-headed : (c : Space) → get_le 8 (headed config g c) 16 ≡ g.record_size
  size-headed c =
      get_le-put_le-Apart 8 8 _ 48 1 16 (omega arith)
      ∙ get_le-put_le-Apart 8 8 _ 40 0 16 (omega arith)
      ∙ get_le-put_le-Apart 8 8 _ 32 0 16 (omega arith)
      ∙ get_le-put_le-Apart 8 8 _ 24 config.max_hosts 16 (omega arith)
      ∙ get_le-put_le_self 8 _ 16 g.record_size (omega (arith, v.geometry.record_u32))

  capacity-headed : (c : Space) → get_le 8 (headed config g c) 8 ≡ g.capacity
  capacity-headed c =
      get_le-put_le-Apart 8 8 _ 48 1 8 (omega arith)
      ∙ get_le-put_le-Apart 8 8 _ 40 0 8 (omega arith)
      ∙ get_le-put_le-Apart 8 8 _ 32 0 8 (omega arith)
      ∙ get_le-put_le-Apart 8 8 _ 24 config.max_hosts 8 (omega arith)
      ∙ get_le-put_le-Apart 8 8 _ 16 g.record_size 8 (omega arith)
      ∙ get_le-put_le_self 8 _ 8 config.capacity
          (omega (arith, (new-fields config g made).0, v.geometry.capacity_u32))
      ∙ (new-fields config g made).0

  -- What `open` answers of an existing pool, whose first word is `found`.
  abbrev pub existing : ℕ → Result FenceRuntime
  existing found = if found == magic then ok opened else err (invalid_magic magic found)

  found-magic : (found : ℕ) → (found == magic) ≡ true → existing found ≡ ok opened
  found-magic found same = rw same refl

  found-other :
      (found : ℕ) → (found == magic) ≡ false → existing found ≡ err (invalid_magic magic found)
  found-other found other = rw other refl

  -- Opening without `create` ends without failure and writes nothing. It answers a runtime with the
  -- configured geometry and host where the mapping begins with the magic number, and otherwise
  -- `InvalidMagic` with the word that was found.
  pub open_existing_lem :
      config.create ≡ false → Runs (open_pool config (ok tt)) m (existing (get_le 8 m.cache 0)) m
  unfolding open_pool
  open_existing_lem e =
      subst
        (λ geometry. Runs (open_mapped config (ok tt) geometry) m (existing (get_le 8 m.cache 0)) m)
        (sym made)
        (rw e (
          word 0 (omega arith) refl,
          elim (Bool-cases (get_le 8 m.cache 0 == magic)) [
            | inl same ↦ rw same (sym (found-magic (get_le 8 m.cache 0) same), refl)
            | inr other ↦ rw other (sym (found-other (get_le 8 m.cache 0) other), refl)
          ],
        ))

-- The header of a pool: its words but the tails, and that it is on the media.
pub record IsHeader (g : PoolGeometry) (n : Memory) : Type 0 where
  pub magic_lem : get_le 8 n.cache 0 ≡ magic
  pub capacity_lem : get_le 8 n.cache 8 ≡ g.capacity
  pub record_size_lem : get_le 8 n.cache 16 ≡ g.record_size
  pub max_hosts_lem : get_le 8 n.cache 24 ≡ g.max_hosts
  pub epoch_lem : get_le 8 n.cache 48 ≡ 1
  pub durable : (a : ℕ) → a < 64 → n.media a ≡ n.cache a

module _ (config : PoolConfig) (g : PoolGeometry) (m : Memory)
    (made : new config.capacity config.payload_size config.max_hosts ≡ some g)
    (v : IsMapped g m.size) where
  abbrev runtime : FenceRuntime
  runtime = record { geometry = g; host_id = config.host_id }

  -- The memory after the creation.
  abbrev born : Memory
  born = flushed (with_cache m (headed config g m.cache)) 0 64

  born-IsHeader : IsHeader g born
  born-IsHeader = record {
    magic_lem = magic-headed config g m made v m.cache;
    capacity_lem = capacity-headed config g m made v m.cache;
    record_size_lem = size-headed config g m made v m.cache;
    max_hosts_lem = hosts-headed config g m made v m.cache;
    epoch_lem = epoch-headed config g m made v m.cache;
    durable = λ a lt.
        flush_range_lem (headed config g m.cache) m.media 0 64 a ∙ rw (covered-line a lt) refl;
  }

  reopen-Runs : Runs (open_pool (record config { create = false }) (ok tt)) born (ok runtime) born
  reopen-Runs =
      Runs-eq (open_pool (record config { create = false }) (ok tt)) born
        (found-magic (record config { create = false }) g born made v (get_le 8 born.cache 0)
          (rw (magic-headed config g m made v m.cache) refl))
        refl (open_existing_lem (record config { create = false }) g born made v refl)

  -- Opening with `create` a mapping in which every slot is FREE answers a runtime with the configured
  -- geometry and host, and leaves a well-formed pool: empty, with both tails at 0, and with a header, in
  -- the cache and on the media, that holds the magic number, the capacity, the record size, the host
  -- count and the epoch 1. Nothing behind the first 56 bytes is changed, and opening the result without
  -- `create` answers the same runtime and changes nothing.
  pub create-IsPool :
      (h : Hasher)
      → config.host_id < g.max_hosts
      → config.create ≡ true
      → ((s : ℕ) → s < g.capacity → state_at g m.cache s ≡ state_free)
      → Ensures
          (λ res n.
            (res ≡ ok runtime)
            × IsPool h runtime n
            × (get_le 8 n.cache 32 ≡ 0)
            × (get_le 8 n.cache 40 ≡ 0)
            × IsHeader g n
            × ((a : ℕ) → 56 ≤ a → n.cache a ≡ m.cache a)
            × Runs (open_pool (record config { create = false }) (ok tt)) n (ok runtime) n)
          (open_pool config (ok tt))
          m
  create-IsPool h host e blank =
      Runs-Ensures _ (open_pool config (ok tt)) m (ok runtime) _ (create-Runs config g m made v e) (
        refl,
        record {
          runtime = record { mapped = v; host = host };
          tail_le = omega (
            arith,
            tail-headed config g m made v m.cache,
            reserve-headed config g m made v m.cache,
          );
          reserve_le = omega (arith, reserve-headed config g m made v m.cache);
          fresh = λ s lo hi. state-headed config g m made v m.cache s ∙ blank s hi;
          sound = λ s lt st.
              absurd (omega (arith, state-headed config g m made v m.cache s, blank s lt, st));
          numbered = λ s lt st.
              absurd (omega (arith, state-headed config g m made v m.cache s, blank s lt, st));
        },
        tail-headed config g m made v m.cache,
        reserve-headed config g m made v m.cache,
        born-IsHeader,
        headed-above config g m made v m.cache,
        reopen-Runs,
      )

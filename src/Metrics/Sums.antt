-- ===== src/Metrics/Sums.antt =====
-- `read_stats`: the sums of the hosts' counters.
use mathlib.Core.Path.{subst, ap₂, fun_ext}
use fence.Recovery.Check.{get_le-Agree}
use native.Mathlib.Nat.{add_assoc, add-zero}
use fence.Prelude.{ℕ, zero, suc, ◌+◌, ◌%◌, ◌^◌, ◌≤◌, ◌<◌, ◌≡◌, refl, sym, arith, lt→ltb}
use fence.Prelude.Bytes.{Space}
use fence.Backend.{Memory, get_le}
use fence.Program.{Ensures, Runs, Runs-bind, Runs-eq}
use fence.Layout.{PoolGeometry, metrics_offset}
use fence.Metrics.{PoolStats, add_counter, add_block, read_stats_from, read_stats, no_stats}
use fence.Metrics.Counters.{IsMapped, counter-Word}

-- No field reaches 2 ^ 64.
pub record IsSmall (s : PoolStats) : Type 0 where
  pub appends : s.appends_total < 2 ^ 64
  pub failed : s.appends_failed < 2 ^ 64
  pub bytes : s.bytes_written < 2 ^ 64
  pub reads : s.reads_total < 2 ^ 64
  pub failures : s.checksum_failures < 2 ^ 64
  pub runs : s.recovery_runs < 2 ^ 64
  pub abandoned : s.abandoned_found < 2 ^ 64

module _ (g : PoolGeometry) (c : Space) where
  -- The sum of one counter over `n` hosts from `host` on.
  unfoldable pub total : ℕ → ℕ → ℕ → ℕ
  total field zero host = 0
  total field (suc n) host = get_le 8 c (metrics_offset g host + field) + total field n (suc host)

  -- The same, added to each field of `s`.
  abbrev pub plus : PoolStats → ℕ → ℕ → PoolStats
  plus s n host = record {
    appends_total = s.appends_total + total 0 n host;
    appends_failed = s.appends_failed + total 8 n host;
    bytes_written = s.bytes_written + total 16 n host;
    reads_total = s.reads_total + total 24 n host;
    checksum_failures = s.checksum_failures + total 32 n host;
    recovery_runs = s.recovery_runs + total 40 n host;
    abandoned_found = s.abandoned_found + total 48 n host;
  }

  plus-zero : (s : PoolStats) (host : ℕ) → plus s 0 host ≡ s
  unfolding total
  plus-zero s host = simp (add-zero) refl

  plus-suc : (s : PoolStats) (n host : ℕ) → plus (plus s 1 host) n (suc host) ≡ plus s (suc n) host
  unfolding total
  plus-suc s n host = simp (add_assoc, add-zero) refl

  plus-IsSmall :
      (s : PoolStats) (n host : ℕ) → IsSmall (plus s (suc n) host) → IsSmall (plus s 1 host)
  unfolding total
  plus-IsSmall s n host k = record {
    appends = omega (arith, k.appends);
    failed = omega (arith, k.failed);
    bytes = omega (arith, k.bytes);
    reads = omega (arith, k.reads);
    failures = omega (arith, k.failures);
    runs = omega (arith, k.runs);
    abandoned = omega (arith, k.abandoned);
  }

-- The sums are made of the counters alone.
pub total-congr :
    (g : PoolGeometry) (c d : Space) → ((a : ℕ) → 64 ≤ a → d a ≡ c a) → total g d ≡ total g c
unfolding total
total-congr g c d same = fun_ext (λ field. fun_ext (λ n. fun_ext (λ host. go field n host)))
  where
    go : (field n host : ℕ) → total g d field n host ≡ total g c field n host
    go field zero host = refl
    go field (suc n) host =
        ap₂ ◌+◌
          (get_le-Agree 8 c d (metrics_offset g host + field) (metrics_offset g host + field)
            (metrics_offset g host + field + 8) (λ a lo hi. same a (omega arith)) (omega arith)
            (omega arith))
          (go field n (suc host))

module _ (g : PoolGeometry) (m : Memory) (v : IsMapped g m.size) where
  one-Runs :
      (field t host : ℕ)
      → host < g.max_hosts
      → field ≤ 56
      → field % 8 ≡ 0
      → t + total g m.cache field 1 host < 2 ^ 64
      → Runs (add_counter t (metrics_offset g host + field)) m (t + total g m.cache field 1 host) m
  unfolding total
  one-Runs field t host lt le al small = (
    counter-Word g host m.size field v lt le al,
    rw
        (lt→ltb (t + get_le 8 m.cache (metrics_offset g host + field)) (2 ^ 64)
          (omega (arith, small)))
        (omega arith, refl),
  )

  add_block-Runs :
      (s : PoolStats) (host : ℕ)
      → host < g.max_hosts
      → IsSmall (plus g m.cache s 1 host)
      → Runs (add_block (metrics_offset g host) s) m (plus g m.cache s 1 host) m
  unfolding add_block
  add_block-Runs s host lt k =
      Runs-bind _ _ (add_counter s.appends_total (metrics_offset g host + 0)) m _ m
        (one-Runs 0 s.appends_total host lt (omega arith) refl k.appends)
        (Runs-bind _ _ (add_counter s.appends_failed (metrics_offset g host + 8)) m _ m
          (one-Runs 8 s.appends_failed host lt (omega arith) refl k.failed)
          (Runs-bind _ _ (add_counter s.bytes_written (metrics_offset g host + 16)) m _ m
            (one-Runs 16 s.bytes_written host lt (omega arith) refl k.bytes)
            (Runs-bind _ _ (add_counter s.reads_total (metrics_offset g host + 24)) m _ m
              (one-Runs 24 s.reads_total host lt (omega arith) refl k.reads)
              (Runs-bind _ _ (add_counter s.checksum_failures (metrics_offset g host + 32)) m _ m
                (one-Runs 32 s.checksum_failures host lt (omega arith) refl k.failures)
                (Runs-bind _ _ (add_counter s.recovery_runs (metrics_offset g host + 40)) m _ m
                  (one-Runs 40 s.recovery_runs host lt (omega arith) refl k.runs)
                  (Runs-bind _ _ (add_counter s.abandoned_found (metrics_offset g host + 48)) m _ m
                    (one-Runs 48 s.abandoned_found host lt (omega arith) refl k.abandoned)
                    (refl, refl)))))))

  read_stats_from-Runs :
      (n host : ℕ) (s : PoolStats)
      → host + n ≤ g.max_hosts
      → IsSmall (plus g m.cache s n host)
      → Runs (read_stats_from g n host s) m (plus g m.cache s n host) m
  unfolding read_stats_from
  read_stats_from-Runs zero host s le k = (sym (plus-zero g m.cache s host), refl)
  read_stats_from-Runs (suc n) host s le k =
      Runs-bind _ _ (add_block (metrics_offset g host) s) m (plus g m.cache s 1 host) m
        (add_block-Runs s host (omega arith) (plus-IsSmall g m.cache s n host k))
        (Runs-eq (read_stats_from g n (suc host) (plus g m.cache s 1 host)) m
          (plus-suc g m.cache s n host) refl
          (read_stats_from-Runs n (suc host) (plus g m.cache s 1 host) (omega arith)
            (subst (IsSmall) (sym (plus-suc g m.cache s n host)) k)))

  -- What `stats` has to answer.
  abbrev pub sums : PoolStats
  sums = plus g m.cache no_stats g.max_hosts 0

  -- `read_stats` on a mapped pool, where no sum reaches 2 ^ 64, ends without failure, answers for each
  -- counter the sum over all hosts, and changes nothing.
  pub read_stats_lem : IsSmall sums → Ensures (λ s n. (s ≡ sums) × (n ≡ m)) (read_stats g) m
  unfolding read_stats
  read_stats_lem k = read_stats_from-Runs g.max_hosts 0 no_stats (omega arith) k

-- ===== src/Engine/Full.antt =====
-- `append` to a full pool.
use native.Mathlib.Nat.{mod-eq_of_lt}
use fence.Prelude.{ℕ, ◌+◌, ◌-◌, ◌%◌, ◌^◌, ◌≤◌, ◌<◌, ◌≡◌, ◌⊎◌, refl, ◌∙◌, List, arith, length}
use fence.Prelude.Bytes.{Space}
use fence.Backend.{Memory, with_cache, get_le, put_le, u64_mod}
use fence.Backend.Fields.{put_le-outside, get_le-put_le_self}
use fence.Program.{Ensures, Runs-Ensures}
use fence.FenceError.{err, pool_full}
use fence.Layout.{metrics_offset}
use fence.Checksum.{Hasher}
use fence.Recovery.Check.{get_le-Agree}
use fence.Metrics.Counters.{counted-below}
use fence.Engine.{FenceRuntime, append}
use fence.Engine.Stored.{IsRuntime}
use fence.Engine.Append.{reserved, refused, append-refused}

module _ (h : Hasher) (rt : FenceRuntime) (m : Memory) (term : ℕ) (payload : List ℕ)
    (v : IsRuntime rt m.size) (full : rt.geometry.capacity ≤ get_le 8 m.cache 40)
    (small : get_le 8 m.cache 40 + 1 < 2 ^ 64)
    (fit : length payload ≤ rt.geometry.payload_size) where
  abbrev tail : ℕ
  tail = get_le 8 m.cache 40

  abbrev c₁ : Space
  c₁ = (reserved h rt m).cache

  abbrev back : ℕ
  back = (get_le 8 c₁ 40 + (u64_mod - 1)) % u64_mod

  tail₁ : get_le 8 c₁ 40 ≡ tail + 1
  tail₁ =
      get_le-put_le_self 8 m.cache 40 ((tail + 1) % u64_mod) (omega arith)
      ∙ mod-eq_of_lt {n = tail + 1} {m = u64_mod} small

  back_lem : back ≡ tail
  back_lem = omega (arith, tail₁)

  pub kept :
      (a : ℕ)
      → (a < 40) ⊎ (48 ≤ a)
      → a < metrics_offset rt.geometry rt.host_id
      → (refused h rt m).cache a ≡ m.cache a
  kept a out below =
      counted-below rt.geometry rt.host_id (with_cache m (put_le 8 c₁ 40 back)) 8 1 a below
      ∙ put_le-outside 8 c₁ 40 back a out
      ∙ put_le-outside 8 m.cache 40 ((tail + 1) % u64_mod) a out

  pub reserve_kept : get_le 8 (refused h rt m).cache 40 ≡ tail
  reserve_kept =
      get_le-Agree 8 (put_le 8 c₁ 40 back) (refused h rt m).cache 40 40 48
        (λ a lo hi.
          counted-below rt.geometry rt.host_id (with_cache m (put_le 8 c₁ 40 back)) 8 1 a
            (omega arith))
        (omega arith) (omega arith)
      ∙ get_le-put_le_self 8 c₁ 40 back (omega arith)
      ∙ back_lem

  -- An append to a full pool, of a payload that fits, ends without failure and answers `PoolFull` with
  -- the capacity and the tail. It takes its reservation back: `reserve_tail` is what it was, and no other
  -- byte below the host's metrics block changes, neither in the header nor in a record.
  pub append-full :
      Ensures
        (λ res n.
          (res ≡ err (pool_full rt.geometry.capacity tail))
          × (get_le 8 n.cache 40 ≡ tail)
          × ((a : ℕ)
              → (a < 40) ⊎ (48 ≤ a)
              → a < metrics_offset rt.geometry rt.host_id
              → n.cache a ≡ m.cache a))
        (append h rt term payload)
        m
  append-full =
      Runs-Ensures _ (append h rt term payload) m _ (refused h rt m)
        (append-refused h rt m term payload v full fit) (refl, reserve_kept, kept)

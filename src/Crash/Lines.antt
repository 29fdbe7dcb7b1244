-- ===== src/Crash/Lines.antt =====
-- Bytes that an operation or an eviction leaves alone.
use fence.Prelude.{
  ℕ, ◌+◌, ◌/◌, ◌≤◌, ◌<◌, ◌≡◌, ◌⊎◌, refl, ◌∙◌, arith, inl, inr, not, ◌&&◌, leb, ltb, ◌*◌, Bool-cases,
  ◌==◌,
}
use fence.Prelude.Bytes.{Space, poke-outside, to_le, length-to_le}
use fence.Backend.{
  Op, Memory, exec, clwb, read, write, load_u64, store_u64, fetch_add_u64, compare_exchange_u64,
  load_u8, store_u8, flush, flush_range, get_le,
}
use fence.Backend.Fields.{put_le-outside}
use fence.Backend.Flush.{flush_range_lem}
use fence.Recovery.Check.{get_le-Agree}
use fence.Crash.{Spares}

-- An operation that spares a range keeps its bytes in the cache.
pub cache-Spares :
    (lo hi : ℕ) (o : Op) (m : Memory) (a : ℕ)
    → Spares lo hi o
    → lo ≤ a
    → a < hi
    → (exec o m).1.cache a ≡ m.cache a
cache-Spares lo hi (read o n) m a s l u = refl
cache-Spares lo hi (write o bs) m a s l u = poke-outside m.cache o bs a (omega arith)
cache-Spares lo hi (load_u64 o) m a s l u = refl
cache-Spares lo hi (store_u64 o v) m a s l u = put_le-outside 8 m.cache o v a (omega arith)
cache-Spares lo hi (fetch_add_u64 o d) m a s l u = put_le-outside 8 m.cache o _ a (omega arith)
cache-Spares lo hi (compare_exchange_u64 o e d) m a s l u =
    elim (Bool-cases (get_le 8 m.cache o == e)) [
      | inl same ↦ rw same (put_le-outside 8 m.cache o d a (omega arith))
      | inr not_same ↦ rw not_same
    ]
cache-Spares lo hi (load_u8 o) m a s l u = refl
cache-Spares lo hi (store_u8 o v) m a s l u =
    poke-outside m.cache o (to_le 1 v) a (omega (arith, length-to_le 1 v))
cache-Spares lo hi (flush o n) m a s l u = refl

-- `media'` has each cacheline from `media` or from `cache`, whole.
abbrev pub LineWise : Space → Space → Space → Type 0
LineWise cache media media' =
    (line : ℕ)
    → ((a : ℕ) → a / 64 ≡ line → media' a ≡ media a)
      ⊎ ((a : ℕ) → a / 64 ≡ line → media' a ≡ cache a)

clwb-LineWise : (cache media : Space) (ptr : ℕ) → LineWise cache media (clwb cache media ptr)
unfolding clwb
clwb-LineWise cache media ptr line = elim (Bool-cases (line == ptr / 64)) [
  | inl hit ↦ inr (λ a e. rw (e, hit))
  | inr miss ↦ inl (λ a e. rw (e, miss))
]

pub flush-LineWise :
    (cache media : Space) (addr len : ℕ) → LineWise cache media (flush_range cache media addr len)
flush-LineWise cache media addr len line =
    elim (Bool-cases (not (len == 0) && (leb (addr / 64) line && ltb (line * 64) (addr + len)))) [
      | inl hit ↦ inr (λ a e. flush_range_lem cache media addr len a ∙ rw (e, hit))
      | inr miss ↦ inl (λ a e. flush_range_lem cache media addr len a ∙ rw (e, miss))
    ]

pub media-LineWise : (o : Op) (m : Memory) → LineWise m.cache m.media (exec o m).1.media
media-LineWise (read o n) m line = inl (λ a e. refl)
media-LineWise (write o bs) m line = inl (λ a e. refl)
media-LineWise (load_u64 o) m line = inl (λ a e. refl)
media-LineWise (store_u64 o v) m line = inl (λ a e. refl)
media-LineWise (fetch_add_u64 o d) m line = inl (λ a e. refl)
media-LineWise (compare_exchange_u64 o e d) m line = elim (Bool-cases (get_le 8 m.cache o == e)) [
  | inl same ↦ inl (λ a l. rw same)
  | inr not_same ↦ inl (λ a l. rw not_same)
]
media-LineWise (load_u8 o) m line = inl (λ a e. refl)
media-LineWise (store_u8 o v) m line = inl (λ a e. refl)
media-LineWise (flush o n) m line = flush-LineWise m.cache m.media o n line

pub evict-LineWise : (m : Memory) (ptr : ℕ) → LineWise m.cache m.media (clwb m.cache m.media ptr)
evict-LineWise m ptr = clwb-LineWise m.cache m.media ptr

-- So one byte of the media is the old one or the cached one,
pub LineWise-byte :
    (cache media media' : Space) (a : ℕ)
    → LineWise cache media media'
    → (media' a ≡ media a) ⊎ (media' a ≡ cache a)
LineWise-byte cache media media' a w = elim (w (a / 64)) [
  | inl old ↦ inl (old a refl)
  | inr new ↦ inr (new a refl)
]

-- and so is a word within a line.
pub LineWise-word :
    (cache media media' : Space) (o : ℕ)
    → o / 64 ≡ (o + 7) / 64
    → LineWise cache media media'
    → (get_le 8 media' o ≡ get_le 8 media o) ⊎ (get_le 8 media' o ≡ get_le 8 cache o)
LineWise-word cache media media' o one w = elim (w (o / 64)) [
  | inl old ↦ inl (
      get_le-Agree 8 media media' o o (o + 8) (λ a lo hi. old a (omega arith)) (omega arith)
        (omega arith))
  | inr new ↦ inr (
      get_le-Agree 8 cache media' o o (o + 8) (λ a lo hi. new a (omega arith)) (omega arith)
        (omega arith))
]

-- ===== src/Backend.antt =====
-- crates/fence-core/src/backend.rs, mmap_backend.rs and persistence.rs: the operations of the
-- `MemoryBackend` trait, and what `MmapBackend` does on each.
-- The mapping is a space of bytes twice over: `cache` is what loads and stores see, `media` what has
-- reached the persistence domain. The mapping is page aligned, so an address is aligned as its offset.
-- Memory orderings are not modelled: every operation is one indivisible step on the cache.
pub mod Flush
pub mod Fields
use fence.Prelude.{
  ℕ, zero, suc, ◌+◌, ◌-◌, ◌%◌, ◌^◌, ◌/◌, ◌≤◌, ◌<◌, ◌≡◌, Bool, List, length, ltb, ◌==◌,
  if◌then◌else◌,
}
use fence.Prelude.Bytes.{Space, peek, poke, to_le, from_le}

abbrev pub cacheline : ℕ
cacheline = 64

abbrev pub u64_mod : ℕ
u64_mod = 2 ^ 64

pub record Memory : Type 0 where
  pub size : ℕ
  pub cache : Space
  pub media : Space

-- What `compare_exchange_u64` answers: `swapped` is `Ok`, `actual` is `Err`.
pub data Exchange : Type 0 where
  swapped : ℕ → Exchange
  actual : ℕ → Exchange

pub data Op : Type 0 where
  read : ℕ → ℕ → Op
  write : ℕ → List ℕ → Op
  load_u64 : ℕ → Op
  store_u64 : ℕ → ℕ → Op
  fetch_add_u64 : ℕ → ℕ → Op
  compare_exchange_u64 : ℕ → ℕ → ℕ → Op
  load_u8 : ℕ → Op
  store_u8 : ℕ → ℕ → Op
  flush : ℕ → ℕ → Op

abbrev pub Reply : Op → Type 0
Reply (read o n) = List ℕ
Reply (write o bs) = Unit {0}
Reply (load_u64 o) = ℕ
Reply (store_u64 o v) = Unit {0}
Reply (fetch_add_u64 o d) = ℕ
Reply (compare_exchange_u64 o e d) = Exchange
Reply (load_u8 o) = ℕ
Reply (store_u8 o v) = Unit {0}
Reply (flush o n) = Unit {0}

-- The number in `n` bytes at `o`, and the space with `v` stored there.
unfoldable pub get_le : ℕ → Space → ℕ → ℕ
get_le n c o = from_le (peek c o n)

unfoldable pub put_le : ℕ → Space → ℕ → ℕ → Space
put_le n c o v = poke c o (to_le n v)

-- `clwb`: the cacheline that holds `ptr` is written back.
unfoldable pub clwb : Space → Space → ℕ → Space
clwb cache media ptr a = if a / cacheline == ptr / cacheline then cache a else media a

-- `while ptr < end { clwb(ptr); ptr += cacheline }`, on fuel.
unfoldable pub flush_lines : ℕ → Space → Space → ℕ → ℕ → Space
flush_lines zero cache media ptr end = media
flush_lines (suc fuel) cache media ptr end =
    let rest = flush_lines fuel cache (clwb cache media ptr) (ptr + cacheline) end in
    if ltb ptr end then rest else media

-- `flush_range`: the start is rounded down to its cacheline.
unfoldable pub flush_range : Space → Space → ℕ → ℕ → Space
unfolding flush_lines
flush_range cache media addr len =
    if len == 0
    then media
    else flush_lines (len + 1) cache media (addr - addr % cacheline) (addr + len)

abbrev pub with_cache : Memory → Space → Memory
with_cache m c = record m { cache = c }

abbrev pub flushed : Memory → ℕ → ℕ → Memory
flushed m o n = record m { media = flush_range m.cache m.media o n }

-- A u8 or u64 argument is the value modulo its width.
abbrev pub exec : (o : Op) → Memory → Reply o × Memory
exec (read o n) m = (peek m.cache o n, m)
exec (write o bs) m = (tt, with_cache m (poke m.cache o bs))
exec (load_u64 o) m = (get_le 8 m.cache o, m)
exec (store_u64 o v) m = (tt, with_cache m (put_le 8 m.cache o v))
exec (fetch_add_u64 o d) m =
    let v = get_le 8 m.cache o in (v, with_cache m (put_le 8 m.cache o ((v + d) % u64_mod)))
exec (compare_exchange_u64 o e d) m =
    let v = get_le 8 m.cache o in
    if v == e then (swapped v, with_cache m (put_le 8 m.cache o d)) else (actual v, m)
exec (load_u8 o) m = (m.cache o, m)
exec (store_u8 o v) m = (tt, with_cache m (poke m.cache o (to_le 1 v)))
exec (flush o n) m = (tt, flushed m o n)

-- The `debug_assert!`s of the backend: in bounds, and aligned where the access is atomic on 8 bytes.
abbrev pub Word : ℕ → ℕ → Type 0
Word size o = (o + 8 ≤ size) × (o % 8 ≡ 0)

abbrev pub Asserts : Op → ℕ → Type 0
Asserts (read o n) size = o + n ≤ size
Asserts (write o bs) size = o + length bs ≤ size
Asserts (load_u64 o) size = Word size o
Asserts (store_u64 o v) size = Word size o
Asserts (fetch_add_u64 o d) size = Word size o
Asserts (compare_exchange_u64 o e d) size = Word size o
Asserts (load_u8 o) size = o < size
Asserts (store_u8 o v) size = o < size
Asserts (flush o n) size = o + n ≤ size

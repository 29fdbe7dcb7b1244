-- ===== src/Region.antt =====
-- crates/fence-alloc/src/region.rs: the handle of an allocated region.
use fence.Prelude.{ℕ, ◌+◌, ◌&&◌, Bool, false, List, Option, none, some, leb, ltb, if◌then◌else◌}
use fence.Backend.{u64_mod}

pub record RegionHandle : Type 0 where
  pub slot : ℕ
  pub name : List ℕ
  pub offset : ℕ
  pub size : ℕ

-- `none` is the panic of a sum that overflows; the sums are computed behind `&&` alone.
unfoldable pub contains : RegionHandle → ℕ → ℕ → Option Bool
contains r byte_offset len =
    if leb r.offset byte_offset
    then (if ltb (byte_offset + len) u64_mod && ltb (r.offset + r.size) u64_mod
        then some (leb (byte_offset + len) (r.offset + r.size))
        else none)
    else some false

unfoldable pub absolute_offset : RegionHandle → ℕ → Option ℕ
absolute_offset r relative =
    if ltb (r.offset + relative) u64_mod then some (r.offset + relative) else none

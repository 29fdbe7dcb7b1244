-- ===== src/Recovery/Check.antt =====
-- What the fields of a record are, and when its checksum is right.
use fence.Prelude.{
  ℕ, zero, suc, ◌+◌, ◌%◌, ◌≤◌, ◌<◌, ◌≡◌, refl, ◌∙◌, ap, List, arith, min, Bool, lt→ltb,
}
use fence.Prelude.Bytes.{Space, peek, from_le, peek-congr}
use fence.Backend.{Memory, get_le}
use fence.Program.{Runs, Runs-bind}
use fence.Layout.{PoolGeometry}
use fence.Checksum.{Hasher, verify}
use fence.Recovery.{read_payload, check_record}

-- `d` has the bytes of `c` in `[lo, hi)`.
abbrev pub Agree : Space → Space → ℕ → ℕ → Type 0
Agree c d lo hi = (a : ℕ) → lo ≤ a → a < hi → d a ≡ c a

pub peek-Agree :
    (n : ℕ) (c d : Space) (o lo hi : ℕ)
    → Agree c d lo hi
    → lo ≤ o
    → o + n ≤ hi
    → peek d o n ≡ peek c o n
peek-Agree n c d o lo hi h l u = peek-congr d c o n (λ a p q. h a (omega arith) (omega arith))

pub get_le-Agree :
    (n : ℕ) (c d : Space) (o lo hi : ℕ)
    → Agree c d lo hi
    → lo ≤ o
    → o + n ≤ hi
    → get_le n d o ≡ get_le n c o
unfolding get_le
get_le-Agree n c d o lo hi h l u = ap from_le (peek-Agree n c d o lo hi h l u)

-- The place of a record in a memory of `size` bytes: aligned, and inside.
pub record Fits (g : PoolGeometry) (size r : ℕ) : Type 0 where
  pub aligned : r % 8 ≡ 0
  pub above : 64 ≤ r
  pub inside : r + g.record_size ≤ size
  pub sized : g.record_size ≡ 64 + g.payload_size

module _ (h : Hasher) (g : PoolGeometry) where
  -- The length that the code reads, and the payload.
  abbrev pub len_at : Space → ℕ → ℕ
  len_at c r = min (from_le (peek c (r + 32) 4)) g.payload_size

  abbrev pub bytes_at : Space → ℕ → List ℕ
  bytes_at c r = peek c (r + 64) (len_at c r)

  unfoldable pub intact : Space → ℕ → Bool
  intact c r =
      verify h (get_le 8 c (r + 8)) (get_le 8 c (r + 16)) (bytes_at c r) (get_le 8 c (r + 40))

  pub read_payload-Runs :
      (m : Memory) (o n : ℕ) → o + n ≤ m.size → Runs (read_payload o n) m (peek m.cache o n) m
  unfolding peek
  read_payload-Runs m o zero fits = (refl, refl)
  read_payload-Runs m o (suc n) fits = rw (lt→ltb 0 (suc n) (omega arith)) (fits, (refl, refl))

  pub check_record-Runs :
      (m : Memory) (r : ℕ) → Fits g m.size r → Runs (check_record h g r) m (intact m.cache r) m
  unfolding check_record intact
  check_record-Runs m r f = (
    omega arith,
    (
      omega arith,
      (
        omega arith,
        (
          omega arith,
          Runs-bind _ _ (read_payload (r + 64) (len_at m.cache r)) m (bytes_at m.cache r) m
              (read_payload-Runs m (r + 64) (len_at m.cache r) (omega arith)) (refl, refl),
        ),
      ),
    ),
  )

  pub bytes-Agree :
      (c d : Space) (r : ℕ)
      → Agree c d (r + 1) (r + 64 + g.payload_size)
      → bytes_at d r ≡ bytes_at c r
  bytes-Agree c d r same =
      peek-Agree (len_at d r) c d (r + 64) (r + 1) (r + 64 + g.payload_size) same (omega arith)
        (omega arith)
      ∙ ap (λ bs. peek c (r + 64) (min (from_le bs) g.payload_size))
          (peek-Agree 4 c d (r + 32) (r + 1) (r + 64 + g.payload_size) same (omega arith)
            (omega arith))

  -- The answer depends on the bytes behind the state alone.
  pub intact-Agree :
      (c d : Space) (r : ℕ) → Agree c d (r + 1) (r + 64 + g.payload_size) → intact d r ≡ intact c r
  unfolding intact
  intact-Agree c d r same = cc (
    word 8 (omega arith) (omega arith),
    word 16 (omega arith) (omega arith),
    word 40 (omega arith) (omega arith),
    bytes-Agree c d r same,
  )
    where
      word : (o : ℕ) → 1 ≤ o → o ≤ 40 → get_le 8 d (r + o) ≡ get_le 8 c (r + o)
      word o lo hi =
          get_le-Agree 8 c d (r + o) (r + 1) (r + 64 + g.payload_size) same (omega arith)
            (omega arith)

-- ===== src/Engine/Write.antt =====
-- `append`, steps 3 to 7: the record that is written.
use native.Mathlib.Nat.{mod-eq_of_lt}
use fence.Prelude.{
  ℕ, suc, ◌+◌, ◌^◌, ◌≤◌, ◌<◌, ◌≡◌, refl, ◌∙◌, ap, sym, List, [], ◌∷◌, arith, length, lt→ltb, as_u32,
  ◌⊎◌,
}
use fence.Prelude.Bytes.{
  Space, peek, poke, to_le, from_le, length-to_le, peek-poke_self, peek-poke-Apart, poke-nil,
  poke-outside,
}
use fence.Backend.{Memory, with_cache, flushed, get_le, put_le}
use fence.Backend.Fields.{
  get_le-put_le_self, get_le-poke-Apart, get_le-put_le-Apart, peek-put_le-Apart, put_le-outside,
}
use fence.Program.{Runs}
use fence.Checksum.{Hasher, compute, compute_lt}
use fence.Engine.{FenceRuntime, write_record, commit_record}
use fence.Engine.Stored.{Stores}
use fence.Recovery.Check.{Fits}

-- Step 7 changes the state byte alone, and flushes its cacheline.
abbrev pub committed : Memory → ℕ → Memory
committed m r = flushed (with_cache m (poke m.cache (r + 0) (to_le 1 2))) r 64

module _ (h : Hasher) (rt : FenceRuntime) where
  -- The cache once the fields of a record are written at `r`.
  abbrev pub written : ℕ → ℕ → ℕ → List ℕ → Space → Space
  written r index term payload c =
      put_le 8
        (poke
          (poke
            (put_le 8 (put_le 8 (put_le 8 (poke c (r + 0) (to_le 1 1)) (r + 8) term) (r + 16) index)
              (r + 24) rt.host_id)
            (r + 32) (to_le 4 (as_u32 (length payload))))
          (r + 64) payload)
        (r + 40) (compute h term index payload)

  pub write_record-Runs :
      (m : Memory) (r index term : ℕ) (payload : List ℕ)
      → Fits rt.geometry m.size r
      → length payload ≤ rt.geometry.payload_size
      → Runs
          (write_record h rt r index term payload)
          m
          tt
          (flushed (with_cache m (written r index term payload m.cache)) r rt.geometry.record_size)
  unfolding write_record
  write_record-Runs m r index term [] f fit = (
    omega arith,
    (
      omega arith,
      (
        omega arith,
        (
          omega arith,
          (
            omega (arith, length-to_le 4 0),
            (
              omega arith,
              (
                omega arith,
                (
                  refl,
                  ap (λ c. flushed (with_cache m (put_le 8 c (r + 40) crc)) r size)
                      (sym (poke-nil _ (r + 64))),
                ),
              ),
            ),
          ),
        ),
      ),
    ),
  )
    where
      crc : ℕ
      crc = compute h term index []

      size : ℕ
      size = rt.geometry.record_size
  write_record-Runs m r index term (b ∷ bs) f fit = rw (lt→ltb 0 (suc (length bs)) (omega arith)) (
    omega arith,
    (
      omega arith,
      (
        omega arith,
        (
          omega arith,
          (
            omega (arith, length-to_le 4 (as_u32 (suc (length bs)))),
            (omega arith, (omega arith, (omega arith, (refl, refl)))),
          ),
        ),
      ),
    ),
  )

  -- Neither the length, nor the payload, nor the checksum covers the first three fields.
  head-written :
      (c : Space) (r o : ℕ) (len payload : List ℕ) (crc : ℕ)
      → length len ≡ 4
      → o + 8 ≤ r + 32
      → get_le 8 (put_le 8 (poke (poke c (r + 32) len) (r + 64) payload) (r + 40) crc) o
        ≡ get_le 8 c o
  head-written c r o len payload crc four below =
      get_le-put_le-Apart 8 8 _ (r + 40) crc o (omega arith)
      ∙ get_le-poke-Apart 8 _ (r + 64) payload o (omega arith)
      ∙ get_le-poke-Apart 8 c (r + 32) len o (omega arith)

  len-written :
      (c : Space) (r v : ℕ) (payload : List ℕ) (crc : ℕ)
      → v < 2 ^ 32
      → from_le (
          peek
            (put_le 8 (poke (poke c (r + 32) (to_le 4 v)) (r + 64) payload) (r + 40) crc)
            (r + 32)
            4)
        ≡ v
  unfolding get_le put_le
  len-written c r v payload crc small =
      ap from_le (
        peek-poke-Apart _ (r + 40) (to_le 8 crc) (r + 32) 4 (omega (arith, length-to_le 8 crc))
        ∙ peek-poke-Apart _ (r + 64) payload (r + 32) 4 (omega arith))
      ∙ get_le-put_le_self 4 c (r + 32) v small

  -- The record that was written says what was asked, whatever the memory held.
  pub written-Stores :
      (c : Space) (r index term : ℕ) (payload : List ℕ)
      → term < 2 ^ 64
      → index < 2 ^ 64
      → rt.host_id < 2 ^ 64
      → length payload < 2 ^ 32
      → Stores
          (written r index term payload c)
          r
          term
          index
          rt.host_id
          (compute h term index payload)
          payload
  written-Stores c r index term payload ht hi hh hl = record {
    term_lem =
        head-written _ r (r + 8) len payload crc four (omega arith)
        ∙ get_le-put_le-Apart 8 8 _ (r + 24) rt.host_id (r + 8) (omega arith)
        ∙ get_le-put_le-Apart 8 8 _ (r + 16) index (r + 8) (omega arith)
        ∙ get_le-put_le_self 8 _ (r + 8) term ht;
    index_lem =
        head-written _ r (r + 16) len payload crc four (omega arith)
        ∙ get_le-put_le-Apart 8 8 _ (r + 24) rt.host_id (r + 16) (omega arith)
        ∙ get_le-put_le_self 8 _ (r + 16) index hi;
    writer_lem =
        head-written _ r (r + 24) len payload crc four (omega arith)
        ∙ get_le-put_le_self 8 _ (r + 24) rt.host_id hh;
    len_lem =
        len-written _ r (as_u32 (length payload)) payload crc (omega arith)
        ∙ mod-eq_of_lt {n = length payload} {m = 2 ^ 32} hl;
    crc_lem = get_le-put_le_self 8 _ (r + 40) crc (omega (arith, compute_lt h term index payload));
    payload_lem =
        peek-put_le-Apart 8 _ (r + 40) crc (r + 64) (length payload) (omega arith)
        ∙ peek-poke_self _ (r + 64) payload;
  }
    where
      crc : ℕ
      crc = compute h term index payload

      len : List ℕ
      len = to_le 4 (as_u32 (length payload))

      four : length len ≡ 4
      four = length-to_le 4 (as_u32 (length payload))

  -- Outside the record nothing is written.
  pub written-outside :
      (c : Space) (r index term : ℕ) (payload : List ℕ) (a : ℕ)
      → (a < r) ⊎ (r + 64 + length payload ≤ a)
      → written r index term payload c a ≡ c a
  written-outside c r index term payload a out =
      put_le-outside 8 _ (r + 40) _ a (omega arith)
      ∙ poke-outside _ (r + 64) payload a (omega arith)
      ∙ poke-outside _ (r + 32) len a (omega (arith, length-to_le 4 (as_u32 (length payload))))
      ∙ put_le-outside 8 _ (r + 24) _ a (omega arith)
      ∙ put_le-outside 8 _ (r + 16) _ a (omega arith)
      ∙ put_le-outside 8 _ (r + 8) _ a (omega arith)
      ∙ poke-outside c (r + 0) (to_le 1 1) a (omega (arith, length-to_le 1 1))
    where
      len : List ℕ
      len = to_le 4 (as_u32 (length payload))

  pub commit_record-Runs :
      (m : Memory) (r : ℕ)
      → Fits rt.geometry m.size r
      → Runs (commit_record h rt r) m tt (committed m r)
  unfolding commit_record
  commit_record-Runs m r f = (omega arith, (omega arith, (refl, refl)))

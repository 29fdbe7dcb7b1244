-- ===== src/Allocator/Write.antt =====
-- What `write_entry` leaves in the catalog, and how it reads.
use fence.Prelude.{
  ℕ, ◌+◌, ◌^◌, ◌≤◌, ◌<◌, ◌≡◌, refl, sym, ◌∙◌, ap, arith, List, [], ◌∷◌, min, length, take,
  length-take, if◌then◌else◌, Bool-cases, inl, inr, ltb, leb, ◌&&◌, lt→ltb, ◌⊎◌,
}
use fence.Prelude.Bytes.{
  Space, peek, poke, to_le, from_le, length-to_le, peek-poke_self, peek-poke-Apart, poke-nil,
  poke-outside,
}
use fence.Backend.{Memory, with_cache, flushed, get_le, put_le}
use fence.Backend.Fields.{
  get_le-put_le_self, get_le-put_le-Apart, peek-put_le-Apart, put_le-outside,
}
use fence.Program.{Runs, Runs-bind}
use fence.Catalog.{
  CatalogEntry, as_u8, state_of, entry_offset, write_entry, write_name, max_name_len,
}
use fence.Allocator.{RegionAllocator}
use fence.Allocator.Entries.{IsCatalog, name_at, entry_at}

abbrev name_len : List ℕ → ℕ
name_len name = min (length name) max_name_len

-- The cache once the fields of an entry but its state are written at `o`.
abbrev pub fields : Space → ℕ → CatalogEntry → Space
fields c o e =
    put_le 8
      (put_le 8
        (put_le 8
          (poke (poke c (o + 2) (to_le 2 (name_len e.name))) (o + 4)
            (take (name_len e.name) e.name))
          (o + 32) e.offset)
        (o + 40) e.size)
      (o + 48) e.created_epoch

abbrev pub entered : Memory → ℕ → CatalogEntry → Memory
entered m o e =
    let m₁ = flushed (with_cache m (fields m.cache o e)) o 64 in
    flushed (with_cache m₁ (poke m₁.cache (o + 0) (to_le 1 (as_u8 e.state)))) o 64

take_all : (xs : List ℕ) (n : ℕ) → n ≡ length xs → take n xs ≡ xs
take_all [] n h = rw h
take_all (x ∷ xs) n h = rw h (ap (λ ys. x ∷ ys) (take_all xs (length xs) refl))

fields-outside :
    (c : Space) (o : ℕ) (e : CatalogEntry) (p : ℕ)
    → (p < o + 2) ⊎ (o + 64 ≤ p)
    → fields c o e p ≡ c p
fields-outside c o e p out =
    put_le-outside 8 _ (o + 48) e.created_epoch p (omega arith)
    ∙ put_le-outside 8 _ (o + 40) e.size p (omega arith)
    ∙ put_le-outside 8 _ (o + 32) e.offset p (omega arith)
    ∙ poke-outside _ (o + 4) (take (name_len e.name) e.name) p
        (omega (arith, length-take (name_len e.name) e.name))
    ∙ poke-outside c (o + 2) (to_le 2 (name_len e.name)) p
        (omega (arith, length-to_le 2 (name_len e.name)))

pub entered-outside :
    (m : Memory) (o : ℕ) (e : CatalogEntry) (p : ℕ)
    → (p < o) ⊎ (o + 64 ≤ p)
    → (entered m o e).cache p ≡ m.cache p
entered-outside m o e p out =
    poke-outside (fields m.cache o e) (o + 0) (to_le 1 (as_u8 e.state)) p
      (omega (arith, length-to_le 1 (as_u8 e.state)))
    ∙ fields-outside m.cache o e p (omega arith)

module _ (c : Space) (o : ℕ) (e : CatalogEntry) where
  offset-fields : e.offset < 2 ^ 64 → get_le 8 (fields c o e) (o + 32) ≡ e.offset
  offset-fields h =
      get_le-put_le-Apart 8 8 _ (o + 48) e.created_epoch (o + 32) (omega arith)
      ∙ get_le-put_le-Apart 8 8 _ (o + 40) e.size (o + 32) (omega arith)
      ∙ get_le-put_le_self 8 _ (o + 32) e.offset h

  size-fields : e.size < 2 ^ 64 → get_le 8 (fields c o e) (o + 40) ≡ e.size
  size-fields h =
      get_le-put_le-Apart 8 8 _ (o + 48) e.created_epoch (o + 40) (omega arith)
      ∙ get_le-put_le_self 8 _ (o + 40) e.size h

  peek-fields :
      (p n : ℕ)
      → p + n ≤ o + 32
      → peek (fields c o e) p n
        ≡ peek
            (poke
              (poke c (o + 2) (to_le 2 (name_len e.name)))
              (o + 4)
              (take (name_len e.name) e.name))
            p
            n
  peek-fields p n h =
      peek-put_le-Apart 8 _ (o + 48) e.created_epoch p n (omega arith)
      ∙ peek-put_le-Apart 8 _ (o + 40) e.size p n (omega arith)
      ∙ peek-put_le-Apart 8 _ (o + 32) e.offset p n (omega arith)

  len-fields : from_le (peek (fields c o e) (o + 2) 2) ≡ name_len e.name
  unfolding get_le put_le
  len-fields =
      ap from_le (
        peek-fields (o + 2) 2 (omega arith)
        ∙ peek-poke-Apart _ (o + 4) (take (name_len e.name) e.name) (o + 2) 2 (omega arith))
      ∙ get_le-put_le_self 2 c (o + 2) (name_len e.name) (omega arith)

  bytes-fields : length e.name ≤ 24 → peek (fields c o e) (o + 4) (length e.name) ≡ e.name
  bytes-fields short =
      peek-fields (o + 4) (length e.name) (omega arith)
      ∙ ap
          (λ bs.
            peek (poke (poke c (o + 2) (to_le 2 (name_len e.name))) (o + 4) bs) (o + 4)
              (length e.name))
          (take_all e.name (name_len e.name) (omega arith))
      ∙ peek-poke_self _ (o + 4) e.name

nil_of : (name : List ℕ) → length name ≡ 0 → name ≡ []
nil_of [] h = refl
nil_of (b ∷ bs) h = absurd (omega (arith, h))

module _ (lossy : List ℕ → List ℕ) where
  name_at-bytes :
      (d : Space) (o : ℕ) (name : List ℕ)
      → length name ≤ 24
      → lossy name ≡ name
      → from_le (peek d (o + 2) 2) ≡ length name
      → peek d (o + 4) (length name) ≡ name
      → name_at lossy d o ≡ name
  name_at-bytes d o name short clean len bytes =
      ap (λ n. if ltb 0 n && leb n max_name_len then lossy (peek d (o + 4) n) else []) len
      ∙ elim (Bool-cases (ltb 0 (length name) && leb (length name) max_name_len)) [
        | inl some_bytes ↦ rw some_bytes (ap lossy bytes ∙ clean)
        | inr none_there ↦ rw none_there (sym (nil_of name (ground arith)))
      ]

module _ (lossy : List ℕ → List ℕ) (c : Space) (o : ℕ) (e : CatalogEntry) where
  -- An entry whose name is UTF-8 of at most 24 bytes is read back as it was written.
  pub entry_at-fields :
      length e.name ≤ 24
      → lossy e.name ≡ e.name
      → e.offset < 2 ^ 64
      → e.size < 2 ^ 64
      → e.created_epoch < 2 ^ 64
      → entry_at lossy (fields c o e) o ≡ record e { state = state_of (fields c o e (o + 0)) }
  entry_at-fields short clean ho hs he = cc (
    name_at-bytes lossy (fields c o e) o e.name short clean (len-fields c o e ∙ omega arith)
        (bytes-fields c o e short),
    offset-fields c o e ho,
    size-fields c o e hs,
    get_le-put_le_self 8 _ (o + 48) e.created_epoch he,
  )

write_name-Runs :
    (m : Memory) (o : ℕ) (name : List ℕ)
    → o + 64 ≤ m.size
    → Runs
        (write_name o name (name_len name))
        m
        tt
        (with_cache m (poke m.cache (o + 4) (take (name_len name) name)))
write_name-Runs m o [] fits = (refl, ap (λ c. with_cache m c) (sym (poke-nil m.cache (o + 4))))
write_name-Runs m o (b ∷ bs) fits =
    rw (lt→ltb 0 (name_len (b ∷ bs)) (omega arith))
      (omega (arith, length-take (name_len (b ∷ bs)) (b ∷ bs)), (refl, refl))

pub write_entry-Runs :
    (a : RegionAllocator) (m : Memory) (i : ℕ) (e : CatalogEntry)
    → IsCatalog a m.size
    → i < 256
    → Runs (write_entry a.base i e) m tt (entered m (entry_offset a.base i) e)
unfolding write_entry
write_entry-Runs a m i e v small = (
  omega (arith, v.within, length-to_le 2 (name_len e.name)),
  Runs-bind _ _ (write_name o e.name (name_len e.name)) m₁ tt
      (with_cache m₁ (poke m₁.cache (o + 4) (take (name_len e.name) e.name)))
      (write_name-Runs m₁ o e.name (omega (arith, v.within)))
      (
        omega (arith, v.within, v.aligned),
        (
          omega (arith, v.within, v.aligned),
          (
            omega (arith, v.within, v.aligned),
            (
              omega (arith, v.within),
              (omega (arith, v.within), (omega (arith, v.within), (refl, refl))),
            ),
          ),
        ),
      ),
)
  where
    o : ℕ
    o = entry_offset a.base i

    m₁ : Memory
    m₁ = with_cache m (poke m.cache (o + 2) (to_le 2 (name_len e.name)))

-- ===== src/Allocator/Agree.antt =====
-- When two memories hold the same entry.
use fence.Prelude.{
  ℕ, ◌+◌, ◌<◌, ◌≡◌, refl, ◌∙◌, ap, arith, ◌&&◌, List, [], ltb, leb, if◌then◌else◌, Bool-cases, inl,
  inr,
}
use fence.Prelude.Bytes.{Space, peek, from_le, to_le, poke, poke-outside, poke_byte, length-to_le}
use fence.Recovery.Check.{Agree, peek-Agree, get_le-Agree}
use fence.Catalog.{state_of, max_name_len}
use fence.Allocator.Entries.{name_at, entry_at}

module _ (lossy : List ℕ → List ℕ) where
  buffer-Agree :
      (c d : Space) (o n : ℕ)
      → Agree c d (o + 1) (o + 64)
      → (if ltb 0 n && leb n max_name_len then lossy (peek d (o + 4) n) else [])
        ≡ (if ltb 0 n && leb n max_name_len then lossy (peek c (o + 4) n) else [])
  buffer-Agree c d o n same = elim (Bool-cases (ltb 0 n && leb n max_name_len)) [
    | inl fits ↦
        rw fits
          (ap lossy (peek-Agree n c d (o + 4) (o + 1) (o + 64) same (omega arith) (ground arith)))
    | inr e ↦ rw e refl
  ]

  name_at-Agree :
      (c d : Space) (o : ℕ) → Agree c d (o + 1) (o + 64) → name_at lossy d o ≡ name_at lossy c o
  name_at-Agree c d o same =
      ap
        (λ (bs : List ℕ).
          let n = from_le bs in
          if ltb 0 n && leb n max_name_len then lossy (peek d (o + 4) n) else [])
        (peek-Agree 2 c d (o + 2) (o + 1) (o + 64) same (omega arith) (omega arith))
      ∙ buffer-Agree c d o (from_le (peek c (o + 2) 2)) same

  -- Where only the state byte differs, the entry differs in its state alone.
  pub entry_at-state :
      (c d : Space) (o v : ℕ)
      → d (o + 0) ≡ v
      → Agree c d (o + 1) (o + 64)
      → entry_at lossy d o ≡ record (entry_at lossy c o) { state = state_of v }
  entry_at-state c d o v st same = cc (
    ap state_of st,
    name_at-Agree c d o same,
    get_le-Agree 8 c d (o + 32) (o + 1) (o + 64) same (omega arith) (omega arith),
    get_le-Agree 8 c d (o + 40) (o + 1) (o + 64) same (omega arith) (omega arith),
    get_le-Agree 8 c d (o + 48) (o + 1) (o + 64) same (omega arith) (omega arith),
  )

  pub entry_at-Agree :
      (c d : Space) (o : ℕ) → Agree c d o (o + 64) → entry_at lossy d o ≡ entry_at lossy c o
  entry_at-Agree c d o same =
      entry_at-state c d o (c (o + 0)) (same (o + 0) (omega arith) (omega arith))
        (λ a lo hi. same a (omega arith) hi)

  pub entry_at-poke :
      (c : Space) (o v : ℕ)
      → v < 256
      → entry_at lossy (poke c (o + 0) (to_le 1 v)) o
        ≡ record (entry_at lossy c o) { state = state_of v }
  entry_at-poke c o v h =
      entry_at-state c (poke c (o + 0) (to_le 1 v)) o v (poke_byte c (o + 0) v h)
        (λ a lo hi. poke-outside c (o + 0) (to_le 1 v) a (omega (arith, length-to_le 1 v)))

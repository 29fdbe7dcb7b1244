-- ===== src/Prelude/Bytes.antt =====
-- Byte sequences: little-endian encoding (`to_le_bytes`, `from_le_bytes`), and finite pieces of an
-- address space `ℕ → ℕ`.
use Prim.Native.Nat.{ℕ, zero, suc, ◌+◌, ◌*◌, ◌/◌, ◌%◌, ◌^◌, ◌≤◌, ◌<◌}
use mathlib.Core.Path.{◌≡◌, refl, ◌∙◌, ap, ap₂, fun_ext}
use mathlib.Core.Logic.{◌⊎◌}
use mathlib.Core.List.{List, [], ◌∷◌}
use native.Mathlib.Omega.{arith}
use native.Mathlib.Nat.{pow-suc}
use fence.Prelude.Tests.{◌==◌, if◌then◌else◌}
use fence.Prelude.Lists.{length}

-- The `n` low bytes of `v`, least significant first.
unfoldable pub to_le : ℕ → ℕ → List ℕ
to_le zero v = []
to_le (suc n) v = (v % 256) ∷ to_le n (v / 256)

unfoldable pub from_le : List ℕ → ℕ
from_le [] = 0
from_le (b ∷ bs) = b + 256 * from_le bs

pub length-to_le : (n v : ℕ) → length (to_le n v) ≡ n
unfolding to_le
length-to_le zero v = refl
length-to_le (suc n) v = ap suc (length-to_le n (v / 256))

pub from_le-to_le : (n v : ℕ) → v < 256 ^ n → from_le (to_le n v) ≡ v
unfolding to_le from_le
from_le-to_le zero v h = omega arith
from_le-to_le (suc n) v h =
    let small : v < 256 ^ n * 256 = rw pow-suc at h in
    omega (arith, from_le-to_le n (v / 256) (omega arith))

abbrev pub Space : Type 0
Space = ℕ → ℕ

-- `n` bytes from address `o` on.
unfoldable pub peek : Space → ℕ → ℕ → List ℕ
peek c o zero = []
peek c o (suc n) = c o ∷ peek c (suc o) n

-- The space with `bs` written from address `o` on.
unfoldable pub poke : Space → ℕ → List ℕ → Space
poke c o [] a = c a
poke c o (b ∷ bs) a = if a == o then b else poke c (suc o) bs a

-- Two address ranges that do not meet.
abbrev pub Apart : ℕ → ℕ → ℕ → ℕ → Type 0
Apart o n p k = (o + n ≤ p) ⊎ (p + k ≤ o)

pub poke-outside :
    (c : Space) (o : ℕ) (bs : List ℕ) (a : ℕ) → (a < o) ⊎ (o + length bs ≤ a) → poke c o bs a ≡ c a
unfolding poke
poke-outside c o [] a h = refl
poke-outside c o (b ∷ bs) a h = ground (arith, poke-outside c (suc o) bs a (omega arith))

pub peek-congr :
    (c d : Space) (o n : ℕ) → ((a : ℕ) → o ≤ a → a < o + n → c a ≡ d a) → peek c o n ≡ peek d o n
unfolding peek
peek-congr c d o zero h = refl
peek-congr c d o (suc n) h =
    ap₂ ◌∷◌ (h o (omega arith) (omega arith))
      (peek-congr c d (suc o) n (λ a lo hi. h a (omega arith) (omega arith)))

pub length-peek : (c : Space) (o n : ℕ) → length (peek c o n) ≡ n
unfolding peek
length-peek c o zero = refl
length-peek c o (suc n) = ap suc (length-peek c (suc o) n)

poke-cons :
    (c : Space) (o b : ℕ) (bs : List ℕ) (a : ℕ)
    → suc o ≤ a
    → poke c o (b ∷ bs) a ≡ poke c (suc o) bs a
unfolding poke
poke-cons c o b bs a h = ground arith

poke-head : (c : Space) (o b : ℕ) (bs : List ℕ) → poke c o (b ∷ bs) o ≡ b
unfolding poke
poke-head c o b bs = ground arith

-- What was written is read back.
pub peek-poke_self : (c : Space) (o : ℕ) (bs : List ℕ) → peek (poke c o bs) o (length bs) ≡ bs
unfolding peek
peek-poke_self c o [] = refl
peek-poke_self c o (b ∷ bs) = ap₂ ◌∷◌ (poke-head c o b bs) (
    peek-congr _ _ (suc o) (length bs) (λ a lo hi. poke-cons c o b bs a lo)
    ∙ peek-poke_self c (suc o) bs)

-- A read elsewhere does not see the write.
pub peek-poke-Apart :
    (c : Space) (p : ℕ) (bs : List ℕ) (o n : ℕ)
    → Apart o n p (length bs)
    → peek (poke c p bs) o n ≡ peek c o n
peek-poke-Apart c p bs o n h = peek-congr _ _ o n (λ a lo hi. poke-outside c p bs a (omega arith))

pub poke-nil : (c : Space) (o : ℕ) → poke c o [] ≡ c
unfolding poke
poke-nil c o = fun_ext (λ a. refl)

pub poke_byte : (c : Space) (o v : ℕ) → v < 256 → poke c o (to_le 1 v) o ≡ v
unfolding poke to_le
poke_byte c o v h = ground arith

-- A write leaves at an address what the space has there, or the written byte.
pub poke-congr :
    (c d : Space) (o : ℕ) (bs : List ℕ) (a : ℕ) → c a ≡ d a → poke c o bs a ≡ poke d o bs a
unfolding poke
poke-congr c d o [] a e = e
poke-congr c d o (b ∷ bs) a e = ap (λ k. if a == o then b else k) (poke-congr c d (suc o) bs a e)

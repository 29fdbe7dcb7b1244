-- ===== src/Backend/Fields.antt =====
-- Numbers stored in the space: what is loaded after a store, at the same place and elsewhere.
use fence.Prelude.{ℕ, ◌+◌, ◌^◌, ◌≤◌, ◌<◌, ◌≡◌, ◌∙◌, ap, ◌⊎◌, List, arith, length}
use mathlib.Core.Path.{subst}
use fence.Prelude.Bytes.{
  Space, peek, poke, to_le, from_le, length-to_le, from_le-to_le, Apart, peek-poke_self,
  peek-poke-Apart, poke-outside,
}
use fence.Backend.{get_le, put_le}

pub get_le-put_le_self :
    (n : ℕ) (c : Space) (o v : ℕ) → v < 256 ^ n → get_le n (put_le n c o v) o ≡ v
unfolding get_le put_le
get_le-put_le_self n c o v h =
    ap from_le (
      subst (λ k. peek (poke c o (to_le n v)) o k ≡ to_le n v) (length-to_le n v)
        (peek-poke_self c o (to_le n v)))
    ∙ from_le-to_le n v h

pub get_le-poke-Apart :
    (n : ℕ) (c : Space) (p : ℕ) (bs : List ℕ) (o : ℕ)
    → Apart o n p (length bs)
    → get_le n (poke c p bs) o ≡ get_le n c o
unfolding get_le
get_le-poke-Apart n c p bs o h = ap from_le (peek-poke-Apart c p bs o n h)

pub get_le-put_le-Apart :
    (n k : ℕ) (c : Space) (p v o : ℕ) → Apart o n p k → get_le n (put_le k c p v) o ≡ get_le n c o
unfolding put_le
get_le-put_le-Apart n k c p v o h =
    get_le-poke-Apart n c p (to_le k v) o (omega (arith, length-to_le k v))

pub put_le-outside :
    (k : ℕ) (c : Space) (p v a : ℕ) → (a < p) ⊎ (p + k ≤ a) → put_le k c p v a ≡ c a
unfolding put_le
put_le-outside k c p v a h = poke-outside c p (to_le k v) a (omega (arith, length-to_le k v))

pub peek-put_le-Apart :
    (k : ℕ) (c : Space) (p v o n : ℕ) → Apart o n p k → peek (put_le k c p v) o n ≡ peek c o n
unfolding put_le
peek-put_le-Apart k c p v o n h =
    peek-poke-Apart c p (to_le k v) o n (omega (arith, length-to_le k v))

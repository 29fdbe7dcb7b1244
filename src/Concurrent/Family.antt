-- ===== src/Concurrent/Family.antt =====
-- Families indexed by the number of a call: update at one index, and how many satisfy a test.
use fence.Prelude.{
  ℕ, zero, suc, ◌+◌, ◌≤◌, ◌<◌, ◌≡◌, ◌≢◌, refl, arith, ◌==◌, if◌then◌else◌, le-cases, ==_refl, ==_ne,
  inl, inr,
}

abbrev pub update {ℓ} : {A : Type ℓ} → (ℕ → A) → ℕ → A → ℕ → A
update f i a j = if j == i then a else f j

pub update_self {ℓ} : {A : Type ℓ} (f : ℕ → A) (i : ℕ) (a : A) → update f i a i ≡ a
update_self f i a = rw (==_refl i) refl

pub update_other {ℓ} : {A : Type ℓ} (f : ℕ → A) (i j : ℕ) (a : A) → j ≢ i → update f i a j ≡ f j
update_other f i j a ne = rw (==_ne j i ne) refl

module _ {A : Type 0} (w : A → ℕ) where
  -- The weight of the first `n` members.
  unfoldable pub weight : ℕ → (ℕ → A) → ℕ
  weight zero f = 0
  weight (suc n) f = w (f n) + weight n f

  weight-above : (n : ℕ) (f : ℕ → A) (i : ℕ) (a : A) → n ≤ i → weight n (update f i a) ≡ weight n f
  unfolding weight
  weight-above zero f i a above = refl
  weight-above (suc n) f i a above =
      rw (update_other f i n a (omega arith), weight-above n f i a (omega arith)) refl

  pub weight-update :
      (n : ℕ) (f : ℕ → A) (i : ℕ) (a : A)
      → i < n
      → weight n (update f i a) + w (f i) ≡ weight n f + w a
  unfolding weight
  weight-update zero f i a below = absurd (omega arith)
  weight-update (suc n) f i a below = elim (le-cases n i) [
    | inl last ↦
        let e : i ≡ n = omega arith in
        rw (e, update_self f n a, weight-above n f n a (omega arith)) (omega arith)
    | inr before ↦
        rw (update_other f i n a (omega arith)) (omega (arith, weight-update n f i a before))
  ]

  pub weight-le : ((a : A) → w a ≤ 1) → (n : ℕ) (f : ℕ → A) → weight n f ≤ n
  unfolding weight
  weight-le small zero f = omega arith
  weight-le small (suc n) f = omega (arith, small (f n), weight-le small n f)

  pub weight-zero : (n : ℕ) (f : ℕ → A) → ((i : ℕ) → i < n → w (f i) ≡ 0) → weight n f ≡ 0
  unfolding weight
  weight-zero zero f none = refl
  weight-zero (suc n) f none =
      omega (arith, none n (omega arith), weight-zero n f (λ i below. none i (omega arith)))

  pub weight-member : (n : ℕ) (f : ℕ → A) (i : ℕ) → i < n → w (f i) ≤ weight n f
  unfolding weight
  weight-member zero f i below = absurd (omega arith)
  weight-member (suc n) f i below = elim (le-cases n i) [
    | inl last ↦ let e : i ≡ n = omega arith in rw e (omega arith)
    | inr before ↦ omega (arith, weight-member n f i before)
  ]

-- ===== src/Concurrent/Moved.antt =====
-- One call goes on, and the others keep their places.
use fence.Prelude.{
  ℕ, ◌+◌, ◌≤◌, ◌<◌, ◌≡◌, ◌≢◌, ◌⊎◌, refl, sym, ◌∙◌, ap, arith, inl, inr, eq-cases, le-cases,
}
use fence.Backend.{Memory, get_le, put_le, with_cache}
use fence.Backend.Fields.{put_le-outside, get_le-put_le-Apart}
use fence.Program.{Prog}
use fence.FenceError.{Result}
use fence.Layout.{PoolGeometry}
use fence.Checksum.{Hasher}
use fence.Concurrent.{System, Request}
use fence.Concurrent.Family.{update, update_self, update_other, weight-update}
use fence.Concurrent.Rely.{IsGood, Rely, Safe-Rely}
use fence.Concurrent.Invariant.{
  Phase, waiting, over, refused, owner, excess, slot_of, Full, Kept, Stands, Inv,
}

module _ (h : Hasher) (g : PoolGeometry) (base : ℕ) where
  -- Others at work do not change where a call stands.
  Stands-Rely :
      (q : Request) (first taken taken' : ℕ) (ph : Phase) (p : Prog (Result ℕ)) (m n : Memory)
      → taken ≤ taken'
      → taken' ≤ g.capacity
      → Rely g base (slot_of h g base ph) m n
      → Stands h g base q first taken ph p m
      → Stands h g base q first taken' ph p n
  Stands-Rely q first taken taken' waiting p m n up le r k = k
  Stands-Rely q first taken taken' (over v) p m n up le r k = (k.0, k.1, omega (arith, k.2), k.3)
  Stands-Rely q first taken taken' refused p m n up le r k =
      (Safe-Rely g base g.capacity (Full h g base) p m n r k.0, omega (arith, k.1), k.2)
  Stands-Rely q first taken taken' (owner s) p m n up le r k =
      (Safe-Rely g base s (Kept h g base q s) p m n r k.0, k.1, omega (arith, k.2), k.3)

  slot-below :
      (q : Request) (first taken : ℕ) (ph : Phase) (p : Prog (Result ℕ)) (m : Memory)
      → Stands h g base q first taken ph p m
      → (slot_of h g base ph ≡ g.capacity) ⊎ (slot_of h g base ph < taken)
  slot-below q first taken waiting p m k = inl refl
  slot-below q first taken (over v) p m k = inl refl
  slot-below q first taken refused p m k = inl refl
  slot-below q first taken (owner s) p m k = inr k.2

  -- The reserve tail may change at any time.
  pub reserve-Rely :
      (t x : ℕ) (m : Memory)
      → IsGood g base m
      → Rely g base t m (with_cache m (put_le 8 m.cache 40 x))
  reserve-Rely t x m good = record {
    moves = record {
      size = refl;
      good = record {
        mapped = good.mapped;
        tail_le = omega (arith, tail, good.tail_le);
        base_le = omega (arith, tail, good.base_le);
        dense = λ u lo hi. above _ (omega arith) ∙ good.dense u lo (omega (arith, tail));
      };
      tail = omega (arith, tail);
      keeps = λ u lt st. above _ (omega arith) ∙ st;
    };
    mine = λ lt a lo hi. above a (omega arith);
  }
    where
      above : (a : ℕ) → 48 ≤ a → put_le 8 m.cache 40 x a ≡ m.cache a
      above a lo = put_le-outside 8 m.cache 40 x a (omega arith)

      tail : get_le 8 (put_le 8 m.cache 40 x) 32 ≡ get_le 8 m.cache 32
      tail = get_le-put_le-Apart 8 8 m.cache 40 x 32 (omega arith)

  module _ (n : ℕ) (requests : ℕ → Request) (m₀ : Memory) (first : ℕ) where
    module _ (sys : System) (k : Inv h g base n requests m₀ first sys) (i : ℕ) (lt : i < n) where
      abbrev pub moved : Prog (Result ℕ) → Memory → System
      moved p m = record { memory = m; calls = update sys.calls i p }

      -- One call has gone on, into the phase `ph`.
      pub Inv-moved :
          (ph : Phase) (p : Prog (Result ℕ)) (m : Memory) (taken' : ℕ)
          → k.taken ≤ taken'
          → taken' ≤ g.capacity
          → ((t : ℕ)
              → (t < g.capacity → t ≢ slot_of h g base (k.phases i))
              → Rely g base t sys.memory m)
          → ((t : ℕ) → k.taken ≤ t → t < taken' → ph ≡ owner t)
          → (slot_of h g base ph < g.capacity
              → (slot_of h g base ph ≡ slot_of h g base (k.phases i))
                ⊎ (slot_of h g base ph ≡ k.taken))
          → ((t : ℕ) → k.phases i ≡ owner t → ph ≡ owner t)
          → (taken' < g.capacity → excess ph ≡ 0)
          → get_le 8 m.cache 40 + excess (k.phases i) + k.taken
            ≡ get_le 8 sys.memory.cache 40 + excess ph + taken'
          → Stands h g base (requests i) first taken' ph p m
          → Inv h g base n requests m₀ first (moved p m)
      Inv-moved ph p m taken' up le others new slot same none count stands' = record {
        phases = update k.phases i ph;
        taken = taken';
        good = any.moves.good;
        size = any.moves.size ∙ k.size;
        taken_le = le;
        first_le = omega (arith, k.first_le);
        reserve = omega (arith, k.reserve, count, weight-update excess n k.phases i ph lt);
        spare = λ room.
            omega
              (arith, k.spare (omega arith), none room, weight-update excess n k.phases i ph lt);
        fresh = λ t lo hi.
            (others t (λ lt₂. free t lo hi)).mine hi _ (omega arith)
              (omega (arith, any.moves.good.mapped.geometry.record_lem))
            ∙ k.fresh t (omega arith) hi;
        old = λ t below a lo hi.
            (others t (λ lt₂. before t below)).mine (omega (arith, k.first_le, k.taken_le)) a lo hi
            ∙ k.old t below a lo hi;
        stands = stands;
        apart = apart;
        owned = owned;
      }
        where
          any : Rely g base g.capacity sys.memory m
          any = others g.capacity (λ lt₂. absurd (omega (arith, lt₂)))

          below :
              (j : ℕ)
              → j < n
              → (slot_of h g base (k.phases j) ≡ g.capacity)
                ⊎ (slot_of h g base (k.phases j) < k.taken)
          below j lj =
              slot-below (requests j) first k.taken (k.phases j) (sys.calls j) sys.memory
                (k.stands j lj)

          free : (t : ℕ) → taken' ≤ t → t < g.capacity → t ≢ slot_of h g base (k.phases i)
          free t lo hi e = omega (arith, e, below i lt)

          from :
              (ph₁ : Phase) (p₁ : Prog (Result ℕ))
              → Stands h g base (requests i) first k.taken ph₁ p₁ sys.memory
              → (slot_of h g base ph₁ ≡ g.capacity) ⊎ (first ≤ slot_of h g base ph₁)
          from waiting p₁ st = inl refl
          from (over v) p₁ st = inl refl
          from refused p₁ st = inl refl
          from (owner s) p₁ st = inr st.1

          before : (t : ℕ) → t < first → t ≢ slot_of h g base (k.phases i)
          before t lo e =
              omega
                (arith, e, k.first_le, k.taken_le, from (k.phases i) (sys.calls i) (k.stands i lt))

          stands :
              (j : ℕ)
              → j < n
              → Stands h g base
                  (requests j)
                  first
                  taken'
                  (update k.phases i ph j)
                  (update sys.calls i p j)
                  m
          stands j lj = elim (eq-cases j i) [
            | inl e ↦ rw (e, update_self k.phases i ph, update_self sys.calls i p) stands'
            | inr ne ↦
                rw (update_other k.phases i j ph ne, update_other sys.calls i j p ne)
                  (Stands-Rely (requests j) first k.taken taken' (k.phases j) (sys.calls j)
                    sys.memory m up le
                    (others (slot_of h g base (k.phases j)) (λ lt₂. k.apart j i lj lt ne lt₂))
                    (k.stands j lj))
          ]

          other :
              (j : ℕ)
              → j < n
              → j ≢ i
              → slot_of h g base ph < g.capacity
              → slot_of h g base ph ≢ slot_of h g base (k.phases j)
          other j lj ne small e = elim (slot small) [
            | inl kept ↦
                k.apart i j lt lj (λ x. ne (sym x)) (omega (arith, kept)) (omega (arith, kept, e))
            | inr fresh_slot ↦ absurd (omega (arith, fresh_slot, e, below j lj, small))
          ]

          apart :
              (j₁ j₂ : ℕ)
              → j₁ < n
              → j₂ < n
              → j₁ ≢ j₂
              → slot_of h g base (update k.phases i ph j₁) < g.capacity
              → slot_of h g base (update k.phases i ph j₁)
                ≢ slot_of h g base (update k.phases i ph j₂)
          apart j₁ j₂ l₁ l₂ ne small e = elim (eq-cases j₁ i) [
            | inl e₁ ↦
                let n₂ : j₂ ≢ i = λ x. ne (e₁ ∙ sym x) in
                let s₁ : update k.phases i ph j₁ ≡ ph =
                  ap (update k.phases i ph) e₁ ∙ update_self k.phases i ph in
                let s₂ : update k.phases i ph j₂ ≡ k.phases j₂ = update_other k.phases i j₂ ph n₂ in
                other j₂ l₂ n₂ (rw s₁ at small)
                  (sym (ap (slot_of h g base) s₁) ∙ e ∙ ap (slot_of h g base) s₂)
            | inr n₁ ↦
                let s₁ : update k.phases i ph j₁ ≡ k.phases j₁ = update_other k.phases i j₁ ph n₁ in
                let same₁ : slot_of h g base (update k.phases i ph j₁)
                    ≡ slot_of h g base (k.phases j₁) =
                  ap (slot_of h g base) s₁ in
                elim (eq-cases j₂ i) [
                  | inl e₂ ↦
                      let s₂ : slot_of h g base (update k.phases i ph j₂) ≡ slot_of h g base ph =
                        ap (slot_of h g base)
                          (ap (update k.phases i ph) e₂ ∙ update_self k.phases i ph) in
                      other j₁ l₁ n₁ (omega (arith, small, e, s₂)) (sym s₂ ∙ sym e ∙ same₁)
                  | inr n₂ ↦
                      k.apart j₁ j₂ l₁ l₂ ne (omega (arith, small, same₁))
                        (sym same₁ ∙ e ∙ ap (slot_of h g base) (update_other k.phases i j₂ ph n₂))
                ]
          ]

          owned :
              (t : ℕ)
              → first ≤ t
              → t < taken'
              → (j : ℕ) × (j < n) × (update k.phases i ph j ≡ owner t)
          owned t lo hi = elim (le-cases k.taken t) [
            | inl late ↦ (i, lt, update_self k.phases i ph ∙ new t late hi)
            | inr early ↦
                let was = k.owned t lo early in
                elim (eq-cases was.0 i) [
                  | inl e ↦
                      (i, lt, update_self k.phases i ph ∙ same t (sym (ap k.phases e) ∙ was.2))
                  | inr ne ↦ (was.0, was.1, update_other k.phases i was.0 ph ne ∙ was.2)
                ]
          ]

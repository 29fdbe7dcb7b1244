-- ===== src/Concurrent/Turns.antt =====
-- A turn keeps the invariant.
use mathlib.Core.Path.{subst}
use fence.Prelude.{
  ℕ, suc, ◌+◌, ◌-◌, ◌%◌, ◌^◌, ◌≤◌, ◌<◌, ◌≡◌, refl, sym, ◌∙◌, ap, arith, List, [], ◌∷◌, length, inl,
  inr, le-cases, leb→false, le→leb,
}
use fence.Backend.{Memory, get_le, put_le, with_cache, u64_mod, fetch_add_u64}
use fence.Backend.Fields.{get_le-put_le_self}
use fence.Program.{Prog, call}
use fence.FenceError.{Result}
use fence.Layout.{PoolGeometry}
use fence.Checksum.{Hasher}
use fence.Engine.{append_full, append_at}
use fence.Concurrent.{System, Request, host, request, advance, turn, turns, AllBelow}
use fence.Concurrent.Family.{weight, weight-member, weight-le}
use fence.Concurrent.Rely.{Rely, Guar, Rely-refl, Safe-advance, Guar-Rely}
use fence.Concurrent.Append.{append_at-Safe}
use fence.Concurrent.Invariant.{
  Phase, waiting, over, refused, owner, excess, slot_of, Full, Kept, Stands, Inv,
}
use fence.Concurrent.Moved.{reserve-Rely, Inv-moved, moved}
use fence.Concurrent.Requests.{request-big, request-fits, placed, rest_full, full-call, Full-Safe}

module _ (h : Hasher) (g : PoolGeometry) (base : ℕ) (n : ℕ) (requests : ℕ → Request) (m₀ : Memory)
    (first : ℕ) (u32 : n < 2 ^ 32) (hosts : (i : ℕ) → i < n → (requests i).host_id < g.max_hosts)
    (terms : (i : ℕ) → i < n → (requests i).term < 2 ^ 64) where
  excess_le : (ph : Phase) → excess ph ≤ 1
  excess_le waiting = omega arith
  excess_le (over v) = omega arith
  excess_le refused = omega arith
  excess_le (owner s) = omega arith

  module _ (sys : System) (k : Inv h g base n requests m₀ first sys) (i : ℕ) (lt : i < n) where
    q : Request
    q = requests i

    -- The system after the turn, where `p` is what was left of the call.
    abbrev Next : Prog (Result ℕ) → Type 0
    Next p = Inv h g base n requests m₀ first (
        moved h g base n requests m₀ first sys k i lt (advance p sys.memory).0
          (advance p sys.memory).1)

    -- The call has not begun.
    abbrev reserve : ℕ
    reserve = get_le 8 sys.memory.cache 40

    abbrev bumped : Memory
    bumped = with_cache sys.memory (put_le 8 sys.memory.cache 40 ((reserve + 1) % u64_mod))

    small : reserve + 1 < u64_mod
    small = omega (
      arith,
      k.reserve,
      k.taken_le,
      u32,
      weight-le excess excess_le n k.phases,
      k.good.mapped.geometry.capacity_u32,
    )

    bumped-reserve : get_le 8 bumped.cache 40 ≡ reserve + 1
    bumped-reserve =
        get_le-put_le_self 8 sys.memory.cache 40 ((reserve + 1) % u64_mod) (omega arith)
        ∙ omega (arith, small)

    waiting-over :
        k.phases i ≡ waiting
        → length (requests i).payload ≤ g.payload_size
        → g.capacity ≤ reserve
        → Next (call (fetch_add_u64 40 1) (placed h g base (requests i)))
    waiting-over ph fit full = rw (le→leb g.capacity reserve full) (
        Inv-moved h g base n requests m₀ first sys k i lt (over reserve)
          (append_full h (host g (requests i)) reserve) bumped k.taken (omega arith) k.taken_le
          (λ t ne. reserve-Rely h g base t _ sys.memory k.good) (λ t lo hi. absurd (omega arith))
          (λ bad. absurd (omega (arith, bad))) (λ t e. absurd (ground (arith, ph, e)))
          (λ room. absurd (omega (arith, room, all_taken))) (rw ph (omega (arith, bumped-reserve)))
          (refl, full, all_taken, fit))
      where
        all_taken : k.taken ≡ g.capacity
        all_taken = elim (le-cases g.capacity k.taken) [
          | inl le ↦ omega (arith, k.taken_le)
          | inr room ↦ absurd (omega (arith, room, k.reserve, full, k.spare room))
        ]

    waiting-owner :
        k.phases i ≡ waiting
        → length (requests i).payload ≤ g.payload_size
        → reserve < g.capacity
        → Next (call (fetch_add_u64 40 1) (placed h g base (requests i)))
    waiting-owner ph fit room =
        let next : reserve ≡ k.taken =
          omega (arith, k.reserve, k.spare (omega (arith, k.reserve, room))) in
        rw (leb→false g.capacity reserve room) (
          Inv-moved h g base n requests m₀ first sys k i lt (owner reserve)
            (append_at h (host g (requests i)) reserve (requests i).term (requests i).payload)
            bumped (suc k.taken) (omega arith) (omega (arith, next))
            (λ t ne. reserve-Rely h g base t _ sys.memory k.good)
            (λ t lo hi. ap owner (omega (arith, next, lo, hi))) (λ small. inr next)
            (λ t e. absurd (ground (arith, ph, e))) (λ more. refl)
            (rw ph (omega (arith, bumped-reserve)))
            (
              append_at-Safe h (host g (requests i)) base reserve (requests i).term
                  (requests i).payload room fit (hosts i lt) (terms i lt) bumped (r.moves.good)
                  (r.mine room _ (omega arith) (omega (arith, k.good.mapped.geometry.record_lem))
                    ∙ k.fresh reserve (omega (arith, next)) room),
              omega (arith, next, k.first_le),
              omega (arith, next),
              fit,
            ))
      where
        r : Rely g base reserve sys.memory bumped
        r = reserve-Rely h g base reserve _ sys.memory k.good

    waiting-Next : k.phases i ≡ waiting → Next (request h g (requests i))
    waiting-Next ph = elim (le-cases (length (requests i).payload) g.payload_size) [
      | inr big ↦ subst Next (sym (request-big h g base (requests i) big)) (
          Inv-moved h g base n requests m₀ first sys k i lt waiting _ sys.memory k.taken
            (omega arith) k.taken_le (λ t ne. Rely-refl g base t sys.memory k.good)
            (λ t lo hi. absurd (omega arith)) (λ bad. absurd (omega (arith, bad)))
            (λ t e. absurd (ground (arith, ph, e))) (λ more. refl) (rw ph refl)
            (sym (request-big h g base (requests i) big)))
      | inl fit ↦
          subst Next (sym (request-fits h g base (requests i) fit))
            (elim (le-cases g.capacity reserve) [
              | inl full ↦ waiting-over ph fit full
              | inr room ↦ waiting-owner ph fit room
            ])
    ]

    -- The reservation is given back.
    abbrev given : Memory
    given =
        with_cache sys.memory (put_le 8 sys.memory.cache 40 ((reserve + (u64_mod - 1)) % u64_mod))

    over-Next :
        (v : ℕ)
        → k.phases i ≡ over v
        → g.capacity ≤ v
        → k.taken ≡ g.capacity
        → length (requests i).payload ≤ g.payload_size
        → Next (call (fetch_add_u64 40 (u64_mod - 1)) (λ _. rest_full h g base (requests i) v))
    over-Next v ph le all fit =
        Inv-moved h g base n requests m₀ first sys k i lt refused
          (rest_full h g base (requests i) v) given k.taken (omega arith) k.taken_le
          (λ t ne. reserve-Rely h g base t _ sys.memory k.good) (λ t lo hi. absurd (omega arith))
          (λ bad. absurd (omega (arith, bad))) (λ t e. absurd (ground (arith, ph, e)))
          (λ more. refl) (rw ph (omega (arith, given-reserve, one)))
          (
            Full-Safe h g base (requests i) v given (hosts i lt) le
                (reserve-Rely h g base 0 _ sys.memory k.good).moves.good,
            all,
            fit,
          )
      where
        one : 0 < reserve
        one =
            let w : excess (k.phases i) ≤ weight excess n k.phases =
              weight-member excess n k.phases i lt in
            let e : excess (k.phases i) ≡ 1 = ap excess ph in omega (arith, w, e, k.reserve)

        given-reserve : get_le 8 given.cache 40 ≡ reserve - 1
        given-reserve =
            get_le-put_le_self 8 sys.memory.cache 40 ((reserve + (u64_mod - 1)) % u64_mod)
              (omega arith)
            ∙ omega (arith, small, one)

    -- A call that does not touch the reserve tail.
    quiet-Next :
        (ph : Phase) (p : Prog (Result ℕ))
        → k.phases i ≡ ph
        → Guar g base (slot_of h g base ph) sys.memory (advance p sys.memory).1
        → Stands h g base
            (requests i)
            first
            k.taken
            ph
            (advance p sys.memory).0
            (advance p sys.memory).1
        → Next p
    quiet-Next ph p e does st =
        Inv-moved h g base n requests m₀ first sys k i lt ph (advance p sys.memory).0
          (advance p sys.memory).1 k.taken (omega arith) k.taken_le
          (λ t ne.
            Guar-Rely g base (slot_of h g base ph) t sys.memory (advance p sys.memory).1
              (λ lt₂ same. ne lt₂ (same ∙ ap (slot_of h g base) (sym e))) does)
          (λ t lo hi. absurd (omega arith)) (λ small. inl (ap (slot_of h g base) (sym e)))
          (λ t was. sym e ∙ was) (λ room. ap excess (sym e) ∙ alone room)
          (rw e (omega (arith, does.reserve))) st
      where
        alone : k.taken < g.capacity → excess (k.phases i) ≡ 0
        alone room = omega (arith, weight-member excess n k.phases i lt, k.spare room)

    turn-Next :
        (ph : Phase)
        → k.phases i ≡ ph
        → Stands h g base (requests i) first k.taken ph (sys.calls i) sys.memory
        → Next (sys.calls i)
    turn-Next waiting e st = subst Next (sym st) (waiting-Next e)
    turn-Next (over v) e st =
        subst Next (sym (st.0 ∙ full-call h g base (requests i) v)) (over-Next v e st.1 st.2 st.3)
    turn-Next refused e st =
        let a =
          Safe-advance g base g.capacity (Full h g base) (sys.calls i) sys.memory k.good st.0 in
        quiet-Next refused (sys.calls i) e a.1 (a.2, st.1, st.2)
    turn-Next (owner s) e st =
        let a =
          Safe-advance g base s (Kept h g base (requests i) s) (sys.calls i) sys.memory k.good
            st.0 in
        quiet-Next (owner s) (sys.calls i) e a.1 (a.2, st.1, st.2, st.3)

    pub turn-Inv : Inv h g base n requests m₀ first (turn i sys)
    unfolding turn
    turn-Inv = turn-Next (k.phases i) refl (k.stands i lt)

  pub turns-Inv :
      (schedule : List ℕ) (sys : System)
      → AllBelow n schedule
      → Inv h g base n requests m₀ first sys
      → Inv h g base n requests m₀ first (turns schedule sys)
  unfolding turns
  turns-Inv [] sys all k = k
  turns-Inv (i ∷ is) sys all k = turns-Inv is (turn i sys) all.1 (turn-Inv sys k i all.0)

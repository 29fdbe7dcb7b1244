-- ===== src/Engine/Log/Keep.antt =====
-- What an operation may write without changing the log.
use fence.Prelude.{
  ℕ, zero, suc, ◌+◌, ◌<◌, ◌≡◌, refl, ◌∙◌, sym, List, [], ◌∷◌, arith, length, some, get_elem?,
}
use fence.Backend.{Memory, get_le}
use fence.Layout.{record_offset, metrics_offset}
use fence.Layout.Regions.{record_below_metrics}
use fence.Checksum.{Hasher, compute}
use fence.Recovery.Check.{Agree, get_le-Agree, intact-Agree}
use fence.Engine.{FenceRuntime}
use fence.Engine.Stored.{Stores-Agree, IsRuntime}
use fence.Engine.Pool.{IsPool}
use mathlib.Core.Path.{subst}
use fence.Engine.Log.{Represents, Entry}

-- The records and both tails are as they were.
pub record SameLog (rt : FenceRuntime) (m n : Memory) : Type 0 where
  pub size : n.size ≡ m.size
  pub tail : get_le 8 n.cache 32 ≡ get_le 8 m.cache 32
  pub reserve : get_le 8 n.cache 40 ≡ get_le 8 m.cache 40
  pub records : Agree m.cache n.cache 48 (metrics_offset rt.geometry 0)

pub get_elem?-bound :
    {A : Type 0} (xs : List A) (i : ℕ) (x : A) → get_elem? xs i ≡ some x → i < length xs
get_elem?-bound [] i x e = absurd (ground (arith, e))
get_elem?-bound (y ∷ ys) zero x e = omega arith
get_elem?-bound (y ∷ ys) (suc i) x e = omega (arith, get_elem?-bound ys i x e)

module _ (h : Hasher) (rt : FenceRuntime) (m n : Memory) (same : SameLog rt m n) where
  record-Agree :
      (p : IsPool h rt m) (s : ℕ)
      → s < rt.geometry.capacity
      → Agree m.cache n.cache
          (record_offset rt.geometry s)
          (record_offset rt.geometry s + rt.geometry.record_size)
  record-Agree p s small a lo hi =
      same.records a (omega arith) (omega (arith, record_below_metrics rt.geometry s 0 small))

  pub IsPool-SameLog : IsPool h rt m → IsPool h rt n
  IsPool-SameLog p = record {
    runtime = subst (IsRuntime rt) (sym same.size) p.runtime;
    tail_le = omega (arith, same.tail, same.reserve, p.tail_le);
    reserve_le = omega (arith, same.reserve, p.reserve_le);
    fresh = λ s lo small. state s small ∙ p.fresh s (omega (arith, same.reserve)) small;
    sound = λ s small st.
        intact-Agree h rt.geometry m.cache n.cache (record_offset rt.geometry s)
          (λ a lo hi. record-Agree p s small a (omega arith) (omega (arith, sized)))
        ∙ p.sound s small (sym (state s small) ∙ st);
    numbered = λ s small st.
        get_le-Agree 8 m.cache n.cache (record_offset rt.geometry s + 16)
          (record_offset rt.geometry s) (record_offset rt.geometry s + rt.geometry.record_size)
          (record-Agree p s small) (omega arith) (omega (arith, sized))
        ∙ p.numbered s small (sym (state s small) ∙ st);
  }
    where
      sized : rt.geometry.record_size ≡ 64 + rt.geometry.payload_size
      sized = p.runtime.mapped.geometry.record_lem

      state :
          (s : ℕ)
          → s < rt.geometry.capacity
          → n.cache (record_offset rt.geometry s + 0) ≡ m.cache (record_offset rt.geometry s + 0)
      state s small = record-Agree p s small _ (omega arith) (omega (arith, sized))

  pub Represents-SameLog : (log : List Entry) → Represents h rt m log → Represents h rt n log
  Represents-SameLog log rep = record {
    pool = IsPool-SameLog rep.pool;
    reserve = same.reserve ∙ rep.reserve;
    tail = same.tail ∙ rep.tail;
    entries = λ s e at.
        let small : s < rt.geometry.capacity =
          omega (arith, get_elem?-bound log s e at, rep.reserve, rep.pool.reserve_le) in
        let sized : rt.geometry.record_size ≡ 64 + rt.geometry.payload_size =
          rep.pool.runtime.mapped.geometry.record_lem in
        let before = rep.entries s e at in
        (
          record-Agree rep.pool s small _ (omega arith) (omega (arith, sized)) ∙ before.0,
          Stores-Agree m.cache n.cache (record_offset rt.geometry s) e.term (s + 1) e.writer_id
              (compute h e.term (s + 1) e.bytes) e.bytes
              (λ a lo hi.
                record-Agree rep.pool s small a (omega arith) (omega (arith, sized, before.2)))
              before.1,
          before.2,
        );
  }

pub get_elem?-some :
    {A : Type 0} (xs : List A) (i : ℕ) → i < length xs → (x : A) × (get_elem? xs i ≡ some x)
get_elem?-some [] i h = absurd (omega arith)
get_elem?-some (y ∷ ys) zero h = (y, refl)
get_elem?-some (y ∷ ys) (suc i) h = get_elem?-some ys i (omega arith)

-- ===== src/Consumer/Reconciling.antt =====
-- Consumer.reconcile of internal/eventstream/consumer.go: a node consumes just the streams that it is responsible for.
use mathlib.Core.Path.{ap₂}
use runkit.Prelude.{
  ◌==◌, ==_iff, Bool-cases, filter, has, ℕ, ◌≡◌, refl, ap, ◌∙◌, inl, inr, Bool, true, false, not,
  ◌&&◌, ◌||◌, List, [], ◌∷◌, ◌++◌, arith,
}
use runkit.Consumer.{Reconciled, reconcile}

has-filter : (p : ℕ → Bool) (xs : List ℕ) (i : ℕ) → has (filter p xs) i ≡ (has xs i && p i)
has-filter p [] i = refl
has-filter p (x ∷ xs) i = elim (Bool-cases (x == i)) [
  | inl same ↦
      let q : p x ≡ p i = ap p ((==_iff x i).0 same) in ground (arith, q, same, has-filter p xs i)
  | inr other' ↦ ground (arith, other', has-filter p xs i)
]

has-append : (xs ys : List ℕ) (i : ℕ) → has (xs ++ ys) i ≡ (has xs i || has ys i)
has-append [] ys i = refl
has-append (x ∷ xs) ys i = ground (arith, has-append xs ys i)

-- What reconcile does about each stream: `is_responsible` is whether the node is to consume it.
pub record IsReconciled (is_responsible : ℕ → Bool) (stream_ids consuming : List ℕ) (r : Reconciled)
    : Type 0 where
  pub consumes : (id : ℕ) → has r.consuming id ≡ (has stream_ids id && is_responsible id)
  pub starts_new :
      (id : ℕ)
      → has r.starts id ≡ ((has stream_ids id && is_responsible id) && not (has consuming id))
  pub stops_others :
      (id : ℕ) → has r.stops id ≡ (has consuming id && not (has stream_ids id && is_responsible id))

-- After Consumer.reconcile, the node consumes exactly the streams of the catalog that it is
-- responsible for; it starts exactly those of them that it did not consume, and stops exactly
-- those that it consumed and that are not among them.
pub reconcile-IsReconciled :
    (is_responsible : ℕ → Bool) (stream_ids consuming : List ℕ)
    → IsReconciled is_responsible stream_ids consuming
        (reconcile is_responsible stream_ids consuming)
unfolding reconcile
reconcile-IsReconciled p ids old = record {
  consumes = λ id. has-append (filter (has (filter p ids)) old) _ id ∙ together id;
  starts_new = λ id. started id;
  stops_others = λ id. has-filter _ old id ∙ ap (λ b. has old id && not b) (has-filter p ids id);
}
  where
    wanted : (id : ℕ) → has (filter p ids) id ≡ (has ids id && p id)
    wanted id = has-filter p ids id

    kept :
        (id : ℕ) → has (filter (has (filter p ids)) old) id ≡ (has old id && (has ids id && p id))
    kept id = has-filter _ old id ∙ ap (λ b. has old id && b) (wanted id)

    started :
        (id : ℕ)
        → has (filter (λ i. not (has (filter (has (filter p ids)) old) i)) (filter p ids)) id
          ≡ ((has ids id && p id) && not (has old id))
    started id =
        has-filter _ (filter p ids) id
        ∙ ap₂ (λ a b. a && not b) (wanted id) (kept id)
        ∙ absorb (has ids id && p id) (has old id)
      where
        absorb : (a b : Bool) → (a && not (b && a)) ≡ (a && not b)
        absorb true true = refl
        absorb true false = refl
        absorb false b = refl

    together :
        (id : ℕ)
        → (has (filter (has (filter p ids)) old) id
            || has (filter (λ i. not (has (filter (has (filter p ids)) old) i)) (filter p ids)) id)
          ≡ (has ids id && p id)
    together id = ap₂ ◌||◌ (kept id) (started id) ∙ cover (has ids id && p id) (has old id)
      where
        cover : (a b : Bool) → ((b && a) || (a && not b)) ≡ a
        cover true true = refl
        cover true false = refl
        cover false true = refl
        cover false false = refl

-- ===== src/Consumer.antt =====
-- internal/eventstream/consumer.go: which streams a node consumes.
pub mod Reconciling
use runkit.Prelude.{
  ltb, leb, ◌==◌, if◌then◌else◌, ltb→lt, lt→ltb, leb→le, le→leb, lt→leb, ==_iff, ==_refl, tests,
  Bool-cases, Option-cases, length, get_elem?, take, drop, replicate, length-append,
  take-append-drop, length-drop, length-take, drop-append_le, drop-append_add,
  get_elem?-append_left, get_elem?-append_right, get_elem?_total, get_elem?-take, filter,
  filter-append, filter-filter, filter-eq, length-filter-le, All, All-append, All-replicate,
  All-filter, All-imp, All-left, All-right, has, u64_mod, inc64, inc64-eq-suc, ℕ, zero, suc, ◌+◌,
  ◌-◌, ◌*◌, ◌/◌, ◌%◌, ◌^◌, ◌≤◌, ◌<◌, min, max, ◌≡◌, refl, sym, ap, ◌∙◌, subst, ◌≢◌, ◌↔◌, ◌⊎◌, inl,
  inr, Bool, true, false, not, ◌&&◌, ◌||◌, Option, none, some, List, [], ◌∷◌, ◌++◌, map, append-nil,
  append_assoc, arith,
}

-- What one call of reconcile does: the stream consumers that it stops, those that it starts after that, and those that
-- run then.
pub record Reconciled : Type 0 where
  pub stops : List ℕ
  pub starts : List ℕ
  pub consuming : List ℕ

-- Consumer.reconcile; `is_responsible` is the answer of the membership for the workload of a stream.
unfoldable pub reconcile : (ℕ → Bool) → List ℕ → List ℕ → Reconciled
reconcile is_responsible stream_ids consuming =
    let responsible = filter is_responsible stream_ids in
    let kept = filter (has responsible) consuming in
    let starts = filter (λ id. not (has kept id)) responsible in
    record {
      stops = filter (λ id. not (has responsible id)) consuming;
      starts = starts;
      consuming = kept ++ starts;
    }

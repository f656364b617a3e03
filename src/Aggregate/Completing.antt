-- ===== src/Aggregate/Completing.antt =====
-- aggregate.complete_with_events and aggregate.complete_without_events of internal/schema/ddl/20-aggregate/10-funcs.sql keep the
-- tables as they have to be.
use runkit.Prelude.{
  ◌==◌, ==_iff, ==_refl, Bool-cases, length, All, All-append, ℕ, ◌+◌, ◌≤◌, ◌<◌, ◌≡◌, refl, sym, ap,
  ◌∙◌, subst, ◌⊎◌, inl, inr, Option, none, some, List, ◌++◌, arith,
}
use runkit.Prelude.Maps.{get, set, get-set}
use runkit.Transaction.{Failure, Action, >>=-at}
use runkit.Schema.{Store, AggregateInstance, update_same}
use runkit.Schema.EventStream.{NewEvent, acquire_for_write, rows_from}
use runkit.Schema.EventStream.Appending.{acquire_for_write-cases}
use runkit.Aggregate.{CommandPump, Others}
use runkit.Aggregate.Commands.{change, bind_stream}
use runkit.Aggregate.History.{owned, owned-append_other}
use runkit.Aggregate.Sourced.{stream_of, bound, IsKept, IsSourced, changed, changed-IsSourced}
use runkit.Aggregate.Writing.{
  set-Grows, IsKept-grown, new-IsPlaced, placed-below, grown-IsSourced, rebound-IsKept, IsKept-same,
  appended-IsKept,
}

module _ {Root : Type 0} (p : CommandPump Root) (others : Others) (fresh : Root) where
  -- What binding a stream does.
  abbrev pub IsBound : ℕ → Store → (Failure ⊎ Option ℕ) × Store → Type 0
  IsBound id s r =
      IsSourced p others fresh r.1
      × (r.1.events ≡ s.events)
      × ((b : Option ℕ) → r.0 ≡ inr b → bound p.handler_key id r.1 ≡ b)

  pub change_row :
      (id : ℕ) (f : AggregateInstance → AggregateInstance) (i : AggregateInstance) (s : Store)
      → s.aggregates p.handler_key id ≡ some i
      → change p others id f s ≡ changed p others fresh id (some (f i)) s
  change_row id f i s e =
      ap (λ o. elim o [ none ↦ s | some j ↦ changed p others fresh id (some (f j)) s ]) e

  IsBound-acquired :
      (id : ℕ) (i : AggregateInstance) (acquired : Option ℕ) (s : Store)
      → s.aggregates p.handler_key id ≡ some i
      → i.stream_id ≡ none
      → IsSourced p others fresh s
      → IsBound id s (inr acquired, change p others id (λ i. record i { stream_id = acquired }) s)
  IsBound-acquired id i acquired s e b v =
      subst (λ s'. IsBound id s (inr acquired, s'))
        (sym (change_row id (λ i. record i { stream_id = acquired }) i s e))
        (
          changed-IsSourced p others fresh id (some (record i { stream_id = acquired })) s
              (rebound-IsKept p others fresh s.streams s.events id acquired i b
                (subst (IsKept p others fresh s.streams s.events id) e (v.kept id)))
              v,
          refl,
          λ b' h.
              ap stream_of (
                update_same s.aggregates p.handler_key id id
                  (some (record i { stream_id = acquired })) (==_refl id))
              ∙ (cc),
        )

  -- The second part of bind_stream.
  abbrev binding : ℕ → Option ℕ → Action Store (Option ℕ)
  binding id acquired s =
      (inr acquired, change p others id (λ i. record i { stream_id = acquired }) s)

  acquired-IsBound :
      (id : ℕ) (i : AggregateInstance) (o : Failure ⊎ Option ℕ) (s : Store)
      → s.aggregates p.handler_key id ≡ some i
      → i.stream_id ≡ none
      → IsSourced p others fresh s
      → IsBound id s (elim o [ inl e ↦ (inl e, s) | inr acquired ↦ binding id acquired s ])
  acquired-IsBound id i (inl e') s e b v = (v, refl, λ b' h. cc)
  acquired-IsBound id i (inr acquired) s e b v = IsBound-acquired id i acquired s e b v

  pub bind_stream-IsBound :
      (id : ℕ) (i : AggregateInstance) (stream : Option ℕ) (s : Store)
      → s.aggregates p.handler_key id ≡ some i
      → i.stream_id ≡ stream
      → IsSourced p others fresh s
      → IsBound id s (bind_stream p others id stream s)
  unfolding bind_stream
  bind_stream-IsBound id i (some stream) s e b v = (v, refl, λ b' h. ap stream_of e ∙ b ∙ (cc))
  bind_stream-IsBound id i none s e b v = elim (acquire_for_write-cases others.contention s) [
    | inl (o, h) ↦
        subst (IsBound id s) (sym (>>=-at (acquire_for_write others.contention) (binding id) h))
          (acquired-IsBound id i o s e b v)
    | inr (unused, h) ↦
        let streams = set s.streams others.contention.fresh 0 in
        let s' = record s { streams = streams } in
        let grows = set-Grows s.streams others.contention.fresh 0 (λ old found. cc) in
        subst (IsBound id s) (sym (>>=-at (acquire_for_write others.contention) (binding id) h)) (
          IsBound-acquired id i (some others.contention.fresh) s' e b
            (grown-IsSourced p others fresh streams s grows v))
  ]

  -- What an append to the stream of an instance leaves.
  abbrev pub appended : ℕ → ℕ → ℕ → ℕ → List NewEvent → Store → Store
  appended id stream next c es s = record s {
    streams = set s.streams stream (next + length es);
    events = s.events ++ rows_from stream next c (some (p.handler_key, id)) es;
  }

  pub below_next :
      (id stream next : ℕ) (s : Store)
      → bound p.handler_key id s ≡ some stream
      → get s.streams stream ≡ some next
      → IsSourced p others fresh s
      → All (λ e. e.offset < next) (owned p.handler_key id s.events)
  below_next id stream next s on found v =
      placed-below s.streams p.handler_key id stream next s.events found v.placed
        ((v.kept id).on_stream stream on)

  pub appended-IsSourced :
      (id stream next c : ℕ) (es : List NewEvent) (s : Store)
      → bound p.handler_key id s ≡ some stream
      → get s.streams stream ≡ some next
      → IsSourced p others fresh s
      → IsSourced p others fresh (appended id stream next c es s)
  appended-IsSourced id stream next c es s on found v =
      let streams = set s.streams stream (next + length es) in
      let events = s.events ++ rows_from stream next c (some (p.handler_key, id)) es in
      let grows = set-Grows s.streams stream (next + length es) (λ old h. later old h) in
      let grown = grown-IsSourced p others fresh streams s grows v in
      record {
        placed =
            All-append _ s.events (rows_from stream next c (some (p.handler_key, id)) es)
              grown.placed
              (new-IsPlaced streams stream next c (some (p.handler_key, id)) es (next + length es)
                (get-set s.streams stream (next + length es) stream ∙ (rw (==_refl stream)))
                (omega arith));
        kept = λ id'. elim (Bool-cases (id == id')) [
          | inl same ↦
              subst (λ n. IsKept p others fresh streams events n (s.aggregates p.handler_key n))
                ((==_iff id id').0 same)
                (IsKept-grown p others fresh s.streams streams events id
                  (s.aggregates p.handler_key id) grows
                  (appended-IsKept p others fresh s.streams s.events id
                    (s.aggregates p.handler_key id) stream next c es on found
                    (below_next id stream next s on found v) (v.kept id)))
          | inr apart ↦
              IsKept-same p others fresh streams s.events events id'
                (s.aggregates p.handler_key id')
                (owned-append_other p.handler_key id' (p.handler_key, id) stream next c s.events es
                  (rw (==_refl p.handler_key, apart)))
                (grown.kept id')
        ];
      }
    where
      later : (old : ℕ) → get s.streams stream ≡ some old → old ≤ next + length es
      later old h = let same : old ≡ next = cc in omega (arith, same)

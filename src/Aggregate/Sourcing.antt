-- ===== src/Aggregate/Sourcing.antt =====
-- HandleDelivery of internal/aggregate/commandpump.go keeps the events and the snapshots of the instances as they have to be.
use runkit.Prelude.{
  ltb, ==_refl, Bool-cases, Option-cases, length, filter, All, ℕ, suc, ◌+◌, ◌-◌, ◌<◌, ◌≡◌, refl,
  sym, ap, ◌∙◌, subst, ◌≢◌, ◌⊎◌, inl, inr, Option, none, some, List, arith,
}
use runkit.Prelude.Maps.{get, get-set}
use runkit.Transaction.{Failure, complete, Action, ◌>>=◌, ◌>>◌, >>=-keeps, >>=-at}
use runkit.Schema.{Store, AggregateInstance, Event}
use runkit.Schema.CommandQueue.{remove}
use runkit.Schema.EventStream.{NewEvent, append}
use runkit.Schema.EventStream.Appending.{append-cases}
use runkit.Aggregate.{CommandPump, Others, apply_events}
use runkit.Aggregate.Commands.{bind_stream, save_snapshot, complete_with_events}
use runkit.Aggregate.History.{owned, history, history-append, new_envelopes}
use runkit.Aggregate.Sourced.{stream_of, bound, IsKept, IsSourced, changed-IsSourced}
use runkit.Aggregate.Writing.{remove-IsSourced}
use runkit.Aggregate.Applying.{apply_events-append}
use runkit.Aggregate.Completing.{
  IsBound, bind_stream-IsBound, appended, below_next, appended-IsSourced, change_row,
}
use runkit.Aggregate.Recording.{IsRestorable, All-order, filter_below}

module _ {Root : Type 0} (p : CommandPump Root) (others : Others) (fresh : Root) where
  -- A snapshot of the state after all events is saved.
  saved-IsKept :
      (streams : List (ℕ × ℕ)) (events : List Event) (id : ℕ) (i : AggregateInstance)
      (stream next bytes : ℕ) (root : Root)
      → IsRestorable p others fresh
      → i.stream_id ≡ some stream
      → get streams stream ≡ some next
      → 0 < next
      → All (λ e. e.offset < next) (owned p.handler_key id events)
      → p.handler.marshal root ≡ some bytes
      → apply_events p others (history p.handler_key id events) fresh ≡ inr root
      → IsKept p others fresh streams events id (some i)
      → IsKept p others fresh streams events id
          (some (record i { snapshot = some (bytes, next - 1) }))
  saved-IsKept streams events id i stream next bytes root restorable on here pos below wrote state
        k =
      record {
        unbound = k.unbound;
        on_stream = k.on_stream;
        snapshots = λ bytes' offset root' snap read.
            let same_bytes : bytes ≡ bytes' = cc in
            let same_offset : next - 1 ≡ offset = cc in
            let all : suc offset ≡ next = omega (arith, same_offset, pos) in
            let same_root =
              restorable root root' bytes wrote
                (subst (λ b. p.handler.unmarshal b fresh ≡ some root') (sym same_bytes) read) in
            ap
              (λ n.
                apply_events p others
                  (filter (λ e. ltb e.offset n) (history p.handler_key id events)) fresh)
              all
            ∙ ap (λ es. apply_events p others es fresh)
                (filter_below p others fresh next (history p.handler_key id events)
                  (All-order p others fresh _ _ below))
            ∙ state
            ∙ ap inr same_root;
        covered = λ bytes' offset stream' snap on'.
            let same : stream ≡ stream' = cc in
            let same_offset : next - 1 ≡ offset = cc in
            (
              next,
              subst (λ n. get streams n ≡ some next) same here,
              omega (arith, same_offset, pos),
            );
        checked = λ b. cc;
      }

  -- The rest of aggregate.complete_with_events, after the stream is bound.
  abbrev writing : ℕ → ℕ → ℕ → List NewEvent → Root → Option ℕ → Action Store (Unit {0})
  writing message_id id c es root b = do
    next_offset ← append b c (some (p.handler_key, id)) es
    save_snapshot p others id (p.handler.marshal root) next_offset
    remove message_id

  saved-IsSourced :
      (id stream next : ℕ) (snapshot : Option ℕ) (root : Root) (s : Store)
      → IsRestorable p others fresh
      → p.handler.marshal root ≡ snapshot
      → bound p.handler_key id s ≡ some stream
      → get s.streams stream ≡ some next
      → 0 < next
      → apply_events p others (history p.handler_key id s.events) fresh ≡ inr root
      → IsSourced p others fresh s
      → IsSourced p others fresh (save_snapshot p others id snapshot (some next) s).1
  unfolding save_snapshot
  saved-IsSourced id stream next none root s restorable wrote on here pos state v = v
  saved-IsSourced id stream next (some bytes) root s restorable wrote on here pos state v =
      elim (Option-cases (s.aggregates p.handler_key id)) [
        | inl absent ↦ absurd (unstreamed (sym (ap stream_of absent) ∙ on))
        | inr (i, e) ↦
            subst (IsSourced p others fresh)
              (sym (
                change_row p others fresh id (λ i. record i { snapshot = some (bytes, next - 1) }) i
                  s e))
              (changed-IsSourced p others fresh id
                (some (record i { snapshot = some (bytes, next - 1) })) s
                (saved-IsKept s.streams s.events id i stream next bytes root restorable
                  (sym (ap stream_of e) ∙ on) here pos
                  (below_next p others fresh id stream next s on here v) wrote state
                  (subst (IsKept p others fresh s.streams s.events id) e (v.kept id)))
                v)
      ]
    where
      unstreamed : none ≡ some stream → ⊥
      unstreamed h = cc

  save_nothing :
      (id : ℕ) (snapshot : Option ℕ) (s : Store) → (save_snapshot p others id snapshot none s).1 ≡ s
  unfolding save_snapshot
  save_nothing id none s = refl
  save_nothing id (some bytes) s = refl

  -- The end of aggregate.complete_with_events.
  abbrev ending : ℕ → ℕ → Root → Option ℕ → Action Store (Unit {0})
  ending message_id id root next_offset =
      save_snapshot p others id (p.handler.marshal root) next_offset >> remove message_id

  ending-IsSourced :
      (message_id id : ℕ) (root : Root) (next_offset : Option ℕ) (s : Store)
      → IsSourced p others fresh
          (save_snapshot p others id (p.handler.marshal root) next_offset s).1
      → IsSourced p others fresh (ending message_id id root next_offset s).1
  ending-IsSourced message_id id root next_offset s v =
      >>=-keeps (IsSourced p others fresh)
        (save_snapshot p others id (p.handler.marshal root) next_offset) (λ u. remove message_id) s
        v
        (λ u h.
          remove-IsSourced p others fresh message_id
            (save_snapshot p others id (p.handler.marshal root) next_offset s).1 v)

  -- The tables after an append and the snapshot that follows.
  written-IsSourced :
      (message_id id c : ℕ) (es : List NewEvent) (before root : Root) (b : Option ℕ) (s : Store)
      → IsRestorable p others fresh
      → bound p.handler_key id s ≡ b
      → apply_events p others (history p.handler_key id s.events) fresh ≡ inr before
      → ((stream next : ℕ) → apply_events p others (new_envelopes stream next es) before ≡ inr root)
      → IsSourced p others fresh s
      → IsSourced p others fresh (writing message_id id c es root b s).1
  written-IsSourced message_id id c es before root b s restorable on state replays v =
      elim (append-cases b c (some (p.handler_key, id)) es s) [
        | inl (o, h, nothing) ↦
            let same : (append b c (some (p.handler_key, id)) es s).1 ≡ s = ap (λ r. r.1) h in
            let v' = subst (IsSourced p others fresh) (sym same) v in
            >>=-keeps (IsSourced p others fresh) (append b c (some (p.handler_key, id)) es)
              (ending message_id id root) s v'
              (λ n q. none_written n o nothing (sym (ap (λ r. r.0) h) ∙ q) v')
        | inr (stream, next, at', found, pos, fits, h) ↦
            let after = appended p others fresh id stream next c es s in
            subst (λ r. IsSourced p others fresh r.1)
              (sym
                (>>=-at (append b c (some (p.handler_key, id)) es) (ending message_id id root) h))
              (ending-IsSourced message_id id root (some (next + length es)) after (
                saved-IsSourced id stream (next + length es) (p.handler.marshal root) root after
                  restorable refl (on ∙ at')
                  (get-set s.streams stream (next + length es) stream ∙ (rw (==_refl stream)))
                  (omega (arith, pos))
                  (ap (λ xs. apply_events p others xs fresh)
                      (history-append p.handler_key id stream next c s.events es
                        (below_next p others fresh id stream next s (on ∙ at') found v))
                    ∙ apply_events-append p others fresh (history p.handler_key id s.events)
                        (new_envelopes stream next es) fresh before state
                    ∙ replays stream next)
                  (appended-IsSourced p others fresh id stream next c es s (on ∙ at') found v)))
      ]
    where
      none_written :
          (n : Option ℕ) (o : Failure ⊎ Option ℕ)
          → ((m : ℕ) → o ≢ inr (some m))
          → o ≡ inr n
          → IsSourced p others fresh (append b c (some (p.handler_key, id)) es s).1
          → IsSourced p others fresh
              (ending message_id id root n (append b c (some (p.handler_key, id)) es s).1).1
      none_written none o nothing q v' =
          ending-IsSourced message_id id root none (append b c (some (p.handler_key, id)) es s).1 (
            subst (IsSourced p others fresh)
              (sym (
                save_nothing id (p.handler.marshal root)
                  (append b c (some (p.handler_key, id)) es s).1))
              v')
      none_written (some m) o nothing q v' = absurd (nothing m q)

  pub complete_with_events-IsSourced :
      (message_id id c : ℕ) (i : AggregateInstance) (stream : Option ℕ) (es : List NewEvent)
      (before root : Root) (s : Store)
      → IsRestorable p others fresh
      → s.aggregates p.handler_key id ≡ some i
      → i.stream_id ≡ stream
      → apply_events p others (history p.handler_key id s.events) fresh ≡ inr before
      → ((stream next : ℕ) → apply_events p others (new_envelopes stream next es) before ≡ inr root)
      → IsSourced p others fresh s
      → IsSourced p others fresh (complete_with_events p others message_id id c stream es root s).1
  unfolding complete_with_events
  complete_with_events-IsSourced message_id id c i stream es before root s restorable e on state
        replays v =
      elim (Bool-cases (p.down complete)) [
        | inl down ↦ rw down v
        | inr up ↦ rw up (completed (bind_stream-IsBound p others fresh id i stream s e on v))
      ]
    where
      completed :
          IsBound p others fresh id s (bind_stream p others id stream s)
          → IsSourced p others fresh
              ((bind_stream p others id stream >>= writing message_id id c es root) s).1
      completed (v', same, names) =
          >>=-keeps (IsSourced p others fresh) (bind_stream p others id stream)
            (writing message_id id c es root) s v'
            (λ b h.
              written-IsSourced message_id id c es before root b
                (bind_stream p others id stream s).1 restorable (names b h)
                (ap (λ events. apply_events p others (history p.handler_key id events) fresh) same
                  ∙ state)
                replays v')

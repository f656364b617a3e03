-- ===== src/Aggregate/Appended.antt =====
-- aggregate.complete_with_events and the row of its instance: what a call that succeeds has changed.
use runkit.Prelude.{
  ==_refl, Bool-cases, length, ℕ, ◌+◌, ◌-◌, ◌≡◌, refl, sym, ap, ◌∙◌, subst, ◌⊎◌, inl, inr, false,
  Option, none, some, List, ◌++◌,
}
use runkit.Prelude.Maps.{get, set, get-set}
use runkit.Transaction.{Failure, other, complete, Action, ◌>>=◌, ◌>>◌, >>=-at, >>=-parts}
use runkit.Schema.{Store, AggregateInstance, update_same}
use runkit.Schema.EventStream.{NewEvent, acquire_for_write, append, rows_from}
use runkit.Schema.CommandQueue.{remove, queued}
use runkit.Aggregate.{CommandPump, Others}
use runkit.Aggregate.Sourced.{stream_of, bound, changed}
use runkit.Aggregate.Commands.{change, bind_stream, save_snapshot, complete_with_events}
use runkit.Aggregate.Completing.{change_row}
use runkit.Aggregate.Appending.{
  Exists, BeginsAt, acquire_for_write-IsAcquired, append-found, remove-cases,
}

module _ {Root : Type 0} (p : CommandPump Root) (others : Others) (fresh : Root) where
  abbrev IsBoundTo : ℕ → Option ℕ → Store → Option ℕ → Store → Type 0
  IsBoundTo id stream s b t =
      (t.events ≡ s.events)
      × ((st : ℕ) × (next : ℕ) × (b ≡ some st)
          × (get t.streams st ≡ some next)
          × (bound p.handler_key id t ≡ some st)
          × BeginsAt s st next
          × ((o : ℕ) → stream ≡ some o → (o ≡ st) × (get s.streams st ≡ some next)))

  bind_stream-IsBoundTo :
      (id : ℕ) (i : AggregateInstance) (stream b : Option ℕ) (s t : Store)
      → s.aggregates p.handler_key id ≡ some i
      → i.stream_id ≡ stream
      → ((st : ℕ) → stream ≡ some st → Exists s st)
      → bind_stream p others id stream s ≡ (inr b, t)
      → IsBoundTo id stream s b t
  unfolding bind_stream
  bind_stream-IsBoundTo id i (some st) b s t e on exists q =
      let (next, found) = exists st refl in
      let same : s ≡ t = ap (λ r. r.1) q in
      let named : some st ≡ b = cc in
      subst (IsBoundTo id (some st) s b) same
        (refl, (st, next, sym named, found, ap stream_of e ∙ on, inl found, λ o h. (cc, found)))
  bind_stream-IsBoundTo id i none b s t e on exists q =
      let (a, u, got, rest) = >>=-parts (acquire_for_write others.contention) binding s t b q in
      let (events, aggregates, (st, named, (next, found, from))) =
        acquire_for_write-IsAcquired others.contention s u a got in
      let row : u.aggregates p.handler_key id ≡ some i =
        ap (λ f. f p.handler_key id) aggregates ∙ e in
      let same_b : a ≡ b = cc in
      let same : change p others id (λ i. record i { stream_id = a }) u ≡ t = ap (λ r. r.1) rest in
      subst (IsBoundTo id none s b)
        (sym (change_row p others fresh id (λ i. record i { stream_id = a }) i u row) ∙ same)
        (
          events,
          (
            st,
            next,
            sym same_b ∙ named,
            found,
            ap stream_of (
                  update_same u.aggregates p.handler_key id id (some (record i { stream_id = a }))
                    (==_refl id))
                ∙ named,
            from,
            λ o h. cc,
          ),
        )
    where
      binding : Option ℕ → Action Store (Option ℕ)
      binding a s = (inr a, change p others id (λ i. record i { stream_id = a }) s)

  -- A snapshot changes neither the events nor the streams nor what an instance is bound to.
  save_snapshot-cases :
      (id n : ℕ) (snapshot : Option ℕ) (s t : Store)
      → save_snapshot p others id snapshot (some n) s ≡ (inr tt, t)
      → (t.events ≡ s.events)
        × (t.streams ≡ s.streams)
        × (bound p.handler_key id t ≡ bound p.handler_key id s)
  unfolding save_snapshot
  save_snapshot-cases id n none s t q =
      subst
        (λ (u : Store).
          (u.events ≡ s.events)
          × (u.streams ≡ s.streams)
          × (bound p.handler_key id u ≡ bound p.handler_key id s))
        (ap (λ r. r.1) q) (refl, refl, refl)
  save_snapshot-cases id n (some bytes) s t q = rows (s.aggregates p.handler_key id) refl
    where
      f : AggregateInstance → AggregateInstance
      f i = record i { snapshot = some (bytes, n - 1) }

      after : change p others id f s ≡ t
      after = ap (λ r. r.1) q

      IsSame : Store → Type 0
      IsSame u =
          (u.events ≡ s.events)
          × (u.streams ≡ s.streams)
          × (bound p.handler_key id u ≡ bound p.handler_key id s)

      rows : (o : Option AggregateInstance) → s.aggregates p.handler_key id ≡ o → IsSame t
      rows none e = subst IsSame (sym (unchanged e) ∙ after) (refl, refl, refl)
        where
          unchanged : s.aggregates p.handler_key id ≡ none → change p others id f s ≡ s
          unchanged e =
              ap (λ o. elim o [ none ↦ s | some j ↦ changed p others fresh id (some (f j)) s ]) e
      rows (some i) e = subst IsSame (sym (change_row p others fresh id f i s e) ∙ after) (
        refl,
        refl,
        ap stream_of (update_same s.aggregates p.handler_key id id (some (f i)) (==_refl id))
            ∙ sym (ap stream_of e),
      )

  -- What aggregate.complete_with_events leaves when it succeeds.
  abbrev pub IsAppended : ℕ → ℕ → ℕ → Option ℕ → List NewEvent → Store → Store → Type 0
  IsAppended message_id id c stream es s t =
      (st : ℕ) × (next : ℕ) × (t.events
        ≡ s.events ++ rows_from st next c (some (p.handler_key, id)) es)
      × (get t.streams st ≡ some (next + length es))
      × (bound p.handler_key id t ≡ some st)
      × BeginsAt s st next
      × ((o : ℕ) → stream ≡ some o → (o ≡ st) × (get s.streams st ≡ some next))
      × (queued t.commands message_id ≡ false)

  pub complete_with_events-IsAppended :
      (message_id id c : ℕ) (i : AggregateInstance) (stream : Option ℕ) (es : List NewEvent)
      (root : Root) (s t : Store)
      → s.aggregates p.handler_key id ≡ some i
      → i.stream_id ≡ stream
      → ((st : ℕ) → stream ≡ some st → Exists s st)
      → complete_with_events p others message_id id c stream es root s ≡ (inr tt, t)
      → IsAppended message_id id c stream es s t
  unfolding complete_with_events
  complete_with_events-IsAppended message_id id c i stream es root s t e on exists q =
      elim (Bool-cases (p.down complete)) [
        | inl out ↦ refused (rw (out, complete_with_events) refl)
        | inr up ↦ completed (rw (up, complete_with_events) at q)
      ]
    where
      refused :
          complete_with_events p others message_id id c stream es root s ≡ (inl other, s)
          → IsAppended message_id id c stream es s t
      refused r = cc

      ending : Option ℕ → Action Store (Unit {0})
      ending n = save_snapshot p others id (p.handler.marshal root) n >> remove message_id

      writing : Option ℕ → Action Store (Unit {0})
      writing b = append b c (some (p.handler_key, id)) es >>= ending

      ended :
          (st next : ℕ) (u : Store)
          → u.events ≡ s.events
          → bound p.handler_key id u ≡ some st
          → BeginsAt s st next
          → ((o : ℕ) → stream ≡ some o → (o ≡ st) × (get s.streams st ≡ some next))
          → let N = next + length es in
            ending (some N) (record u {
              streams = set u.streams st N;
              events = u.events ++ rows_from st next c (some (p.handler_key, id)) es;
            })
              ≡ (inr tt, t)
            → IsAppended message_id id c stream es s t
      ended st next u events on' from kept r =
          let N = next + length es in
          let w = record u {
            streams = set u.streams st N;
            events = u.events ++ rows_from st next c (some (p.handler_key, id)) es;
          } in
          let (x, v, saved, removed) =
            >>=-parts (save_snapshot p others id (p.handler.marshal root) (some N))
              (λ u. remove message_id) w t tt r in
          let (events', streams', bound') =
            save_snapshot-cases id N (p.handler.marshal root) w v saved in
          let (events'', streams'', aggregates'', gone) = remove-cases message_id v t removed in
          (
            st,
            next,
            events''
                ∙ events'
                ∙ ap (λ xs. xs ++ rows_from st next c (some (p.handler_key, id)) es) events,
            ap (λ xs. get xs st) (streams'' ∙ streams')
                ∙ get-set u.streams st N st
                ∙ (rw (==_refl st) refl),
            ap (λ f. stream_of (f p.handler_key id)) aggregates'' ∙ bound' ∙ on',
            from,
            kept,
            gone,
          )

      written :
          (st next : ℕ) (u : Store)
          → u.events ≡ s.events
          → get u.streams st ≡ some next
          → bound p.handler_key id u ≡ some st
          → BeginsAt s st next
          → ((o : ℕ) → stream ≡ some o → (o ≡ st) × (get s.streams st ≡ some next))
          → writing (some st) u ≡ (inr tt, t)
          → IsAppended message_id id c stream es s t
      written st next u events found on' from kept r =
          elim (append-found st c next (some (p.handler_key, id)) es u found) [
            | inl full ↦
                halted
                  (sym (>>=-at (append (some st) c (some (p.handler_key, id)) es) ending full) ∙ r)
            | inr done ↦
                ended st next u events on' from kept
                  (sym (>>=-at (append (some st) c (some (p.handler_key, id)) es) ending done) ∙ r)
          ]
        where
          halted :
              ◌≡◌ {A = (Failure ⊎ Unit {0}) × Store} (inl other, u) (inr tt, t)
              → IsAppended message_id id c stream es s t
          halted h = cc

      completed :
          (bind_stream p others id stream >>= writing) s ≡ (inr tt, t)
          → IsAppended message_id id c stream es s t
      completed r =
          let (b, u, taken, wrote) = >>=-parts (bind_stream p others id stream) writing s t tt r in
          let (events, (st, next, named, found, on', from, kept)) =
            bind_stream-IsBoundTo id i stream b s u e on exists taken in
          written st next u events found on' from kept
            (subst (λ b. writing b u ≡ (inr tt, t)) named wrote)

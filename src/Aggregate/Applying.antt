-- ===== src/Aggregate/Applying.antt =====
-- applyHistoricalEvents of internal/aggregate/commandpump.go against the whole history of an instance.
use runkit.Prelude.{
  ltb, leb, if◌then◌else◌, le→leb, Option-cases, filter, All, ℕ, ◌≡◌, refl, sym, ap, ◌∙◌, ◌⊎◌, inl,
  inr, false, Option, none, some, List, [], ◌∷◌, ◌++◌, arith,
}
use runkit.Stream.{Envelope}
use runkit.Source.Local.{order_by_offset}
use runkit.Transaction.{Failure, query_events, pure, ◌>>=◌, >>=-at}
use runkit.Schema.{Store, AggregateInstance}
use runkit.Aggregate.{
  CommandPump, Others, new_root, apply_events, historical_events, apply_historical_events,
}
use runkit.Aggregate.History.{owned, history, history-split, history_from}
use runkit.Aggregate.Sourced.{stream_of, bound}

module _ {Root : Type 0} (p : CommandPump Root) (others : Others) (fresh : Root) where
  pub apply_events-append :
      (xs ys : List Envelope) (root after : Root)
      → apply_events p others xs root ≡ inr after
      → apply_events p others (xs ++ ys) root ≡ apply_events p others ys after
  unfolding apply_events
  apply_events-append [] ys root after h =
      let same : root ≡ after = cc in ap (apply_events p others ys) same
  apply_events-append (x ∷ xs) ys root after h =
      elim (Option-cases (p.packer.unpack_event x.header x.body)) [
        | inl unreadable ↦ cc (sym (rw (unreadable, apply_events) at h))
        | inr (event, read) ↦ elim (Option-cases (p.handler.apply event root)) [
          | inl panics ↦ cc (sym (rw (read, panics, apply_events) at h))
          | inr (root', applied) ↦
              rw (read, applied, apply_events)
                (apply_events-append xs ys root' after (rw (read, applied, apply_events) at h))
        ]
      ]

  abbrev pub with_stream : Option ℕ → Failure ⊎ Root → Failure ⊎ (Root × Option ℕ)
  with_stream stream (inl e) = inl e
  with_stream stream (inr root) = inr (root, stream)

  -- The outcome of replaying the whole history of an instance on a new root.
  abbrev pub replayed : ℕ → Store → Failure ⊎ (Root × Option ℕ)
  replayed id s =
      with_stream (bound p.handler_key id s)
        (apply_events p others (history p.handler_key id s.events) fresh)

  historical_events-eq :
      (stream n id : ℕ) (s : Store)
      → All (λ e. e.stream_id ≡ stream) (owned p.handler_key id s.events)
      → historical_events p others stream n id s
        ≡ filter (λ e. leb n e.offset) (history p.handler_key id s.events)
  unfolding historical_events
  historical_events-eq stream n id s a = history_from p.handler_key id stream n s.events a

  pub historical_events-All :
      (stream id : ℕ) (s : Store)
      → All (λ e. e.stream_id ≡ stream) (owned p.handler_key id s.events)
      → historical_events p others stream 0 id s ≡ history p.handler_key id s.events
  historical_events-All stream id s a =
      historical_events-eq stream 0 id s a ∙ none_left_out (history p.handler_key id s.events)
    where
      none_left_out : (es : List Envelope) → filter (λ e. leb 0 e.offset) es ≡ es
      none_left_out [] = refl
      none_left_out (e ∷ es) = rw (le→leb 0 e.offset (omega arith)) (ap (◌∷◌ e) (none_left_out es))

  -- The events from an offset on, applied to the state after those before it.
  pub historical_events_rest :
      (stream n id : ℕ) (s : Store) (root : Root)
      → All (λ e. e.stream_id ≡ stream) (owned p.handler_key id s.events)
      → apply_events p others
          (filter (λ e. ltb e.offset n) (history p.handler_key id s.events))
          fresh
        ≡ inr root
      → apply_events p others (historical_events p others stream n id s) root
        ≡ apply_events p others (history p.handler_key id s.events) fresh
  historical_events_rest stream n id s root a h =
      ap (λ es. apply_events p others es root) (historical_events-eq stream n id s a)
      ∙ sym (
          apply_events-append _ (filter (λ e. leb n e.offset) (history p.handler_key id s.events))
            fresh root h)
      ∙ ap (λ es. apply_events p others es fresh) (history-split p.handler_key id n s.events)

  pub replayed_unbound :
      (id : ℕ) (s : Store)
      → bound p.handler_key id s ≡ none
      → owned p.handler_key id s.events ≡ []
      → inr (fresh, none) ≡ replayed id s
  unfolding apply_events
  replayed_unbound id s b own =
      ap (λ es. with_stream none (apply_events p others (order_by_offset es) fresh)) (sym own)
      ∙ ap
          (λ stream.
            with_stream stream (apply_events p others (history p.handler_key id s.events) fresh))
          (sym b)

  pub new_root-eq : (s : Store) → p.handler.new ≡ some fresh → new_root p others s ≡ (inr fresh, s)
  unfolding new_root
  new_root-eq s new = rw new

  apply_historical_events-eq :
      (stream n id : ℕ) (root : Root) (s : Store)
      → p.down query_events ≡ false
      → apply_historical_events p others stream n id root s
        ≡ (apply_events p others (historical_events p others stream n id s) root, s)
  unfolding apply_historical_events
  apply_historical_events-eq stream n id root s up =
      ap
        (λ d.
          if d
          then (inl Failure.other, s)
          else (apply_events p others (historical_events p others stream n id s) root, s))
        up

  -- The end of loadInstance, from the root that the snapshot gives.
  pub finished :
      (id stream n : ℕ) (s : Store) (root : Root)
      → bound p.handler_key id s ≡ some stream
      → p.down query_events ≡ false
      → apply_events p others (historical_events p others stream n id s) root
        ≡ apply_events p others (history p.handler_key id s.events) fresh
      → (apply_historical_events p others stream n id root >>= λ loaded. pure (loaded, some stream))
          s
        ≡ (replayed id s, s)
  finished id stream n s root b up h =
      >>=-at (apply_historical_events p others stream n id root)
        (λ loaded. pure (loaded, some stream)) (apply_historical_events-eq stream n id root s up)
      ∙ outcome (apply_events p others (historical_events p others stream n id s) root)
      ∙ ap (λ o. (with_stream (some stream) o, s)) h
      ∙ ap
          (λ st.
            (with_stream st (apply_events p others (history p.handler_key id s.events) fresh), s))
          (sym b)
    where
      outcome :
          (o : Failure ⊎ Root)
          → ◌≡◌ {A = (Failure ⊎ (Root × Option ℕ)) × Store}
              (elim o [ inl e ↦ (inl e, s) | inr a ↦ (inr (a, some stream), s) ])
              (with_stream (some stream) o, s)
      outcome (inl e) = refl
      outcome (inr a) = refl

  pub bound-eq :
      (id : ℕ) (s : Store) {i : AggregateInstance}
      → s.aggregates p.handler_key id ≡ some i
      → bound p.handler_key id s ≡ i.stream_id
  bound-eq id s e = ap stream_of e

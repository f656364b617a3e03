-- ===== src/Aggregate/Replaying.antt =====
-- loadInstance of internal/aggregate/commandpump.go against the history of the instance.
use runkit.Prelude.{
  ◌==◌, Bool-cases, Option-cases, ℕ, suc, ◌≡◌, refl, ap, ◌∙◌, ◌⊎◌, inl, inr, true, false, Option,
  none, some, arith,
}
use runkit.Transaction.{
  Failure, other, lock_instance, create_instance, query_events, Action, pure, ◌>>=◌, >>=-at,
}
use runkit.Schema.{Store, AggregateInstance}
use runkit.Aggregate.{
  CommandPump, Others, Row, row_of, new_root, apply_events, apply_historical_events, restore,
  find_instance, load_rest, load_root, load_instance,
}
use runkit.Aggregate.History.{history}
use runkit.Aggregate.Sourced.{snapshot_of, bound, IsSourced, AreTrusted}
use runkit.Aggregate.Finding.{find_instance-cases, find_instance-eq}
use runkit.Aggregate.Applying.{
  with_stream, replayed, historical_events-All, historical_events_rest, replayed_unbound,
  new_root-eq, finished, bound-eq,
}

module _ {Root : Type 0} (p : CommandPump Root) (others : Others) (fresh : Root) where
  restore_read :
      (row : Row) (s : Store) (root : Root)
      → (row.next_offset == 0) ≡ false
      → p.handler.unmarshal row.snapshot fresh ≡ some root
      → restore p others row fresh s ≡ (inr (row.next_offset, root), s)
  unfolding restore
  restore_read row s root nonzero read = rw (nonzero, read)

  restore_none :
      (row : Row) (s : Store)
      → (row.next_offset == 0) ≡ true
      → restore p others row fresh s ≡ (inr (0, fresh), s)
  unfolding restore
  restore_none row s zero' = rw zero'

  restore_unread :
      (row : Row) (s : Store)
      → (row.next_offset == 0) ≡ false
      → p.handler.unmarshal row.snapshot fresh ≡ none
      → p.handler.new ≡ some fresh
      → restore p others row fresh s ≡ (inr (0, fresh), s)
  unfolding restore
  restore_unread row s nonzero unreadable new = rw (nonzero, unreadable, new)

  -- What loadInstance does once the snapshot has been applied.
  abbrev applying : ℕ → ℕ → ℕ × Root → Action Store (Root × Option ℕ)
  applying id stream restored =
      apply_historical_events p others stream restored.0 id restored.1 >>= λ loaded.
      pure (loaded, some stream)

  nonzero : (n : ℕ) → (suc n == 0) ≡ false
  nonzero n = ground arith

  load_rest-replayed :
      (id : ℕ) (stream : Option ℕ) (snapshot : Option (ℕ × ℕ)) (s : Store)
      → p.handler.new ≡ some fresh
      → p.down query_events ≡ false
      → IsSourced p others fresh s
      → s.aggregates p.handler_key id ≡ some (record { stream_id = stream; snapshot = snapshot })
      → load_rest p others id
          (row_of (record { stream_id = stream; snapshot = snapshot }))
          stream
          fresh
          s
        ≡ (replayed p others fresh id s, s)
  unfolding load_rest
  load_rest-replayed id none snapshot s new up v e =
      ap (λ r. (r, s))
        (replayed_unbound p others fresh id s (bound-eq p others fresh id s e)
          ((v.kept id).unbound (bound-eq p others fresh id s e)))
  load_rest-replayed id (some stream) none s new up v e =
      >>=-at (restore p others (row_of (record { stream_id = some stream; snapshot = none })) fresh)
        (applying id stream) (restore_none _ s refl)
      ∙ finished p others fresh id stream 0 s fresh (bound-eq p others fresh id s e) up (
          ap (λ es. apply_events p others es fresh)
            (historical_events-All p others fresh stream id s
              ((v.kept id).on_stream stream (bound-eq p others fresh id s e))))
  load_rest-replayed id (some stream) (some (bytes, offset)) s new up v e =
      let row = row_of (record { stream_id = some stream; snapshot = some (bytes, offset) }) in
      let b = bound-eq p others fresh id s e in
      elim (Option-cases (p.handler.unmarshal bytes fresh)) [
        | inl unreadable ↦
            >>=-at (restore p others row fresh) (applying id stream)
              (restore_unread row s (nonzero offset) unreadable new)
            ∙ finished p others fresh id stream 0 s fresh b up (
                ap (λ es. apply_events p others es fresh)
                  (historical_events-All p others fresh stream id s
                    ((v.kept id).on_stream stream b)))
        | inr (root, read) ↦
            >>=-at (restore p others row fresh) (applying id stream)
              (restore_read row s root (nonzero offset) read)
            ∙ finished p others fresh id stream (suc offset) s root b up (
                historical_events_rest p others fresh stream (suc offset) id s root
                  ((v.kept id).on_stream stream b)
                  ((v.kept id).snapshots bytes offset root (ap snapshot_of e) read))
      ]

  load_root-replayed :
      (id : ℕ) (i : AggregateInstance) (s : Store)
      → p.handler.new ≡ some fresh
      → p.down query_events ≡ false
      → IsSourced p others fresh s
      → s.aggregates p.handler_key id ≡ some i
      → load_root p others id (row_of i) s ≡ (replayed p others fresh id s, s)
  unfolding load_root
  load_root-replayed id i s new up v e =
      >>=-at (new_root p others) (load_rest p others id (row_of i) i.stream_id)
        (new_root-eq p others fresh s new)
      ∙ load_rest-replayed id i.stream_id i.snapshot s new up v e

  -- A root that was loaded is the replay of the history, and its stream is that of the instance.
  abbrev pub IsLoaded : ℕ → Failure ⊎ (Root × Option ℕ) → Store → Type 0
  IsLoaded id o s =
      (root : Root) (stream : Option ℕ)
      → o ≡ inr (root, stream)
      → (apply_events p others (history p.handler_key id s.events) fresh ≡ inr root)
        × (bound p.handler_key id s ≡ stream)

  replayed-IsLoaded : (id : ℕ) (s : Store) → IsLoaded id (replayed p others fresh id s) s
  replayed-IsLoaded id s root stream h =
      go (apply_events p others (history p.handler_key id s.events) fresh) h
    where
      go :
          (o : Failure ⊎ Root)
          → with_stream p others fresh (bound p.handler_key id s) o ≡ inr (root, stream)
          → (o ≡ inr root) × (bound p.handler_key id s ≡ stream)
      go (inl e) h = cc
      go (inr r) h = (cc, cc)

  restore_total :
      (row : Row) (s : Store)
      → p.handler.new ≡ some fresh
      → (x : ℕ × Root) × (restore p others row fresh s ≡ (inr x, s))
  restore_total row s new = elim (Bool-cases (row.next_offset == 0)) [
    | inl nothing ↦ ((0, fresh), restore_none row s nothing)
    | inr something ↦ elim (Option-cases (p.handler.unmarshal row.snapshot fresh)) [
      | inl unreadable ↦ ((0, fresh), restore_unread row s something unreadable new)
      | inr (root, read) ↦ ((row.next_offset, root), restore_read row s root something read)
    ]
  ]

  apply_historical_events_down :
      (stream n id : ℕ) (root : Root) (s : Store)
      → p.down query_events ≡ true
      → apply_historical_events p others stream n id root s ≡ (inl other, s)
  unfolding apply_historical_events
  apply_historical_events_down stream n id root s down = rw down

  load_rest_down :
      (id : ℕ) (row : Row) (stream : ℕ) (s : Store)
      → p.handler.new ≡ some fresh
      → p.down query_events ≡ true
      → load_rest p others id row (some stream) fresh s ≡ (inl other, s)
  unfolding load_rest
  load_rest_down id row stream s new down =
      let (x, restored) = restore_total row s new in
      >>=-at (restore p others row fresh) (applying id stream) restored
      ∙ >>=-at (apply_historical_events p others stream x.0 id x.1)
          (λ loaded. pure (loaded, some stream))
          (apply_historical_events_down stream x.0 id x.1 s down)

  load_rest-cases :
      (id : ℕ) (stream : Option ℕ) (snapshot : Option (ℕ × ℕ)) (s : Store)
      → p.handler.new ≡ some fresh
      → IsSourced p others fresh s
      → s.aggregates p.handler_key id ≡ some (record { stream_id = stream; snapshot = snapshot })
      → (o : Failure ⊎ (Root × Option ℕ)) × (load_rest p others id
            (row_of (record { stream_id = stream; snapshot = snapshot }))
            stream
            fresh
            s
          ≡ (o, s))
        × IsLoaded id o s
  unfolding load_rest
  load_rest-cases id none snapshot s new v e = (
    replayed p others fresh id s,
    ap (λ r. (r, s))
        (replayed_unbound p others fresh id s (bound-eq p others fresh id s e)
          ((v.kept id).unbound (bound-eq p others fresh id s e))),
    replayed-IsLoaded id s,
  )
  load_rest-cases id (some stream) snapshot s new v e = elim (Bool-cases (p.down query_events)) [
    | inl down ↦ (inl other, load_rest_down id _ stream s new down, λ root st h. cc)
    | inr up ↦ (
      replayed p others fresh id s,
      load_rest-replayed id (some stream) snapshot s new up v e,
      replayed-IsLoaded id s,
    )
  ]

  -- Suppose that the tables are sourced for the instances of an aggregate handler (the events,
  -- the stream and the snapshot of each instance agree, and events are below the next offsets
  -- of their streams) and stay so under what other transactions commit, that the handler makes
  -- a new root, that no statement meets an outage, and that no other transaction has locked the
  -- instance. Then loadInstance leaves tables s' that are sourced, and in them it gives what is
  -- had from the whole history of the instance: the stream that the instance is bound to, and a
  -- new root to which all of its events have been applied in the order of their offsets, or the
  -- failure of the first event that can not be applied. Whether there is a snapshot, and
  -- whether it can be read, makes no difference.
  pub load_instance-replayed :
      (id : ℕ) (s : Store)
      → p.handler.new ≡ some fresh
      → p.down lock_instance ≡ false
      → p.down create_instance ≡ false
      → p.down query_events ≡ false
      → others.locked ≡ false
      → AreTrusted p others fresh
      → IsSourced p others fresh s
      → (s' : Store) × (load_instance p others id s ≡ (replayed p others fresh id s', s'))
        × IsSourced p others fresh s'
  unfolding load_instance
  load_instance-replayed id s new up up' up'' free trust v =
      let (i, s', found, e, v') = find_instance-eq p others fresh id s up up' free trust v in
      (
        s',
        >>=-at (find_instance p others id) (load_root p others id) found
            ∙ load_root-replayed id i s' new up'' v' e,
        v',
      )

  -- loadInstance fails and changes nothing but for a new instance, or gives the root as it should be.
  pub load_instance-cases :
      (id : ℕ) (s : Store)
      → p.handler.new ≡ some fresh
      → AreTrusted p others fresh
      → IsSourced p others fresh s
      → (o : Failure ⊎ (Root × Option ℕ)) × (s' : Store) × (load_instance p others id s ≡ (o, s'))
        × IsSourced p others fresh s'
        × (((e : Failure) × (o ≡ inl e))
            ⊎ ((i : AggregateInstance) × (s'.aggregates p.handler_key id ≡ some i)
                × IsLoaded id o s'))
  unfolding load_instance load_root
  load_instance-cases id s new trust v = elim (find_instance-cases p others fresh id s trust v) [
    | inl (e, h) ↦
        (inl e, s, >>=-at (find_instance p others id) (load_root p others id) h, v, inl (e, refl))
    | inr (i, s', h, e, v') ↦
        let (o, loads, good) = load_rest-cases id i.stream_id i.snapshot s' new v' e in
        (
          o,
          s',
          >>=-at (find_instance p others id) (load_root p others id) h
              ∙ >>=-at (new_root p others) (load_rest p others id (row_of i) i.stream_id)
                  (new_root-eq p others fresh s' new)
              ∙ loads,
          v',
          inr (i, e, good),
        )
  ]

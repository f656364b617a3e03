-- ===== src/Aggregate/Sourced.antt =====
-- What the tables of the aggregates have to be, and that a new instance keeps them so.
use runkit.Prelude.{
  ltb, ◌==◌, ==_iff, Bool-cases, filter, All, ℕ, suc, ◌<◌, ◌≡◌, refl, sym, subst, inl, inr, Option,
  none, some, List, [],
}
use runkit.Prelude.Maps.{get}
use runkit.Stream.{Envelope}
use runkit.Schema.{Store, AggregateInstance, Event, update, update_same, update_other}
use runkit.Aggregate.{CommandPump, Others, apply_events}
use runkit.Aggregate.History.{owned, history}

-- The stream and the snapshot of an instance, if there is one.
abbrev pub stream_of : Option AggregateInstance → Option ℕ
stream_of none = none
stream_of (some i) = i.stream_id

abbrev pub snapshot_of : Option AggregateInstance → Option (ℕ × ℕ)
snapshot_of none = none
snapshot_of (some i) = i.snapshot

abbrev pub bound : ℕ → ℕ → Store → Option ℕ
bound key id s = stream_of (s.aggregates key id)

-- The offset of an event is below the next one of its stream.
abbrev pub IsPlaced : List (ℕ × ℕ) → Envelope → Type 0
IsPlaced streams e = (next : ℕ) × (get streams e.stream_id ≡ some next) × (e.offset < next)

module _ {Root : Type 0} (p : CommandPump Root) (others : Others) (fresh : Root) where
  -- The events of an instance are on its stream, and its snapshot is the state after the events up to its offset, if it
  -- can be read at all.
  pub record IsKept (streams : List (ℕ × ℕ)) (events : List Event) (id : ℕ)
      (i : Option AggregateInstance) : Type 0 where
    pub unbound : stream_of i ≡ none → owned p.handler_key id events ≡ []
    pub on_stream :
        (stream : ℕ)
        → stream_of i ≡ some stream
        → All (λ e. e.stream_id ≡ stream) (owned p.handler_key id events)
    pub snapshots :
        (bytes offset : ℕ) (root : Root)
        → snapshot_of i ≡ some (bytes, offset)
        → p.handler.unmarshal bytes fresh ≡ some root
        → apply_events p others
            (filter (λ e. ltb e.offset (suc offset)) (history p.handler_key id events))
            fresh
          ≡ inr root
    pub covered :
        (bytes offset stream : ℕ)
        → snapshot_of i ≡ some (bytes, offset)
        → stream_of i ≡ some stream
        → (next : ℕ) × (get streams stream ≡ some next) × (offset < next)
    pub checked : stream_of i ≡ none → snapshot_of i ≡ none

  pub record IsSourced (s : Store) : Type 0 where
    pub placed : All (λ e. IsPlaced s.streams e.envelope) s.events
    pub kept : (id : ℕ) → IsKept s.streams s.events id (s.aggregates p.handler_key id)

  -- What the other transactions commit leaves the tables so.
  abbrev pub AreTrusted : Type 0
  AreTrusted = (s : Store) → IsSourced s → IsSourced (others.meanwhile s)

  -- One row of the instances is changed.
  abbrev pub changed : ℕ → Option AggregateInstance → Store → Store
  changed id i s = record s { aggregates = update s.aggregates p.handler_key id i }

  pub changed-IsSourced :
      (id : ℕ) (i : Option AggregateInstance) (s : Store)
      → IsKept s.streams s.events id i
      → IsSourced s
      → IsSourced (changed id i s)
  changed-IsSourced id i s k v = record {
    placed = v.placed;
    kept = λ id'. elim (Bool-cases (id == id')) [
      | inl same ↦
          subst (IsKept s.streams s.events id')
            (sym (update_same s.aggregates p.handler_key id id' i same))
            (subst (λ n. IsKept s.streams s.events n i) ((==_iff id id').0 same) k)
      | inr apart ↦
          subst (IsKept s.streams s.events id')
            (sym (update_other s.aggregates p.handler_key id id' i apart)) (v.kept id')
    ];
  }

  -- A new instance has no stream and no snapshot.
  abbrev pub blank : AggregateInstance
  blank = record { stream_id = none; snapshot = none }

  pub blank-IsKept :
      (streams : List (ℕ × ℕ)) (events : List Event) (id : ℕ)
      → owned p.handler_key id events ≡ []
      → IsKept streams events id (some blank)
  blank-IsKept streams events id h = record {
    unbound = λ b. h;
    on_stream = λ stream b. cc;
    snapshots = λ bytes offset root snap read. cc;
    covered = λ bytes offset stream snap on. cc;
    checked = λ b. refl;
  }

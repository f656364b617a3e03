-- ===== src/Aggregate.antt =====
-- internal/aggregate/commandpump.go and commandscope.go, with the functions of internal/schema/ddl/20-aggregate: the driver
-- of the message pump that has the commands of one aggregate handler handled.
pub mod Commands
pub mod History
pub mod Sourced
pub mod Finding
pub mod Applying
pub mod Replaying
pub mod Writing
pub mod Completing
pub mod Recording
pub mod Sourcing
pub mod Handling
pub mod Delivering
pub mod Appending
pub mod Appended
pub mod Deciding
use runkit.Prelude.{
  ltb, leb, ◌==◌, if◌then◌else◌, ltb→lt, lt→ltb, leb→le, le→leb, lt→leb, ==_iff, ==_refl, tests,
  Bool-cases, Option-cases, length, get_elem?, take, drop, replicate, length-append,
  take-append-drop, length-drop, length-take, drop-append_le, drop-append_add,
  get_elem?-append_left, get_elem?-append_right, get_elem?_total, get_elem?-take, filter,
  filter-append, filter-filter, filter-eq, length-filter-le, All, All-append, All-replicate,
  All-filter, All-imp, All-left, All-right, has, u64_mod, inc64, inc64-eq-suc, ℕ, zero, suc, ◌+◌,
  ◌-◌, ◌*◌, ◌/◌, ◌%◌, ◌^◌, ◌≤◌, ◌<◌, min, max, ◌≡◌, refl, sym, ap, ◌∙◌, subst, ◌≢◌, ◌↔◌, ◌⊎◌, inl,
  inr, Bool, true, false, not, ◌&&◌, ◌||◌, Option, none, some, List, [], ◌∷◌, ◌++◌, map, append-nil,
  append_assoc, arith,
}
use runkit.Stream.{Envelope}
use runkit.Source.Local.{order_by_offset}
use runkit.Transaction.{
  Failure, failed, busy, other, Outage, lock_instance, create_instance, query_events, complete,
  Action, pure, ◌>>=◌, ◌>>◌,
}
use runkit.Pump.{Delivery, Driver}
use runkit.Schema.{Store, AggregateInstance, Event, update}
use runkit.Schema.CommandQueue.{remove, acquire_delivery, postpone_delivery}
use runkit.Schema.EventStream.{NewEvent, Contention, acquire_for_write, append}

-- The application's handler, over its roots. A call that panics or fails is none. HandleCommand records events and
-- may panic after them; it changes the root only by the events that it records, as dogma requires.
pub record Handler (Root : Type 0) : Type 0 where
  pub route : ℕ → Option ℕ
  pub new : Option Root
  pub apply : ℕ → Root → Option Root
  pub handle : ℕ → Root → List ℕ × Bool
  pub marshal : Root → Option ℕ
  pub unmarshal : ℕ → Root → Option Root

-- The messages in envelopes, which packages outside of the repository pack and unpack: the command in an envelope and
-- its correlation ID, the event in the envelope of a row, and the envelope of the event that a command to an instance
-- records at a position. `permits` and `validates` are the checks of a new event.
pub record Packer : Type 0 where
  pub unpack_command : ℕ → Option ℕ
  pub correlation_id : ℕ → ℕ
  pub unpack_event : ℕ → ℕ → Option ℕ
  pub pack_event : ℕ → ℕ → ℕ → ℕ → NewEvent
  pub permits : ℕ → Bool
  pub validates : ℕ → Bool

-- CommandPump.
pub record CommandPump (Root : Type 0) : Type 0 where
  pub handler : Handler Root
  pub handler_key : ℕ
  pub packer : Packer
  pub command_types : List ℕ
  pub down : Outage

-- What the other transactions do: whether one has locked the instance, what they commit before the instance is created,
-- and the streams that they have locked. `now` is the database's time, and `taken` are the locked commands.
pub record Others : Type 0 where
  pub locked : Bool
  pub meanwhile : Store → Store
  pub contention : Contention
  pub now : ℕ
  pub taken : ℕ → Bool

-- What is read of an instance: its stream, the offset after its snapshot, the snapshot and whether the instance exists.
pub record Row : Type 0 where
  pub stream_id : Option ℕ
  pub next_offset : ℕ
  pub snapshot : ℕ
  pub exists : Bool

abbrev pub row_of : AggregateInstance → Row
row_of i = record {
  stream_id = i.stream_id;
  next_offset = elim i.snapshot [ none ↦ 0 | some (snapshot, offset) ↦ suc offset ];
  snapshot = elim i.snapshot [ none ↦ 0 | some (snapshot, offset) ↦ snapshot ];
  exists = true;
}

-- Whether an event was recorded by an instance of a handler.
abbrev pub is_owned : ℕ → ℕ → Event → Bool
is_owned key instance_id e = elim e.owner [
  | none ↦ false
  | some (k, i) ↦ k == key && i == instance_id
]

module _ {Root : Type 0} (p : CommandPump Root) (others : Others) where
  -- tryLockInstance.
  unfoldable pub try_lock_instance : ℕ → Action Store Row
  try_lock_instance id s =
      if p.down lock_instance then (inl other, s) else elim (s.aggregates p.handler_key id) [
        | none ↦
            (inr (record { stream_id = none; next_offset = 0; snapshot = 0; exists = false }), s)
        | some i ↦ if others.locked then (inl busy, s) else (inr (row_of i), s)
      ]

  -- tryCreateInstance.
  unfoldable pub try_create_instance : ℕ → Action Store Row
  try_create_instance id before =
      if p.down create_instance
      then (inl other, before)
      else (let s = others.meanwhile before in
          elim (s.aggregates p.handler_key id) [
            | some i ↦ (inr (row_of i), s)
            | none ↦
                (let i : AggregateInstance = record { stream_id = none; snapshot = none } in
                  (
                    inr (row_of i),
                    record s { aggregates = update s.aggregates p.handler_key id (some i) },
                  ))
          ])

  -- newRoot.
  unfoldable pub new_root : Action Store Root
  new_root s = elim p.handler.new [ none ↦ (inl failed, s) | some root ↦ (inr root, s) ]

  -- The loop of applyHistoricalEvents over the rows.
  unfoldable pub apply_events : List Envelope → Root → Failure ⊎ Root
  apply_events [] root = inr root
  apply_events (e ∷ es) root = elim (p.packer.unpack_event e.header e.body) [
    | none ↦ inl failed
    | some event ↦ elim (p.handler.apply event root) [
      | none ↦ inl failed
      | some root' ↦ apply_events es root'
    ]
  ]

  -- The query of applyHistoricalEvents.
  unfoldable pub historical_events : ℕ → ℕ → ℕ → Store → List Envelope
  historical_events stream_id offset id s = order_by_offset (
      map (λ e. e.envelope)
        (filter
          (λ e.
            e.envelope.stream_id == stream_id
            && (leb offset e.envelope.offset && is_owned p.handler_key id e))
          s.events))

  -- applyHistoricalEvents.
  unfoldable pub apply_historical_events : ℕ → ℕ → ℕ → Root → Action Store Root
  apply_historical_events stream_id offset id root s =
      if p.down query_events
      then (inl other, s)
      else (apply_events (historical_events stream_id offset id s) root, s)

  -- The part of loadInstance that applies the snapshot: the root and the offset from which events are applied to it.
  unfoldable pub restore : Row → Root → Action Store (ℕ × Root)
  restore row root s =
      if row.next_offset == 0
      then (inr (0, root), s)
      else elim (p.handler.unmarshal row.snapshot root) [
        | some root' ↦ (inr (row.next_offset, root'), s)
        | none ↦ elim p.handler.new [ none ↦ (inl failed, s) | some fresh ↦ (inr (0, fresh), s) ]
      ]

  -- The row that loadInstance uses.
  unfoldable pub find_instance : ℕ → Action Store Row
  find_instance id = do
    row ← try_lock_instance id
    if row.exists then pure row else try_create_instance id

  -- The part of loadInstance that follows: with a stream, the events that the snapshot does not cover are applied.
  unfoldable pub load_rest : ℕ → Row → Option ℕ → Root → Action Store (Root × Option ℕ)
  load_rest id row none root = pure (root, none)
  load_rest id row (some stream_id) root = do
    restored ← restore row root
    loaded ← apply_historical_events stream_id restored.0 id restored.1
    pure (loaded, some stream_id)

  unfoldable pub load_root : ℕ → Row → Action Store (Root × Option ℕ)
  load_root id row = new_root >>= load_rest id row row.stream_id

  -- loadInstance.
  unfoldable pub load_instance : ℕ → Action Store (Root × Option ℕ)
  load_instance id = find_instance id >>= load_root id

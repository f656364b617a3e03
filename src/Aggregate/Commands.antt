-- ===== src/Aggregate/Commands.antt =====
-- HandleDelivery of internal/aggregate/commandpump.go: the events that a command records are appended to the stream of its
-- instance, by the functions of internal/schema/ddl/20-aggregate/10-funcs.sql.
use runkit.Prelude.{
  ◌==◌, if◌then◌else◌, length, ℕ, suc, ◌-◌, ◌⊎◌, inl, inr, not, ◌||◌, Option, none, some, List, [],
  ◌∷◌,
}
use runkit.Transaction.{Failure, failed, other, complete, Action, pure, ◌>>=◌, ◌>>◌}
use runkit.Pump.{Delivery, Driver}
use runkit.Schema.{Store, AggregateInstance, update}
use runkit.Schema.CommandQueue.{remove, acquire_delivery, postpone_delivery}
use runkit.Schema.EventStream.{NewEvent, acquire_for_write, append}
use runkit.Aggregate.{CommandPump, Others, load_instance}

module _ {Root : Type 0} (p : CommandPump Root) (others : Others) where
  -- commandScope.RecordEvent, for the events that HandleCommand records; none is a panic.
  unfoldable pub record_events : ℕ → ℕ → ℕ → List ℕ → Root → Option (List NewEvent × Root)
  record_events env id position [] root = some ([], root)
  record_events env id position (event ∷ events) root =
      if not (p.packer.permits event) || not (p.packer.validates event)
      then none
      else elim (p.handler.apply event root) [
        | none ↦ none
        | some root' ↦ elim (record_events env id (suc position) events root') [
          | none ↦ none
          | some (packed, final) ↦ some (p.packer.pack_event env id position event ∷ packed, final)
        ]
      ]

  -- aggregate.complete_without_events, with completeWithoutEvents.
  unfoldable pub complete_without_events : ℕ → ℕ → Action Store (Unit {0})
  complete_without_events message_id id s =
      if p.down complete then (inl other, s) else elim (s.aggregates p.handler_key id) [
        | none ↦ remove message_id s
        | some i ↦ elim i.stream_id [
          | some stream_id ↦ remove message_id s
          | none ↦
              remove message_id
                (record s { aggregates = update s.aggregates p.handler_key id none })
        ]
      ]

  -- UPDATE aggregate.instances.
  abbrev pub change : ℕ → (AggregateInstance → AggregateInstance) → Store → Store
  change id f s = elim (s.aggregates p.handler_key id) [
    | none ↦ s
    | some i ↦ record s { aggregates = update s.aggregates p.handler_key id (some (f i)) }
  ]

  abbrev bind : ℕ → Option ℕ → Action Store (Option ℕ)
  bind id acquired s = (inr acquired, change id (λ i. record i { stream_id = acquired }) s)

  -- The stream of aggregate.complete_with_events.
  unfoldable pub bind_stream : ℕ → Option ℕ → Action Store (Option ℕ)
  bind_stream id (some stream_id) = pure (some stream_id)
  bind_stream id none = do acquired ← acquire_for_write others.contention; bind id acquired

  -- The snapshot of aggregate.complete_with_events. A snapshot with no offset violates the CHECK.
  unfoldable pub save_snapshot : ℕ → Option ℕ → Option ℕ → Action Store (Unit {0})
  save_snapshot id none next_offset s = (inr tt, s)
  save_snapshot id (some snapshot) none s = (inl other, s)
  save_snapshot id (some snapshot) (some next_offset) s =
      (inr tt, change id (λ i. record i { snapshot = some (snapshot, next_offset - 1) }) s)

  -- completeWithEvents, with marshalSnapshot and aggregate.complete_with_events.
  unfoldable pub complete_with_events :
      ℕ → ℕ → ℕ → Option ℕ → List NewEvent → Root → Action Store (Unit {0})
  complete_with_events message_id id correlation_id stream_id events root s =
      if p.down complete
      then (inl other, s)
      else (do
        bound ← bind_stream id stream_id
        next_offset ← append bound correlation_id (some (p.handler_key, id)) events
        save_snapshot id (p.handler.marshal root) next_offset
        remove message_id)
          s

  -- routeCommandToInstance.
  unfoldable pub route_command_to_instance : ℕ → Failure ⊎ ℕ
  route_command_to_instance command = elim (p.handler.route command) [
    | none ↦ inl failed
    | some id ↦ if id == 0 then inl failed else inr id
  ]

  -- The part of HandleDelivery after the instance is loaded.
  unfoldable pub handle_command : Delivery → ℕ → ℕ → ℕ → Root × Option ℕ → Action Store (Unit {0})
  handle_command d env id command loaded s =
      let decided = p.handler.handle command loaded.0 in
      elim (record_events env id 0 decided.0 loaded.0) [
        | none ↦ (inl failed, s)
        | some (events, root) ↦
            if decided.1
            then (inl failed, s)
            else if length events == 0
            then complete_without_events d.message_id id s
            else complete_with_events d.message_id id (p.packer.correlation_id env) loaded.1 events
                root s
      ]

  -- The part of HandleDelivery after the command is routed to an instance.
  unfoldable pub handle_routed : Delivery → ℕ → ℕ → Failure ⊎ ℕ → Action Store (Unit {0})
  handle_routed d env command (inl e) s = (inl e, s)
  handle_routed d env command (inr id) s =
      (load_instance p others id >>= handle_command d env id command) s

  -- HandleDelivery.
  unfoldable pub handle_delivery : Delivery → ℕ → Action Store (Unit {0})
  handle_delivery d env s = elim (p.packer.unpack_command env) [
    | none ↦ (inl failed, s)
    | some command ↦ handle_routed d env command (route_command_to_instance command) s
  ]

  -- The driver.
  unfoldable pub driver : Driver Store ℕ
  driver = record {
    acquire = acquire_delivery p.down others.now others.taken p.command_types;
    postpone = postpone_delivery p.down others.now;
    handle = handle_delivery;
  }

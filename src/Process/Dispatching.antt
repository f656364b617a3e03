-- ===== src/Process/Dispatching.antt =====
-- Sink.dispatch of internal/process/sink.go: an event is routed to an instance and handled by it.
use runkit.Prelude.{◌==◌, if◌then◌else◌, ℕ, ◌⊎◌, inl, inr, Bool, Option, none, some, List}
use runkit.Source.{Error}
use runkit.Source
use runkit.Transaction.{Failure, other, Outage, Action, pure, ◌>>=◌, ◌>>◌}
use runkit.Schema.{Store}
use runkit.Process.{Sink, Database}
use runkit.Process.Scope.{EffectPacker, Operation, MessageScope, open_scope, act_all}
use runkit.Process.Instance.{
  Handler, new_root, load_root, save_root, end_root, persist_deadlines, add_commands_to_queue,
}

-- What a Sink and a DeadlinePump have in common: the handler, its key, the packer, and the database's time and outages.
-- `unpack` gives the message in an envelope.
pub record Receiver (Root : Type 0) : Type 0 where
  pub handler : Handler Root
  pub key : ℕ
  pub packer : EffectPacker
  pub unpack : ℕ → Option ℕ
  pub now : ℕ
  pub down : Outage

module _ {Root : Type 0} (p : Receiver Root) where
  -- The effects of a handler that has not ended the instance.
  unfoldable pub keep_instance : ℕ → MessageScope Root → Action Store (Unit {0})
  keep_instance id scope = do
    if scope.mutated then save_root p.handler p.down p.key id scope.root else pure tt
    persist_deadlines p.down scope.deadlines

  -- The effects of a handler.
  unfoldable pub apply_effects : ℕ → MessageScope Root → Action Store (Unit {0})
  apply_effects id scope = do
    add_commands_to_queue p.down p.now scope.commands
    if scope.ended then end_root p.handler p.down p.key id else keep_instance id scope

  -- A call of the handler with a scope; none is a panic or an error.
  unfoldable pub call_handler :
      ℕ → ℕ → List (Operation Root) × Bool → Root → Option (MessageScope Root)
  call_handler env id (operations, fails') root =
      elim (act_all p.packer env p.key id operations (open_scope p.packer env p.key id root)) [
        | none ↦ none
        | some scope ↦ if fails' then none else some scope
      ]

  -- The part of dispatch after the instance is loaded; an instance that has ended ignores events.
  unfoldable pub handle_event : ℕ → ℕ → ℕ → Option Root → Action Store (Unit {0})
  handle_event env id event none s = (inr tt, s)
  handle_event env id event (some root) s =
      elim (call_handler env id (p.handler.handle_event event root) root) [
        | none ↦ (inl other, s)
        | some scope ↦ apply_effects id scope s
      ]

  -- routeEventToInstance, with its empty ID for no instance.
  unfoldable pub route_event_to_instance : ℕ → Failure ⊎ ℕ
  route_event_to_instance event = elim (p.handler.route event) [
    | none ↦ inl other
    | some none ↦ inr 0
    | some (some id) ↦ if id == 0 then inl other else inr id
  ]

  unfoldable pub dispatch_to : ℕ → ℕ → Failure ⊎ ℕ → Action Store (Unit {0})
  dispatch_to env event (inl e) s = (inl e, s)
  dispatch_to env event (inr id) s =
      if id == 0
      then (inr tt, s)
      else (do
        root ← new_root p.handler p.down p.key
        loaded ← load_root p.handler p.down p.key id root
        handle_event env id event loaded)
          s

  -- Sink.dispatch.
  unfoldable pub dispatch : ℕ → Action Store (Unit {0})
  dispatch env s = elim (p.unpack env) [
    | none ↦ (inl other, s)
    | some event ↦ dispatch_to env event (route_event_to_instance event) s
  ]

  -- The sink of the handler, whose transactions are rolled back if dispatch fails.
  unfoldable pub sink : (ℕ → Bool) → (ℕ → Database Store → Database Store) → Sink Store
  sink unavailable meanwhile = record {
    dispatch = λ env s. elim ((dispatch env.body s).0) [
      | inl e ↦ inl (Source.failed 1)
      | inr u ↦ inr (dispatch env.body s).1
    ];
    unavailable = unavailable;
    meanwhile = meanwhile;
  }

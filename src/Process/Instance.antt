-- ===== src/Process/Instance.antt =====
-- internal/process/instancestate.go and commandqueue.go: the rows of a process instance, and the effects of a handler.
use runkit.Prelude.{
  ◌==◌, if◌then◌else◌, filter, ℕ, inl, inr, Bool, true, false, not, ◌&&◌, ◌||◌, Option, none, some,
  List, [], ◌∷◌, ◌++◌,
}
use runkit.Transaction.{
  failed, other, Outage, load_instance, save_instance, end_instance, delete_deadlines,
  persist_deadline, add_command, Action,
}
use runkit.Schema.{Store, Deadline, update}
use runkit.Schema.CommandQueue
use runkit.Process.Scope.{Operation, NewCommand, NewDeadline}

-- The application's handler, over its roots. A call that panics or fails is none. HandleEvent and HandleDeadline make
-- calls of the scope and may fail after them. RouteEventToInstance may choose no instance.
pub record Handler (Root : Type 0) : Type 0 where
  pub new : Option Root
  pub marshal : Root → Option ℕ
  pub unmarshal : ℕ → Root → Option Root
  pub route : ℕ → Option (Option ℕ)
  pub handle_event : ℕ → Root → List (Operation Root) × Bool
  pub handle_deadline : ℕ → Root → List (Operation Root) × Bool

module _ {Root : Type 0} (h : Handler Root) (down : Outage) (key : ℕ) where
  -- newRoot.
  unfoldable pub new_root : Action Store Root
  new_root s = elim h.new [ none ↦ (inl failed, s) | some root ↦ (inr root, s) ]

  -- loadInstance: the root with the state of the instance, or none if it has ended.
  unfoldable pub load_root : ℕ → Root → Action Store (Option Root)
  load_root id root s = if down load_instance then (inl other, s) else elim (s.processes key id) [
    | none ↦ (
      inr (some root),
      record s {
        processes = update s.processes key id (some (record { ended = false; state = none }));
      },
    )
    | some i ↦ if i.ended then (inr none, s) else elim i.state [
      | none ↦ (inr (some root), s)
      | some bytes ↦ elim (h.unmarshal bytes root) [
        | none ↦ (inl failed, s)
        | some root' ↦ (inr (some root'), s)
      ]
    ]
  ]

  -- saveInstance; the UPDATE changes exactly one row.
  unfoldable pub save_root : ℕ → Root → Action Store (Unit {0})
  save_root id root s = elim (h.marshal root) [
    | none ↦ (inl failed, s)
    | some bytes ↦ if down save_instance then (inl other, s) else elim (s.processes key id) [
      | none ↦ (inl other, s)
      | some i ↦ (
        inr tt,
        record s { processes = update s.processes key id (some (record i { state = some bytes })) },
      )
    ]
  ]

  -- Whether a deadline is one of an instance.
  abbrev pub is_of : ℕ → Deadline → Bool
  is_of id d = d.handler_key == key && d.instance_id == id

  -- endInstance.
  unfoldable pub end_root : ℕ → Action Store (Unit {0})
  end_root id s = if down end_instance then (inl other, s) else elim (s.processes key id) [
    | none ↦ (inl other, s)
    | some i ↦
        (let s' = record s {
          processes = update s.processes key id (some (record { ended = true; state = none }));
        } in
          if down delete_deadlines
          then (inl other, s')
          else (inr tt, record s' { deadlines = filter (λ d. not (is_of id d)) s'.deadlines }))
  ]

-- The message ID is the primary key of the deadlines.
abbrev pub scheduled : List Deadline → ℕ → Bool
scheduled [] id = false
scheduled (d ∷ ds) id = d.message_id == id || scheduled ds id

-- The row of a deadline; its handler and its instance are those that its envelope names.
abbrev pub deadline_of : NewDeadline → Deadline
deadline_of d = record {
  message_id = d.message_id;
  type_id = d.type_id;
  handler_key = d.source_key;
  instance_id = d.source_instance;
  envelope = d.envelope;
  failures = 0;
  deliver_at = d.scheduled_for;
}

-- persistDeadlines.
unfoldable pub persist_deadlines : Outage → List NewDeadline → Action Store (Unit {0})
persist_deadlines down [] s = (inr tt, s)
persist_deadlines down (d ∷ ds) s =
    if down persist_deadline || scheduled s.deadlines d.message_id
    then (inl other, s)
    else persist_deadlines down ds (record s { deadlines = s.deadlines ++ deadline_of d ∷ [] })

-- addCommandsToQueue, with the database's time.
unfoldable pub add_commands_to_queue : Outage → ℕ → List NewCommand → Action Store (Unit {0})
add_commands_to_queue down now [] s = (inr tt, s)
add_commands_to_queue down now (c ∷ cs) s =
    if down add_command
    then (inl other, s)
    else elim ((CommandQueue.add now c.message_id c.type_id c.envelope c.idempotency_key s).0) [
      | inl e ↦ (
        inl other,
        (CommandQueue.add now c.message_id c.type_id c.envelope c.idempotency_key s).1,
      )
      | inr r ↦
          add_commands_to_queue down now cs
            (CommandQueue.add now c.message_id c.type_id c.envelope c.idempotency_key s).1
    ]

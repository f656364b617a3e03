-- ===== src/Process/Deadlines.antt =====
-- internal/process/deadlinepump.go: the driver of the message pump that has deadlines handled.
use runkit.Prelude.{
  leb, ◌==◌, if◌then◌else◌, filter, has, ℕ, ◌+◌, inl, inr, Bool, true, false, not, ◌&&◌, Option,
  none, some, List, [], ◌∷◌,
}
use runkit.Transaction.{
  failed, other, acquire, postpone, delete_deadline, Action, pure, ◌>>=◌, ◌>>◌,
}
use runkit.Pump.{Delivery, Driver}
use runkit.Schema.{Store, Deadline}
use runkit.Process.Scope.{MessageScope}
use runkit.Process.Instance.{
  new_root, load_root, save_root, end_root, persist_deadlines, add_commands_to_queue, scheduled,
}
use runkit.Process.Dispatching.{Receiver, call_handler}

abbrev pub earliest : List Deadline → Option Deadline
earliest [] = none
earliest (c ∷ cs) = elim (earliest cs) [
  | none ↦ some c
  | some d ↦ some (if leb c.deliver_at d.deliver_at then c else d)
]

abbrev pub reschedule : ℕ → ℕ → ℕ → List Deadline → List Deadline
reschedule id failures at [] = []
reschedule id failures at (d ∷ ds) =
    (if d.message_id == id then record d { failures = failures; deliver_at = at } else d)
    ∷ reschedule id failures at ds

-- A deadline is joined with the row of its instance.
abbrev pub has_instance : Store → Deadline → Bool
has_instance s d = elim (s.processes d.handler_key d.instance_id) [ none ↦ false | some i ↦ true ]

module _ {Root : Type 0} (p : Receiver Root) where
  -- AcquireDelivery, with the engine's time, the deadlines and instances that are locked, and the deadline types.
  unfoldable pub acquire_delivery : ℕ → (Deadline → Bool) → List ℕ → Action Store (Option Delivery)
  acquire_delivery time locked types s =
      if p.down acquire
      then (inl other, s)
      else elim (earliest (
          filter
            (λ d.
              d.handler_key == p.key
              && (leb d.deliver_at time
                  && (has types d.type_id && (has_instance s d && not (locked d)))))
            s.deadlines)) [
              | none ↦ (inr none, s)
              | some d ↦ (
                inr (
                    some (record {
                      message_id = d.message_id;
                      type_id = d.type_id;
                      envelope = d.envelope;
                      failures = d.failures;
                    })),
                s,
              )
            ]

  -- PostponeDelivery.
  unfoldable pub postpone_delivery : Delivery → ℕ → Action Store (Unit {0})
  postpone_delivery d delay s =
      if p.down postpone
      then (inl other, s)
      else if scheduled s.deadlines d.message_id
      then (
        inr tt,
        record s { deadlines = reschedule d.message_id d.failures (p.now + delay) s.deadlines },
      )
      else (inl other, s)

  -- deleteDeadline.
  unfoldable pub remove_deadline : ℕ → Action Store (Unit {0})
  remove_deadline id s =
      if p.down delete_deadline
      then (inl other, s)
      else if scheduled s.deadlines id
      then (inr tt, record s { deadlines = filter (λ d. not (d.message_id == id)) s.deadlines })
      else (inl other, s)

  -- The effects of a handler that has not ended the instance.
  unfoldable pub finish_deadline : ℕ → ℕ → MessageScope Root → Action Store (Unit {0})
  finish_deadline message_id id scope = do
    if scope.mutated then save_root p.handler p.down p.key id scope.root else pure tt
    persist_deadlines p.down scope.deadlines
    remove_deadline message_id

  -- The effects of a handler; to end an instance deletes the deadline too.
  unfoldable pub apply_effects : ℕ → ℕ → MessageScope Root → Action Store (Unit {0})
  apply_effects message_id id scope = do
    add_commands_to_queue p.down p.now scope.commands
    if scope.ended then end_root p.handler p.down p.key id else finish_deadline message_id id scope

  -- The part of HandleDelivery after the instance is loaded.
  unfoldable pub handle_deadline : Delivery → ℕ → ℕ → ℕ → Option Root → Action Store (Unit {0})
  handle_deadline d env id deadline none s = (inl failed, s)
  handle_deadline d env id deadline (some root) s =
      elim (call_handler p env id (p.handler.handle_deadline deadline root) root) [
        | none ↦ (inl failed, s)
        | some scope ↦ apply_effects d.message_id id scope s
      ]

  -- HandleDelivery; `instance` is the ID of the source's instance in an envelope.
  unfoldable pub handle_delivery : (ℕ → ℕ) → Delivery → ℕ → Action Store (Unit {0})
  handle_delivery instance_id d env s = elim (p.unpack env) [
    | none ↦ (inl failed, s)
    | some deadline ↦
        (do
          root ← new_root p.handler p.down p.key
          loaded ← load_root p.handler p.down p.key (instance_id env) root
          handle_deadline d env (instance_id env) deadline loaded)
          s
  ]

  -- The driver.
  unfoldable pub driver : ℕ → (Deadline → Bool) → List ℕ → (ℕ → ℕ) → Driver Store ℕ
  driver time locked types instance_id = record {
    acquire = acquire_delivery time locked types;
    postpone = postpone_delivery;
    handle = handle_delivery instance_id;
  }

-- ===== src/Process/Pumping.antt =====
-- The message pump with the deadlines of a process handler: internal/messagepump/pump.go over internal/process/deadlinepump.go.
use runkit.Prelude.{
  ◌==◌, if◌then◌else◌, Bool-cases, Option-cases, filter, All, All-filter, ℕ, ◌+◌, ◌≡◌, inl, inr,
  Bool, true, not, Option, some, List, [], ◌∷◌, arith,
}
use runkit.Transaction.{Settles, pure, ◌>>◌, >>=-Settles}
use runkit.Schema.{Store, Deadline}
use runkit.Pump.{Delivery, Settings, deliver}
use runkit.Pump.Keeping.{deliver-keeps}
use runkit.Process.Scope.{MessageScope}
use runkit.Process.Instance.{save_root, end_root, persist_deadlines, add_commands_to_queue}
use runkit.Process.Dispatching.{Receiver, call_handler}
use runkit.Process.Deadlines.{
  reschedule, acquire_delivery, postpone_delivery, remove_deadline, finish_deadline, apply_effects,
  handle_deadline, handle_delivery, driver,
}
use runkit.Process.Ending.{running, IsSettled, IsRunning}
use runkit.Process.Effects.{
  IsOwn, add_commands_to_queue-IsRunning, persist_deadlines-IsRunning, end_root-IsSettled,
}
use runkit.Process.Owning.{AreOwned, call_handler-IsOwn}
use runkit.Process.Ended.{saved-IsRunning, started-IsSettled}

module _ {Root : Type 0} (p : Receiver Root) (ended : ℕ → ℕ → Bool) where
  abbrev IsPending : Store → Deadline → Type 0
  IsPending s d = running (s.processes d.handler_key d.instance_id) ≡ true

  rescheduled :
      (id failures at : ℕ) (s : Store) (ds : List Deadline)
      → All (IsPending s) ds
      → All (IsPending s) (reschedule id failures at ds)
  rescheduled id failures at s [] a = tt
  rescheduled id failures at s (d ∷ ds) a = elim (Bool-cases (d.message_id == id)) [
    | inl e ↦ rw e (a.0, rescheduled id failures at s ds a.1)
    | inr e ↦ rw e (a.0, rescheduled id failures at s ds a.1)
  ]

  with_deadlines :
      (ds : List Deadline) (s : Store)
      → All (IsPending s) ds
      → IsSettled ended s
      → IsSettled ended (record s { deadlines = ds })
  with_deadlines ds s a v = record { pending = a; stateless = v.stateless; final = v.final }

  remove_deadline-IsSettled :
      (id : ℕ) (s : Store) → IsSettled ended s → IsSettled ended (remove_deadline p id s).1
  unfolding remove_deadline
  remove_deadline-IsSettled id s v = ground (
    arith,
    v,
    with_deadlines (filter (λ d. not (d.message_id == id)) s.deadlines) s
        (All-filter (IsPending s) (λ d. not (d.message_id == id)) s.deadlines v.pending) v,
  )

  postpone_delivery-IsSettled :
      (d : Delivery) (delay : ℕ) (s : Store)
      → IsSettled ended s
      → IsSettled ended (postpone_delivery p d delay s).1
  unfolding postpone_delivery
  postpone_delivery-IsSettled d delay s v = ground (
    arith,
    v,
    with_deadlines (reschedule d.message_id d.failures (p.now + delay) s.deadlines) s
        (rescheduled d.message_id d.failures (p.now + delay) s s.deadlines v.pending) v,
  )

  acquire_delivery-IsSettled :
      (time : ℕ) (locked : Deadline → Bool) (types : List ℕ) (s : Store)
      → IsSettled ended s
      → IsSettled ended (acquire_delivery p time locked types s).1
  unfolding acquire_delivery
  acquire_delivery-IsSettled time locked types s v = ground (arith, v)

  finish_deadline-IsSettled :
      (message_id id : ℕ) (scope : MessageScope Root) (s : Store)
      → All (IsOwn p.key id) scope.deadlines
      → IsRunning ended p.key id s
      → Settles (IsSettled ended) (finish_deadline p message_id id scope s)
  unfolding finish_deadline
  finish_deadline-IsSettled message_id id scope s own v =
      >>=-Settles (IsRunning ended p.key id) (IsSettled ended)
        (if scope.mutated then save_root p.handler p.down p.key id scope.root else pure tt)
        (λ _. persist_deadlines p.down scope.deadlines >> remove_deadline p message_id) s
        (λ t r. r.0) (inr (saved-IsRunning p ended id scope s v))
        (λ u t q r.
          >>=-Settles (IsRunning ended p.key id) (IsSettled ended)
            (persist_deadlines p.down scope.deadlines) (λ _. remove_deadline p message_id) t
            (λ t' r'. r'.0)
            (inr
              (persist_deadlines-IsRunning p.handler p.down p.key ended id scope.deadlines t own r))
            (λ u' t' q' r'. inr (remove_deadline-IsSettled message_id t' r'.0)))

  apply_effects-IsSettled :
      (message_id id : ℕ) (scope : MessageScope Root) (s : Store)
      → All (IsOwn p.key id) scope.deadlines
      → IsRunning ended p.key id s
      → Settles (IsSettled ended) (apply_effects p message_id id scope s)
  unfolding apply_effects finish_deadline
  apply_effects-IsSettled message_id id scope s own v =
      >>=-Settles (IsRunning ended p.key id) (IsSettled ended)
        (add_commands_to_queue p.down p.now scope.commands)
        (λ _.
          if scope.ended
          then end_root p.handler p.down p.key id
          else finish_deadline p message_id id scope)
        s (λ t r. r.0)
        (inr (
          add_commands_to_queue-IsRunning p.handler p.down p.key ended p.now id scope.commands s v))
        (λ u t q r. queued t r)
    where
      queued :
          (t : Store)
          → IsRunning ended p.key id t
          → Settles (IsSettled ended) (
              (if scope.ended
                  then end_root p.handler p.down p.key id
                  else finish_deadline p message_id id scope)
                t)
      queued t r = elim (Bool-cases scope.ended) [
        | inl e ↦ rw e (end_root-IsSettled p.handler p.down p.key ended id t r)
        | inr e ↦ rw e (finish_deadline-IsSettled message_id id scope t own r)
      ]

  handle_deadline-IsSettled :
      (d : Delivery) (env id deadline : ℕ) (root : Root) (s : Store)
      → AreOwned p
      → IsRunning ended p.key id s
      → Settles (IsSettled ended) (handle_deadline p d env id deadline (some root) s)
  unfolding handle_deadline
  handle_deadline-IsSettled d env id deadline root s owned v =
      elim (Option-cases (call_handler p env id (p.handler.handle_deadline deadline root) root)) [
        | inl c ↦ rw (c, handle_deadline) (inr v.0)
        | inr (scope, c) ↦
            rw (c, handle_deadline)
              (apply_effects-IsSettled d.message_id id scope s
                (call_handler-IsOwn p owned env id (p.handler.handle_deadline deadline root) root
                  scope c)
                v)
      ]

  handle_delivery-IsSettled :
      (instance_id : ℕ → ℕ) (d : Delivery) (env : ℕ) (s : Store)
      → AreOwned p
      → IsSettled ended s
      → Settles (IsSettled ended) (handle_delivery p instance_id d env s)
  unfolding handle_delivery handle_deadline
  handle_delivery-IsSettled instance_id d env s owned v = elim (Option-cases (p.unpack env)) [
    | inl u ↦ rw (u, handle_delivery) (inr v)
    | inr (deadline, u) ↦
        rw (u, handle_delivery)
          (started-IsSettled p ended (handle_deadline p d env (instance_id env) deadline)
            (instance_id env) s (λ t r. inr r)
            (λ root t r. handle_deadline-IsSettled d env (instance_id env) deadline root t owned r)
            v)
  ]

  -- Let the packer name the handler and the instance of a scope as the source of its deadlines,
  -- and let tables be settled, for a set of instances, if each deadline is one of an instance
  -- that exists and has not ended, an instance that has ended has no state, and the instances
  -- of the set have ended. Then a round of the message pump with the deadlines of a process
  -- handler keeps the tables settled for the set, whether a deadline is handled, fails, is
  -- postponed or meets an outage of the database at any statement: to end an instance deletes
  -- its deadlines, and an instance that has ended stays so.
  pub deliver-IsSettled :
      (settings : Settings) (time : ℕ) (locked : Deadline → Bool) (types : List ℕ)
      (instance_id : ℕ → ℕ) (parse : ℕ → Option ℕ) (draws : List ℕ) (draw : ℕ) (s : Store)
      → AreOwned p
      → IsSettled ended s
      → IsSettled ended
          (deliver settings (driver p time locked types instance_id) parse draws draw s).1
  unfolding driver
  deliver-IsSettled settings time locked types instance_id parse draws draw s owned v =
      deliver-keeps settings (driver p time locked types instance_id) (IsSettled ended)
        (record {
          acquires = acquire_delivery-IsSettled time locked types;
          postpones = postpone_delivery-IsSettled;
          handles = λ d env t r. handle_delivery-IsSettled instance_id d env t owned r;
        })
        parse draws draw s v

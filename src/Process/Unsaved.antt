-- ===== src/Process/Unsaved.antt =====
-- A process instance whose state can not be serialised: saveInstance of internal/process/instancestate.go under the
-- pump of internal/process/deadlinepump.go.
use runkit.Prelude.{
  if◌then◌else◌, inc64, ℕ, ◌+◌, ◌≡◌, refl, sym, ap, ◌∙◌, subst, ◌⊎◌, inl, inr, Bool, true, false,
  Option, none, some, List, [], ◌∷◌, arith,
}
use runkit.Transaction.{Failure, failed, Statement, Action, pure, ◌>>=◌, ◌>>◌, >>=-at, postpone}
use runkit.Pump.{Delivery, Settings, Outcome, ok, compute_backoff, do_handle, postpone_failed}
use runkit.Schema.{Store, Deadline}
use runkit.Process.Deadlines.{
  reschedule, postpone_delivery, remove_deadline, finish_deadline, apply_effects, handle_deadline,
  handle_delivery, driver,
}
use runkit.Process.Effects.{add_commands_to_queue-tables}
use runkit.Process.Instance.{
  new_root, load_root, save_root, end_root, persist_deadlines, add_commands_to_queue, scheduled,
}
use runkit.Process.Dispatching.{Receiver, call_handler}
use runkit.Pump.Postponing.{do_handle-failed, postpone_failed-posted}
use runkit.Process.Scope.{MessageScope}

scheduled-reschedule :
    (id failures at : ℕ) (ds : List Deadline)
    → scheduled (reschedule id failures at ds) id ≡ scheduled ds id
scheduled-reschedule id failures at [] = refl
scheduled-reschedule id failures at (d ∷ ds) =
    ground (arith, scheduled-reschedule id failures at ds)

-- A scope whose root has been changed and can not be serialised.
abbrev pub IsUnsaved : {Root : Type 0} → Receiver Root → MessageScope Root → Type 0
IsUnsaved p scope =
    (scope.ended ≡ false) × (scope.mutated ≡ true) × (p.handler.marshal scope.root ≡ none)

module _ {Root : Type 0} (p : Receiver Root) where
  finish_deadline-unsaved :
      (message_id id : ℕ) (scope : MessageScope Root) (s : Store)
      → IsUnsaved p scope
      → finish_deadline p message_id id scope s ≡ (inl failed, s)
  unfolding finish_deadline save_root
  finish_deadline-unsaved message_id id scope s (e, m, unmarshalled) =
      >>=-at (if scope.mutated then save_root p.handler p.down p.key id scope.root else pure tt)
        (λ _. persist_deadlines p.down scope.deadlines >> remove_deadline p message_id) saved
    where
      save_fails : save_root p.handler p.down p.key id scope.root s ≡ (inl failed, s)
      save_fails = rw (unmarshalled, save_root) refl

      saved :
          (if scope.mutated then save_root p.handler p.down p.key id scope.root else pure tt) s
          ≡ (inl failed, s)
      saved =
          ap (λ b. (if b then save_root p.handler p.down p.key id scope.root else pure tt) s) m
          ∙ save_fails

  apply_effects-unsaved :
      (message_id id : ℕ) (scope : MessageScope Root) (s u : Store)
      → IsUnsaved p scope
      → add_commands_to_queue p.down p.now scope.commands s ≡ (inr tt, u)
      → apply_effects p message_id id scope s ≡ (inl failed, u)
  unfolding apply_effects
  apply_effects-unsaved message_id id scope s u unsaved q =
      >>=-at (add_commands_to_queue p.down p.now scope.commands)
        (λ _.
          if scope.ended
          then end_root p.handler p.down p.key id
          else finish_deadline p message_id id scope)
        q
      ∙ ap
          (λ b.
            (if b
                then end_root p.handler p.down p.key id
                else finish_deadline p message_id id scope)
              u)
          unsaved.0
      ∙ finish_deadline-unsaved message_id id scope u unsaved

  handle_delivery-unsaved :
      (instance_id : ℕ → ℕ) (d : Delivery) (env deadline : ℕ) (fresh root : Root)
      (scope : MessageScope Root) (s t u : Store)
      → p.unpack env ≡ some deadline
      → p.handler.new ≡ some fresh
      → load_root p.handler p.down p.key (instance_id env) fresh s ≡ (inr (some root), t)
      → call_handler p env (instance_id env) (p.handler.handle_deadline deadline root) root
        ≡ some scope
      → IsUnsaved p scope
      → add_commands_to_queue p.down p.now scope.commands t ≡ (inr tt, u)
      → handle_delivery p instance_id d env s ≡ (inl failed, u)
  unfolding handle_delivery new_root handle_deadline
  handle_delivery-unsaved instance_id d env deadline fresh root scope s t u unpacked new loaded
        called unsaved queued =
      opened
      ∙ >>=-at (new_root p.handler p.down p.key)
          (λ root. load_root p.handler p.down p.key id root >>= handle) made
      ∙ >>=-at (load_root p.handler p.down p.key id fresh) handle loaded
      ∙ handled
    where
      id : ℕ
      id = instance_id env

      handle : Option Root → Action Store (Unit {0})
      handle = handle_deadline p d env id deadline

      opened :
          handle_delivery p instance_id d env s
          ≡ (new_root p.handler p.down p.key >>= λ root.
                load_root p.handler p.down p.key id root >>= handle)
              s
      opened =
          ap
            (λ o. elim o as (λ _. (Failure ⊎ Unit {0}) × Store) [
              | none ↦ (inl failed, s)
              | some deadline ↦
                  (new_root p.handler p.down p.key >>= λ root.
                  load_root p.handler p.down p.key id root >>= handle_deadline p d env id deadline)
                    s
            ])
            unpacked

      made : new_root p.handler p.down p.key s ≡ (inr fresh, s)
      made =
          ap
            (λ o. elim o as (λ _. (Failure ⊎ Root) × Store) [
              | none ↦ (inl failed, s)
              | some root ↦ (inr root, s)
            ])
            new

      handled : handle_deadline p d env id deadline (some root) t ≡ (inl failed, u)
      handled =
          ap
            (λ o. elim o as (λ _. (Failure ⊎ Unit {0}) × Store) [
              | none ↦ (inl failed, t)
              | some scope ↦ apply_effects p d.message_id id scope t
            ])
            called
          ∙ apply_effects-unsaved d.message_id id scope t u unsaved queued

  load_root-deadlines :
      (id : ℕ) (root : Root) (s : Store)
      → (load_root p.handler p.down p.key id root s).1.deadlines ≡ s.deadlines
  unfolding load_root
  load_root-deadlines id root s = ground arith

  -- Let a deadline be unpacked, its instance be loaded and the handler be called without a
  -- failure, with a scope that has changed the root but not ended the instance, whose root can
  -- not be serialised, and whose commands can be added to the queue, which leads to tables u.
  -- If the deadline is in the table, the backoff is computed and neither the postponement nor
  -- the commit meets an outage, then the message pump commits: the queue is that of u, with the
  -- commands of the scope in it, and the deadline is still in the table, to be handled again.
  pub do_handle-unsaved :
      (settings : Settings) (time : ℕ) (locked : Deadline → Bool) (types : List ℕ)
      (instance_id : ℕ → ℕ) (d : Delivery) (env draw delay deadline : ℕ) (fresh root : Root)
      (scope : MessageScope Root) (s t u : Store)
      → p.unpack env ≡ some deadline
      → p.handler.new ≡ some fresh
      → load_root p.handler p.down p.key (instance_id env) fresh s ≡ (inr (some root), t)
      → call_handler p env (instance_id env) (p.handler.handle_deadline deadline root) root
        ≡ some scope
      → IsUnsaved p scope
      → add_commands_to_queue p.down p.now scope.commands t ≡ (inr tt, u)
      → scheduled s.deadlines d.message_id ≡ true
      → compute_backoff settings (inc64 d.failures) draw ≡ some delay
      → p.down postpone ≡ false
      → settings.down Statement.commit ≡ false
      → let (o, after) =
          do_handle settings (driver p time locked types instance_id) d env draw s s in
        (o ≡ ok tt)
        × (after.commands ≡ u.commands)
        × (scheduled after.deadlines d.message_id ≡ true)
  unfolding do_handle postpone_failed driver postpone_delivery
  do_handle-unsaved settings time locked types instance_id d env draw delay deadline fresh root
        scope s t u unpacked new loaded called unsaved queued there backoff up up' =
      subst Remains
        (sym (
          do_handle-failed settings (driver p time locked types instance_id) d env draw s s u
            handled))
        (subst Remains (sym postponed) (
          refl,
          refl,
          scheduled-reschedule d.message_id (inc64 d.failures) (p.now + delay) u.deadlines ∙ there',
        ))
    where
      kept : u.deadlines ≡ s.deadlines
      kept =
          sym (ap (λ r. r.1.deadlines) queued)
          ∙ (add_commands_to_queue-tables p.handler p.down p.key (λ k i. false) p.now scope.commands
              t).1
          ∙ sym (ap (λ r. r.1.deadlines) loaded)
          ∙ load_root-deadlines (instance_id env) fresh s

      handled : handle_delivery p instance_id d env s ≡ (inl failed, u)
      handled =
          handle_delivery-unsaved instance_id d env deadline fresh root scope s t u unpacked new
            loaded called unsaved queued

      there' : scheduled u.deadlines d.message_id ≡ true
      there' = ap (λ ds. scheduled ds d.message_id) kept ∙ there

      Remains : Outcome (Unit {0}) × Store → Type 0
      Remains r =
          (r.0 ≡ ok tt)
          × (r.1.commands ≡ u.commands)
          × (scheduled r.1.deadlines d.message_id ≡ true)

      posted : postpone_delivery p (record d { failures = inc64 d.failures }) delay u ≡ (
        inr tt,
        record u {
          deadlines = reschedule d.message_id (inc64 d.failures) (p.now + delay) u.deadlines;
        },
      )
      posted = rw (up, there', postpone_delivery) refl

      postponed : postpone_failed settings (driver p time locked types instance_id) d draw s u ≡ (
        ok tt,
        record u {
          deadlines = reschedule d.message_id (inc64 d.failures) (p.now + delay) u.deadlines;
        },
      )
      postponed =
          postpone_failed-posted settings (driver p time locked types instance_id) d draw delay s u
            (record u {
              deadlines = reschedule d.message_id (inc64 d.failures) (p.now + delay) u.deadlines;
            })
            backoff posted up'

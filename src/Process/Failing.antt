-- ===== src/Process/Failing.antt =====
-- Deadlines that a process handler fails to handle: internal/process/deadlinepump.go under internal/messagepump/pump.go.
use runkit.Prelude.{
  if◌then◌else◌, Bool-cases, Option-cases, ℕ, ◌≡◌, refl, sym, ap, ◌∙◌, subst, ◌≢◌, ◌⊎◌, inl, inr,
  Option, none, some, List, [], ◌∷◌, ◌++◌, arith,
}
use runkit.Transaction.{Failure, failed, pure, ◌>>=◌, ◌>>◌, >>=-never, >>=-at}
use runkit.Schema.{Store}
use runkit.Pump.{Delivery}
use runkit.Process.Scope.{NewCommand, NewDeadline, MessageScope}
use runkit.Process.Instance.{
  new_root, load_root, save_root, end_root, persist_deadlines, add_commands_to_queue, deadline_of,
}
use runkit.Process.Dispatching.{Receiver, call_handler}
use runkit.Process.Deadlines.{
  remove_deadline, finish_deadline, apply_effects, handle_deadline, handle_delivery,
}
use runkit.Schema.CommandQueue

module _ {Root : Type 0} (p : Receiver Root)
    (total : (root : Root) → p.handler.marshal root ≢ none) where
  save_root-unfailed :
      (id : ℕ) (root : Root) (s : Store)
      → (save_root p.handler p.down p.key id root s).0 ≢ inl failed
  unfolding save_root
  save_root-unfailed id root s = ground (arith, total root)

  add_commands_to_queue-unfailed :
      (cs : List NewCommand) (s : Store) → (add_commands_to_queue p.down p.now cs s).0 ≢ inl failed
  unfolding add_commands_to_queue
  add_commands_to_queue-unfailed [] s = ground arith
  add_commands_to_queue-unfailed (c ∷ cs) s = ground (
    arith,
    add_commands_to_queue-unfailed cs
        (CommandQueue.add p.now c.message_id c.type_id c.envelope c.idempotency_key s).1,
  )

  persist_deadlines-unfailed :
      (ds : List NewDeadline) (s : Store) → (persist_deadlines p.down ds s).0 ≢ inl failed
  unfolding persist_deadlines
  persist_deadlines-unfailed [] s = ground arith
  persist_deadlines-unfailed (d ∷ ds) s = ground (
    arith,
    persist_deadlines-unfailed ds (record s { deadlines = s.deadlines ++ deadline_of d ∷ [] }),
  )

  remove_deadline-unfailed : (id : ℕ) (s : Store) → (remove_deadline p id s).0 ≢ inl failed
  unfolding remove_deadline
  remove_deadline-unfailed id s = ground arith

  end_root-unfailed : (id : ℕ) (s : Store) → (end_root p.handler p.down p.key id s).0 ≢ inl failed
  unfolding end_root
  end_root-unfailed id s = ground arith

  finish_deadline-unfailed :
      (message_id id : ℕ) (scope : MessageScope Root) (s : Store)
      → (finish_deadline p message_id id scope s).0 ≢ inl failed
  unfolding finish_deadline
  finish_deadline-unfailed message_id id scope s =
      >>=-never failed
        (if scope.mutated then save_root p.handler p.down p.key id scope.root else pure tt)
        (λ _. persist_deadlines p.down scope.deadlines >> remove_deadline p message_id) s saved
        (λ u t.
          >>=-never failed (persist_deadlines p.down scope.deadlines)
            (λ _. remove_deadline p message_id) t (persist_deadlines-unfailed scope.deadlines t)
            (λ u' t'. remove_deadline-unfailed message_id t'))
    where
      saved :
          ((if scope.mutated then save_root p.handler p.down p.key id scope.root else pure tt) s).0
          ≢ inl failed
      saved = elim (Bool-cases scope.mutated) [
        | inl m ↦ rw m (save_root-unfailed id scope.root s)
        | inr m ↦ rw m (ground arith)
      ]

  apply_effects-unfailed :
      (message_id id : ℕ) (scope : MessageScope Root) (s : Store)
      → (apply_effects p message_id id scope s).0 ≢ inl failed
  unfolding apply_effects finish_deadline
  apply_effects-unfailed message_id id scope s =
      >>=-never failed (add_commands_to_queue p.down p.now scope.commands)
        (λ _.
          if scope.ended
          then end_root p.handler p.down p.key id
          else finish_deadline p message_id id scope)
        s (add_commands_to_queue-unfailed scope.commands s) (λ u t. queued t)
    where
      queued :
          (t : Store)
          → ((if scope.ended
                then end_root p.handler p.down p.key id
                else finish_deadline p message_id id scope)
              t).0
            ≢ inl failed
      queued t = elim (Bool-cases scope.ended) [
        | inl e ↦ rw e (end_root-unfailed id t)
        | inr e ↦ rw e (finish_deadline-unfailed message_id id scope t)
      ]

  -- A failed call leaves the commands and the deadlines.
  abbrev Untouched : Store → (Failure ⊎ Unit {0}) × Store → Type 0
  Untouched s r = r.0 ≡ inl failed → (r.1.commands ≡ s.commands) × (r.1.deadlines ≡ s.deadlines)

  handle_deadline-Untouched :
      (d : Delivery) (env id deadline : ℕ) (o : Option Root) (s : Store)
      → Untouched s (handle_deadline p d env id deadline o s)
  unfolding handle_deadline
  handle_deadline-Untouched d env id deadline none s = λ f. (refl, refl)
  handle_deadline-Untouched d env id deadline (some root) s =
      elim (Option-cases (call_handler p env id (p.handler.handle_deadline deadline root) root)) [
        | inl c ↦ rw (c, handle_deadline) (λ f. (refl, refl))
        | inr (scope, c) ↦ rw (c, handle_deadline) (λ f. impossible scope f)
      ]
    where
      impossible :
          (scope : MessageScope Root)
          → (apply_effects p d.message_id id scope s).0 ≡ inl failed
          → ((apply_effects p d.message_id id scope s).1.commands ≡ s.commands)
            × ((apply_effects p d.message_id id scope s).1.deadlines ≡ s.deadlines)
      impossible scope f = elim (apply_effects-unfailed d.message_id id scope s f) [ ]

  -- The row of an instance may be new.
  load_root-untouched :
      (id : ℕ) (root : Root) (s : Store)
      → let t = (load_root p.handler p.down p.key id root s).1 in
        (t.commands ≡ s.commands) × (t.deadlines ≡ s.deadlines)
  unfolding load_root
  load_root-untouched id root s = ground arith

  loaded-Untouched :
      (d : Delivery) (env id deadline : ℕ) (root : Root) (s : Store)
      → Untouched s
          ((load_root p.handler p.down p.key id root >>= handle_deadline p d env id deadline) s)
  loaded-Untouched d env id deadline root s =
      at (load_root p.handler p.down p.key id root s).0
        (load_root p.handler p.down p.key id root s).1 refl (load_root-untouched id root s)
    where
      at :
          (o : Failure ⊎ Option Root) (t : Store)
          → load_root p.handler p.down p.key id root s ≡ (o, t)
          → (t.commands ≡ s.commands) × (t.deadlines ≡ s.deadlines)
          → Untouched s
              ((load_root p.handler p.down p.key id root >>= handle_deadline p d env id deadline) s)
      at (inl e) t q same =
          subst (Untouched s)
            (sym (
              >>=-at (load_root p.handler p.down p.key id root)
                (handle_deadline p d env id deadline) q))
            (λ f. same)
      at (inr loaded) t q same =
          subst (Untouched s)
            (sym (
              >>=-at (load_root p.handler p.down p.key id root)
                (handle_deadline p d env id deadline) q))
            (λ f.
              let (c, e) = handle_deadline-Untouched d env id deadline loaded t f in
              (c ∙ same.0, e ∙ same.1))

  untouched :
      (instance_id : ℕ → ℕ) (d : Delivery) (env : ℕ) (s : Store)
      → Untouched s (handle_delivery p instance_id d env s)
  unfolding handle_delivery new_root handle_deadline
  untouched instance_id d env s = elim (Option-cases (p.unpack env)) [
    | inl u ↦ rw (u, handle_delivery) (λ f. (refl, refl))
    | inr (deadline, u) ↦ rw (u, handle_delivery) (made deadline)
  ]
    where
      made :
          (deadline : ℕ)
          → Untouched s (
              (new_root p.handler p.down p.key >>= λ root.
              load_root p.handler p.down p.key (instance_id env) root
              >>= handle_deadline p d env (instance_id env) deadline)
                s)
      made deadline = elim (Option-cases p.handler.new) [
        | inl n ↦
            subst (Untouched s)
              (sym (
                >>=-at (new_root p.handler p.down p.key)
                  (λ root.
                    load_root p.handler p.down p.key (instance_id env) root
                    >>= handle_deadline p d env (instance_id env) deadline)
                  (none_made n)))
              (λ f. (refl, refl))
        | inr (root, n) ↦
            subst (Untouched s)
              (sym (
                >>=-at (new_root p.handler p.down p.key)
                  (λ root.
                    load_root p.handler p.down p.key (instance_id env) root
                    >>= handle_deadline p d env (instance_id env) deadline)
                  (root_made root n)))
              (loaded-Untouched d env (instance_id env) deadline root s)
      ]
        where
          none_made : p.handler.new ≡ none → new_root p.handler p.down p.key s ≡ (inl failed, s)
          none_made n = rw (n, new_root) refl

          root_made :
              (root : Root)
              → p.handler.new ≡ some root
              → new_root p.handler p.down p.key s ≡ (inr root, s)
          root_made root n = rw (n, new_root) refl

  -- If every root of a process handler can be serialised, then a HandleDelivery of the deadline
  -- pump that ends with ErrFailed, after which the message pump commits, has changed neither
  -- the commands nor the deadlines.
  pub handle_delivery-untouched :
      (instance_id : ℕ → ℕ) (d : Delivery) (env : ℕ) (s t : Store)
      → handle_delivery p instance_id d env s ≡ (inl failed, t)
      → (t.commands ≡ s.commands) × (t.deadlines ≡ s.deadlines)
  handle_delivery-untouched instance_id d env s t q =
      subst (λ u. (u.commands ≡ s.commands) × (u.deadlines ≡ s.deadlines)) (ap (λ r. r.1) q)
        (untouched instance_id d env s (ap (λ r. r.0) q))

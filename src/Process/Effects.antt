-- ===== src/Process/Effects.antt =====
-- endInstance and persistDeadlines of internal/process/instancestate.go and commandqueue.go keep what an ended instance
-- leaves.
use runkit.Prelude.{
  Bool-cases, filter, All, All-append, ℕ, ◌≡◌, refl, ◌∙◌, ◌⊎◌, inl, inr, Bool, true, false, not,
  ◌||◌, Option, none, some, List, [], ◌∷◌, ◌++◌, arith,
}
use runkit.Transaction.{
  Failure, Outage, Settles, end_instance, delete_deadlines, persist_deadline, add_command,
}
use runkit.Schema.{Store, Deadline, ProcessInstance, update, update-keeps}
use runkit.Schema.CommandQueue
use runkit.Process.Scope.{NewCommand, NewDeadline}
use runkit.Process.Instance.{
  Handler, end_root, is_of, persist_deadlines, add_commands_to_queue, scheduled, deadline_of,
}
use runkit.Process.Ending.{running, over, cleared, IsSettled, IsRunning}

-- Tables whose instances and deadlines are those of others.
abbrev pub AreKept : Store → Store → Type 0
AreKept t u = (u.processes ≡ t.processes) × (u.deadlines ≡ t.deadlines)

-- A deadline whose source is an instance.
abbrev pub IsOwn : ℕ → ℕ → NewDeadline → Type 0
IsOwn key id d = (d.source_key ≡ key) × (d.source_instance ≡ id)

module _ {Root : Type 0} (h : Handler Root) (down : Outage) (key : ℕ) (ended : ℕ → ℕ → Bool) where
  -- The commands are in tables of their own.
  queue-tables :
      (now message_id type_id envelope idempotency_key : ℕ) (s : Store)
      → let t = (CommandQueue.add now message_id type_id envelope idempotency_key s).1 in
        (t.processes ≡ s.processes) × (t.deadlines ≡ s.deadlines)
  unfolding CommandQueue.add
  queue-tables now message_id type_id envelope idempotency_key s = ground arith

  moved :
      (id : ℕ) (s t : Store)
      → t.processes ≡ s.processes
      → t.deadlines ≡ s.deadlines
      → IsRunning ended key id s
      → IsRunning ended key id t
  moved id s t p q v = (
    record {
      pending = rw (p, q) v.0.pending;
      stateless = λ k i. rw p (v.0.stateless k i);
      final = λ k i e. rw p (v.0.final k i e);
    },
    rw p v.1,
  )

  -- The queue grows, and no other table changes.
  pub add_commands_to_queue-tables :
      (now : ℕ) (cs : List NewCommand) (s : Store)
      → let t = (add_commands_to_queue down now cs s).1 in
        (t.processes ≡ s.processes) × (t.deadlines ≡ s.deadlines)
  unfolding add_commands_to_queue
  add_commands_to_queue-tables now [] s = (refl, refl)
  add_commands_to_queue-tables now (c ∷ cs) s = elim (Bool-cases (down add_command)) [
    | inl out ↦ rw (out, add_commands_to_queue) (refl, refl)
    | inr up ↦
        added (CommandQueue.add now c.message_id c.type_id c.envelope c.idempotency_key s).0 refl up
          (queue-tables now c.message_id c.type_id c.envelope c.idempotency_key s)
          (add_commands_to_queue-tables now cs
            (CommandQueue.add now c.message_id c.type_id c.envelope c.idempotency_key s).1)
  ]
    where
      t : Store
      t = (CommandQueue.add now c.message_id c.type_id c.envelope c.idempotency_key s).1

      added :
          (o : Failure ⊎ (ℕ × Bool))
          → (CommandQueue.add now c.message_id c.type_id c.envelope c.idempotency_key s).0 ≡ o
          → down add_command ≡ false
          → AreKept s t
          → AreKept t (add_commands_to_queue down now cs t).1
          → AreKept s (add_commands_to_queue down now (c ∷ cs) s).1
      added (inl e) q up same again = rw (up, q, add_commands_to_queue) same
      added (inr r) q up same again =
          rw (up, q, add_commands_to_queue) (again.0 ∙ same.0, again.1 ∙ same.1)

  pub add_commands_to_queue-IsRunning :
      (now id : ℕ) (cs : List NewCommand) (s : Store)
      → IsRunning ended key id s
      → IsRunning ended key id (add_commands_to_queue down now cs s).1
  add_commands_to_queue-IsRunning now id cs s v =
      let (p, q) = add_commands_to_queue-tables now cs s in
      moved id s (add_commands_to_queue down now cs s).1 p q v

  pub persist_deadlines-IsRunning :
      (id : ℕ) (ds : List NewDeadline) (s : Store)
      → All (IsOwn key id) ds
      → IsRunning ended key id s
      → IsRunning ended key id (persist_deadlines down ds s).1
  unfolding persist_deadlines
  persist_deadlines-IsRunning id [] s own v = v
  persist_deadlines-IsRunning id (d ∷ ds) s own v =
      elim (Bool-cases (down persist_deadline || scheduled s.deadlines d.message_id)) [
        | inl out ↦ rw (out, persist_deadlines) v
        | inr up ↦
            rw (up, persist_deadlines)
              (persist_deadlines-IsRunning id ds
                (record s { deadlines = s.deadlines ++ deadline_of d ∷ [] }) own.1 (appended, v.1))
      ]
    where
      appended : IsSettled ended (record s { deadlines = s.deadlines ++ deadline_of d ∷ [] })
      appended = record {
        pending =
            All-append (λ (d : Deadline). running (s.processes d.handler_key d.instance_id) ≡ true)
              s.deadlines (deadline_of d ∷ []) v.0.pending (rw (own.0.0, own.0.1) v.1, tt);
        stateless = v.0.stateless;
        final = v.0.final;
      }

  -- To end an instance.
  pub end_root-IsSettled :
      (id : ℕ) (s : Store)
      → IsRunning ended key id s
      → Settles (IsSettled ended) (end_root h down key id s)
  unfolding end_root
  end_root-IsSettled id s v = elim (Bool-cases (down end_instance)) [
    | inl out ↦ inl (rw (out, end_root) refl)
    | inr up ↦ found (s.processes key id) refl up
  ]
    where
      over_now : ℕ → ℕ → Option ProcessInstance
      over_now = update s.processes key id (some (record { ended = true; state = none }))

      written :
          (C : Option ProcessInstance → Type 0) (k i : ℕ)
          → (key ≡ k → id ≡ i → C (some (record { ended = true; state = none })))
          → C (s.processes k i)
          → C (update s.processes key id (some (record { ended = true; state = none })) k i)
      written C k i =
          update-keeps C s.processes key id (some (record { ended = true; state = none })) k i

      left :
          (ds : List Deadline)
          → All (λ (d : Deadline). running (s.processes d.handler_key d.instance_id) ≡ true) ds
          → All
              (λ (d : Deadline). running (over_now d.handler_key d.instance_id) ≡ true)
              (filter (λ d. not (is_of h down key id d)) ds)
      left [] a = tt
      left (d ∷ ds) a = elim (Bool-cases (is_of h down key id d)) [
        | inl own ↦ rw own (left ds a.1)
        | inr foreign ↦ rw foreign (
          written (λ o. running o ≡ true) d.handler_key d.instance_id
              (λ p q. ground (arith, p, q, foreign)) a.0,
          left ds a.1,
        )
      ]

      found :
          (o : Option ProcessInstance)
          → s.processes key id ≡ o
          → down end_instance ≡ false
          → Settles (IsSettled ended) (end_root h down key id s)
      found none q up = inl (rw (up, q, end_root) refl)
      found (some i) q up = elim (Bool-cases (down delete_deadlines)) [
        | inl out ↦ inl (rw (up, q, out, end_root) refl)
        | inr up' ↦ inr (
            rw (up, q, up', end_root)
              (record {
                pending = left s.deadlines v.0.pending;
                stateless =
                    λ k i. written (λ o. cleared o ≡ true) k i (λ p q. refl) (v.0.stateless k i);
                final = λ k i e. written (λ o. over o ≡ true) k i (λ p q. refl) (v.0.final k i e);
              }))
      ]

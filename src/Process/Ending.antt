-- ===== src/Process/Ending.antt =====
-- What ends a process instance, in internal/process/instancestate.go: the rows that an ended instance leaves.
use runkit.Prelude.{
  ==_refl, All, All-imp, ℕ, ◌≡◌, refl, Bool, true, false, not, Option, none, some, arith,
}
use runkit.Schema.{update-keeps, Store, Deadline, ProcessInstance, update}

-- Whether there is an instance that has not ended, and whether there is one that has.
abbrev pub running : Option ProcessInstance → Bool
running none = false
running (some i) = not i.ended

abbrev pub over : Option ProcessInstance → Bool
over none = false
over (some i) = i.ended

-- An instance that has ended has no state.
abbrev pub cleared : Option ProcessInstance → Bool
cleared none = true
cleared (some i) = elim i.state [ none ↦ true | some bytes ↦ not i.ended ]

-- Each deadline is one of an instance that has not ended, an ended instance has no state, and the instances in `ended`
-- are ended.
pub record IsSettled (ended : ℕ → ℕ → Bool) (s : Store) : Type 0 where
  pub pending :
      All (λ (d : Deadline). running (s.processes d.handler_key d.instance_id) ≡ true) s.deadlines
  pub stateless : (k i : ℕ) → cleared (s.processes k i) ≡ true
  pub final : (k i : ℕ) → ended k i ≡ true → over (s.processes k i) ≡ true

module _ (ended : ℕ → ℕ → Bool) where
  -- Tables in which an instance is running.
  abbrev pub IsRunning : ℕ → ℕ → Store → Type 0
  IsRunning k i s = IsSettled ended s × (running (s.processes k i) ≡ true)

  -- A row that is written to an instance that has not ended.
  pub rewritten :
      (key id : ℕ) (v : ProcessInstance) (s : Store)
      → over (s.processes key id) ≡ false
      → v.ended ≡ false
      → IsSettled ended s
      → IsRunning key id (record s { processes = update s.processes key id (some v) })
  rewritten key id v s unended live h = (
    record {
      pending =
          All-imp (λ (d : Deadline). running (s.processes d.handler_key d.instance_id) ≡ true)
            (λ (d : Deadline).
              running (update s.processes key id (some v) d.handler_key d.instance_id) ≡ true)
            s.deadlines
            (λ d r.
              written (λ o. running o ≡ true) d.handler_key d.instance_id (λ p q. not_ended) r)
            h.pending;
      stateless =
          λ k i. written (λ o. cleared o ≡ true) k i (λ p q. is_cleared v live) (h.stateless k i);
      final = λ k i e.
          written (λ o. over o ≡ true) k i (λ p q. contradicts k i p q (h.final k i e))
            (h.final k i e);
    },
    rw (==_refl key, ==_refl id, live) refl,
  )
    where
      written :
          (C : Option ProcessInstance → Type 0) (k i : ℕ)
          → (key ≡ k → id ≡ i → C (some v))
          → C (s.processes k i)
          → C (update s.processes key id (some v) k i)
      written C k i = update-keeps C s.processes key id (some v) k i

      not_ended : running (some v) ≡ true
      not_ended = rw live refl

      is_cleared : (v : ProcessInstance) → v.ended ≡ false → cleared (some v) ≡ true
      is_cleared v live = ground (arith, live)

      contradicts : (k i : ℕ) → key ≡ k → id ≡ i → over (s.processes k i) ≡ true → v.ended ≡ true
      contradicts k i p q o = cc

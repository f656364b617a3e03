-- ===== src/Process/Scope.antt =====
-- internal/process/messagescope.go: the scope through which a process handler acts on its instance.
use runkit.Prelude.{
  if◌then◌else◌, length, ℕ, Bool, true, false, not, Option, none, some, List, [], ◌∷◌, ◌++◌,
}

-- Envelopes that a scope has packed. The source of a deadline is the handler and the instance that its header names.
pub record NewCommand : Type 0 where
  pub message_id : ℕ
  pub type_id : ℕ
  pub envelope : ℕ
  pub idempotency_key : ℕ

pub record NewDeadline : Type 0 where
  pub message_id : ℕ
  pub type_id : ℕ
  pub source_key : ℕ
  pub source_instance : ℕ
  pub envelope : ℕ
  pub scheduled_for : ℕ

-- The package that packs messages, with the key of the handler: the envelopes of the commands and deadlines that the
-- message in an envelope leads to, by the instance and their position.
pub record EffectPacker : Type 0 where
  pub pack_command : ℕ → ℕ → ℕ → ℕ → ℕ → NewCommand
  pub pack_deadline : ℕ → ℕ → ℕ → ℕ → ℕ → ℕ → NewDeadline
  pub permits : ℕ → Bool
  pub validates : ℕ → Bool

-- The calls that a handler makes of its scope. The function that is given to Mutate may panic, which is none.
pub data Operation (Root : Type 0) : Type 0 where
  mutate : (Root → Option Root) → Operation Root
  end : Operation Root
  execute_command : ℕ → Operation Root
  schedule_deadline : ℕ → ℕ → Operation Root

-- messageScope, with the effects in its packers.
pub record MessageScope (Root : Type 0) : Type 0 where
  pub root : Root
  pub mutated : Bool
  pub ended : Bool
  pub commands : List NewCommand
  pub deadlines : List NewDeadline

module _ {Root : Type 0} (packer : EffectPacker) (env key id : ℕ) where
  -- A new scope.
  abbrev pub open_scope : Root → MessageScope Root
  open_scope root = record {
    root = root;
    mutated = false;
    ended = false;
    commands = [];
    deadlines = [];
  }

  -- Mutate, End, ExecuteCommand and ScheduleDeadline; none is a panic.
  unfoldable pub act : Operation Root → MessageScope Root → Option (MessageScope Root)
  act (mutate f) s = if s.ended then none else elim (f s.root) [
    | none ↦ none
    | some root ↦ some (record s { root = root; mutated = true })
  ]
  act end s = some (record s { ended = true })
  act (execute_command c) s =
      if s.ended
      then none
      else if not (packer.permits c)
      then none
      else if not (packer.validates c)
      then none
      else some (record s {
        commands = s.commands ++ packer.pack_command env key id (length s.commands) c ∷ [];
      })
  act (schedule_deadline d t) s =
      if s.ended
      then none
      else if not (packer.permits d)
      then none
      else if not (packer.validates d)
      then none
      else some (record s {
        deadlines = s.deadlines ++ packer.pack_deadline env key id (length s.deadlines) d t ∷ [];
      })

  -- The calls of a handler, in order.
  unfoldable pub act_all : List (Operation Root) → MessageScope Root → Option (MessageScope Root)
  act_all [] s = some s
  act_all (o ∷ os) s = elim (act o s) [ none ↦ none | some s' ↦ act_all os s' ]

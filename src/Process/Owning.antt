-- ===== src/Process/Owning.antt =====
-- internal/process/messagescope.go: the deadlines that a scope has packed belong to its instance.
use runkit.Prelude.{
  if◌then◌else◌, Option-cases, length, All, All-append, ℕ, ◌≡◌, sym, ap, ◌∙◌, inl, inr, Bool,
  Option, none, some, List, [], ◌∷◌, arith,
}
use runkit.Process.Scope.{
  Operation, mutate, end, execute_command, schedule_deadline, MessageScope, open_scope, act,
  act_all,
}
use runkit.Process.Dispatching.{Receiver, call_handler}
use runkit.Process.Effects.{IsOwn}

-- The packer names the handler and the instance of a scope as the source of a deadline.
abbrev pub AreOwned : {Root : Type 0} → Receiver Root → Type 0
AreOwned p = (env id i d t : ℕ) → IsOwn p.key id (p.packer.pack_deadline env p.key id i d t)

module _ {Root : Type 0} (p : Receiver Root) (owned : AreOwned p) (env id : ℕ) where
  act-IsOwn :
      (o : Operation Root) (s s' : MessageScope Root)
      → act p.packer env p.key id o s ≡ some s'
      → All (IsOwn p.key id) s.deadlines
      → All (IsOwn p.key id) s'.deadlines
  unfolding act
  act-IsOwn (mutate f) s s' q h = ground (arith, q, h)
  act-IsOwn end s s' q h = ground (arith, q, h)
  act-IsOwn (execute_command c) s s' q h = ground (arith, q, h)
  act-IsOwn (schedule_deadline d t) s s' q h = ground (
    arith,
    q,
    All-append (IsOwn p.key id) s.deadlines
        (p.packer.pack_deadline env p.key id (length s.deadlines) d t ∷ []) h
        (owned env id (length s.deadlines) d t, tt),
  )

  act_all-IsOwn :
      (os : List (Operation Root)) (s s' : MessageScope Root)
      → act_all p.packer env p.key id os s ≡ some s'
      → All (IsOwn p.key id) s.deadlines
      → All (IsOwn p.key id) s'.deadlines
  unfolding act_all
  act_all-IsOwn [] s s' q h = ground (arith, q, h)
  act_all-IsOwn (o ∷ os) s s' q h = elim (Option-cases (act p.packer env p.key id o s)) [
    | inl a ↦ impossible (sym (ap next a) ∙ q)
    | inr (t, a) ↦ act_all-IsOwn os t s' (sym (ap next a) ∙ q) (act-IsOwn o s t a h)
  ]
    where
      next : Option (MessageScope Root) → Option (MessageScope Root)
      next r = elim r [ none ↦ none | some t ↦ act_all p.packer env p.key id os t ]

      impossible : none ≡ some s' → All (IsOwn p.key id) s'.deadlines
      impossible c = cc

  -- A call of the handler with a new scope.
  pub call_handler-IsOwn :
      (operations : List (Operation Root) × Bool) (root : Root) (scope : MessageScope Root)
      → call_handler p env id operations root ≡ some scope
      → All (IsOwn p.key id) scope.deadlines
  unfolding call_handler
  call_handler-IsOwn operations root scope q =
      elim (Option-cases
        (act_all p.packer env p.key id operations.0 (open_scope p.packer env p.key id root))) [
          | inl a ↦ impossible (sym (ap next a) ∙ q)
          | inr (t, a) ↦ finished t a (sym (ap next a) ∙ q)
        ]
    where
      next : Option (MessageScope Root) → Option (MessageScope Root)
      next r = elim r [ none ↦ none | some t ↦ if operations.1 then none else some t ]

      impossible : none ≡ some scope → All (IsOwn p.key id) scope.deadlines
      impossible c = cc

      finished :
          (t : MessageScope Root)
          → act_all p.packer env p.key id operations.0 (open_scope p.packer env p.key id root)
            ≡ some t
          → (if operations.1 then none else some t) ≡ some scope
          → All (IsOwn p.key id) scope.deadlines
      finished t a c =
          ground
            (arith, c, act_all-IsOwn operations.0 (open_scope p.packer env p.key id root) t a tt)

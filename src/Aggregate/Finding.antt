-- ===== src/Aggregate/Finding.antt =====
-- How loadInstance of internal/aggregate/commandpump.go finds the row of an instance.
use runkit.Prelude.{
  if◌then◌else◌, ==_refl, Bool-cases, Option-cases, ℕ, ◌≡◌, ap, ◌∙◌, ◌⊎◌, inl, inr, true, false,
  Option, none, some,
}
use runkit.Transaction.{Failure, busy, other, lock_instance, create_instance, Action, pure, >>=-at}
use runkit.Schema.{Store, AggregateInstance, update_same}
use runkit.Aggregate.{
  CommandPump, Others, Row, row_of, try_lock_instance, try_create_instance, find_instance,
}
use runkit.Aggregate.Sourced.{
  stream_of, IsSourced, AreTrusted, blank, changed, changed-IsSourced, blank-IsKept,
}

module _ {Root : Type 0} (p : CommandPump Root) (others : Others) (fresh : Root) where
  -- Whether loadInstance creates the instance.
  abbrev or_create : ℕ → Row → Action Store Row
  or_create id row = if row.exists then pure row else try_create_instance p others id

  try_lock_absent :
      (id : ℕ) (s : Store)
      → p.down lock_instance ≡ false
      → s.aggregates p.handler_key id ≡ none
      → try_lock_instance p others id s
        ≡ (inr (record { stream_id = none; next_offset = 0; snapshot = 0; exists = false }), s)
  unfolding try_lock_instance
  try_lock_absent id s up absent = rw (up, absent)

  try_lock_found :
      (id : ℕ) (s : Store) (i : AggregateInstance)
      → p.down lock_instance ≡ false
      → others.locked ≡ false
      → s.aggregates p.handler_key id ≡ some i
      → try_lock_instance p others id s ≡ (inr (row_of i), s)
  unfolding try_lock_instance
  try_lock_found id s i up free e = rw (up, e, free)

  find_instance_absent :
      (id : ℕ) (s : Store)
      → p.down lock_instance ≡ false
      → s.aggregates p.handler_key id ≡ none
      → find_instance p others id s ≡ try_create_instance p others id s
  unfolding find_instance
  find_instance_absent id s up absent =
      >>=-at (try_lock_instance p others id) (or_create id) (try_lock_absent id s up absent)

  find_instance_found :
      (id : ℕ) (s : Store) (i : AggregateInstance)
      → p.down lock_instance ≡ false
      → others.locked ≡ false
      → s.aggregates p.handler_key id ≡ some i
      → find_instance p others id s ≡ (inr (row_of i), s)
  unfolding find_instance
  find_instance_found id s i up free e =
      >>=-at (try_lock_instance p others id) (or_create id) (try_lock_found id s i up free e)

  try_create_instance-eq :
      (id : ℕ) (s : Store) (found : Option AggregateInstance)
      → p.down create_instance ≡ false
      → (others.meanwhile s).aggregates p.handler_key id ≡ found
      → try_create_instance p others id s ≡ elim found [
        | some i ↦ (inr (row_of i), others.meanwhile s)
        | none ↦ (
          inr (row_of (blank p others fresh)),
          changed p others fresh id (some (blank p others fresh)) (others.meanwhile s),
        )
      ]
  unfolding try_create_instance
  try_create_instance-eq id s found up e = rw (up, e)

  create_absent :
      (id : ℕ) (s : Store)
      → p.down lock_instance ≡ false
      → p.down create_instance ≡ false
      → s.aggregates p.handler_key id ≡ none
      → AreTrusted p others fresh
      → IsSourced p others fresh s
      → (i : AggregateInstance) × (s' : Store) × (find_instance p others id s
          ≡ (inr (row_of i), s'))
        × (s'.aggregates p.handler_key id ≡ some i)
        × IsSourced p others fresh s'
  create_absent id s up up' absent trust v =
      elim (Option-cases ((others.meanwhile s).aggregates p.handler_key id)) [
        | inr (i, e) ↦ (
          i,
          others.meanwhile s,
          find_instance_absent id s up absent ∙ try_create_instance-eq id s (some i) up' e,
          e,
          trust s v,
        )
        | inl still ↦ (
          blank p others fresh,
          changed p others fresh id (some (blank p others fresh)) (others.meanwhile s),
          find_instance_absent id s up absent ∙ try_create_instance-eq id s none up' still,
          update_same (others.meanwhile s).aggregates p.handler_key id id
              (some (blank p others fresh)) (==_refl id),
          changed-IsSourced p others fresh id (some (blank p others fresh)) (others.meanwhile s)
              (blank-IsKept p others fresh (others.meanwhile s).streams (others.meanwhile s).events
                id (((trust s v).kept id).unbound (ap stream_of still)))
              (trust s v),
        )
      ]

  pub find_instance-eq :
      (id : ℕ) (s : Store)
      → p.down lock_instance ≡ false
      → p.down create_instance ≡ false
      → others.locked ≡ false
      → AreTrusted p others fresh
      → IsSourced p others fresh s
      → (i : AggregateInstance) × (s' : Store) × (find_instance p others id s
          ≡ (inr (row_of i), s'))
        × (s'.aggregates p.handler_key id ≡ some i)
        × IsSourced p others fresh s'
  find_instance-eq id s up up' free trust v = elim (Option-cases (s.aggregates p.handler_key id)) [
    | inr (i, e) ↦ (i, s, find_instance_found id s i up free e, e, v)
    | inl absent ↦ create_absent id s up up' absent trust v
  ]

  try_lock_down :
      (id : ℕ) (s : Store)
      → p.down lock_instance ≡ true
      → try_lock_instance p others id s ≡ (inl other, s)
  unfolding try_lock_instance
  try_lock_down id s down = rw down

  try_lock_taken :
      (id : ℕ) (s : Store) (i : AggregateInstance)
      → p.down lock_instance ≡ false
      → others.locked ≡ true
      → s.aggregates p.handler_key id ≡ some i
      → try_lock_instance p others id s ≡ (inl busy, s)
  unfolding try_lock_instance
  try_lock_taken id s i up taken e = rw (up, e, taken)

  try_create_down :
      (id : ℕ) (s : Store)
      → p.down create_instance ≡ true
      → try_create_instance p others id s ≡ (inl other, s)
  unfolding try_create_instance
  try_create_down id s down = rw down

  -- Finding the row fails and changes nothing, or gives the row as it is afterwards.
  pub find_instance-cases :
      (id : ℕ) (s : Store)
      → AreTrusted p others fresh
      → IsSourced p others fresh s
      → ((e : Failure) × (find_instance p others id s ≡ (inl e, s)))
        ⊎ ((i : AggregateInstance) × (s' : Store) × (find_instance p others id s
              ≡ (inr (row_of i), s'))
            × (s'.aggregates p.handler_key id ≡ some i)
            × IsSourced p others fresh s')
  unfolding find_instance
  find_instance-cases id s trust v = elim (Bool-cases (p.down lock_instance)) [
    | inl down ↦
        inl (other, >>=-at (try_lock_instance p others id) (or_create id) (try_lock_down id s down))
    | inr up ↦ elim (Option-cases (s.aggregates p.handler_key id)) [
      | inr (i, e) ↦ elim (Bool-cases others.locked) [
        | inl taken ↦ inl (
          busy,
          >>=-at (try_lock_instance p others id) (or_create id) (try_lock_taken id s i up taken e),
        )
        | inr free ↦ inr (i, s, find_instance_found id s i up free e, e, v)
      ]
      | inl absent ↦ elim (Bool-cases (p.down create_instance)) [
        | inl down ↦ inl (other, find_instance_absent id s up absent ∙ try_create_down id s down)
        | inr up' ↦ inr (create_absent id s up up' absent trust v)
      ]
    ]
  ]

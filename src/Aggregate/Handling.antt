-- ===== src/Aggregate/Handling.antt =====
-- HandleDelivery of internal/aggregate/commandpump.go as a whole.
use runkit.Prelude.{
  ◌==◌, Bool-cases, Option-cases, length, ℕ, ◌≡◌, refl, sym, ap, ◌∙◌, subst, ◌⊎◌, inl, inr, Option,
  none, some, List, [],
}
use runkit.Transaction.{Failure, complete, ◌>>=◌, >>=-keeps}
use runkit.Schema.{Store, AggregateInstance, Event}
use runkit.Pump.{Delivery}
use runkit.Aggregate.{CommandPump, Others, apply_events, load_instance}
use runkit.Aggregate.Commands.{
  record_events, complete_without_events, route_command_to_instance, handle_command, handle_routed,
  handle_delivery,
}
use runkit.Aggregate.History.{owned, history}
use runkit.Aggregate.Sourced.{
  stream_of, bound, IsKept, IsSourced, AreTrusted, changed, changed-IsSourced,
}
use runkit.Aggregate.Writing.{remove-IsSourced}
use runkit.Aggregate.Replaying.{IsLoaded, load_instance-cases}
use runkit.Aggregate.Sourcing.{complete_with_events-IsSourced}
use runkit.Aggregate.Recording.{IsFaithful, IsRestorable, record_events-apply_events}

module _ {Root : Type 0} (p : CommandPump Root) (others : Others) (fresh : Root) where
  deleted-IsKept :
      (streams : List (ℕ × ℕ)) (events : List Event) (id : ℕ)
      → owned p.handler_key id events ≡ []
      → IsKept p others fresh streams events id none
  deleted-IsKept streams events id h = record {
    unbound = λ b. h;
    on_stream = λ stream on. cc;
    snapshots = λ bytes offset root snap read. cc;
    covered = λ bytes offset stream snap on. cc;
    checked = λ b. refl;
  }

  complete_without_events-IsSourced :
      (message_id id : ℕ) (s : Store)
      → IsSourced p others fresh s
      → IsSourced p others fresh (complete_without_events p others message_id id s).1
  unfolding complete_without_events
  complete_without_events-IsSourced message_id id s v = elim (Bool-cases (p.down complete)) [
    | inl down ↦ rw down v
    | inr up ↦ elim (Option-cases (s.aggregates p.handler_key id)) [
      | inl absent ↦ rw (up, absent) (remove-IsSourced p others fresh message_id s v)
      | inr (i, e) ↦ elim (Option-cases i.stream_id) [
        | inr (stream, on) ↦ rw (up, e, on) (remove-IsSourced p others fresh message_id s v)
        | inl unbound ↦
            rw (up, e, unbound)
              (remove-IsSourced p others fresh message_id (changed p others fresh id none s) (
                changed-IsSourced p others fresh id none s
                  (deleted-IsKept s.streams s.events id
                    ((v.kept id).unbound (ap stream_of e ∙ unbound)))
                  v))
      ]
    ]
  ]

  handle_command-IsSourced :
      (d : Delivery) (env id command : ℕ) (i : AggregateInstance) (root : Root) (stream : Option ℕ)
      (s : Store)
      → IsFaithful p others fresh
      → IsRestorable p others fresh
      → s.aggregates p.handler_key id ≡ some i
      → (apply_events p others (history p.handler_key id s.events) fresh ≡ inr root)
        × (bound p.handler_key id s ≡ stream)
      → IsSourced p others fresh s
      → IsSourced p others fresh (handle_command p others d env id command (root, stream) s).1
  unfolding handle_command
  handle_command-IsSourced d env id command i root stream s faithful restorable e loaded v =
      elim (Option-cases (record_events p others env id 0 (p.handler.handle command root).0 root)) [
        | inl panics ↦ rw (panics, handle_command) v
        | inr ((packed, final), recorded) ↦ elim (Bool-cases (p.handler.handle command root).1) [
          | inl panics ↦ rw (recorded, panics, handle_command) v
          | inr returns ↦ elim (Bool-cases (length packed == 0)) [
            | inl nothing ↦
                rw (recorded, returns, nothing, handle_command)
                  (complete_without_events-IsSourced d.message_id id s v)
            | inr something ↦
                rw (recorded, returns, something, handle_command)
                  (complete_with_events-IsSourced p others fresh d.message_id id
                    (p.packer.correlation_id env) i stream packed root final s restorable e
                    (sym (ap stream_of e) ∙ loaded.1) loaded.0
                    (λ st next.
                      record_events-apply_events p others fresh faithful env id 0 st next
                        (p.handler.handle command root).0 root final packed recorded)
                    v)
          ]
        ]
      ]

  loaded-IsSourced :
      (d : Delivery) (env command id : ℕ) (s : Store)
      → p.handler.new ≡ some fresh
      → AreTrusted p others fresh
      → IsFaithful p others fresh
      → IsRestorable p others fresh
      → IsSourced p others fresh s
      → IsSourced p others fresh
          ((load_instance p others id >>= handle_command p others d env id command) s).1
  loaded-IsSourced d env command id s new trust faithful restorable v =
      let (o, s', h, v', outcome) = load_instance-cases p others fresh id s new trust v in
      >>=-keeps (IsSourced p others fresh) (load_instance p others id)
        (handle_command p others d env id command) s
        (subst (λ r. IsSourced p others fresh r.1) (sym h) v')
        (λ a q.
          subst (λ t. IsSourced p others fresh (handle_command p others d env id command a t).1)
            (sym (ap (λ r. r.1) h)) (handled a o s' v' (sym (ap (λ r. r.0) h) ∙ q) outcome))
    where
      handled :
          (a : Root × Option ℕ) (o : Failure ⊎ (Root × Option ℕ)) (s' : Store)
          → IsSourced p others fresh s'
          → o ≡ inr a
          → ((e : Failure) × (o ≡ inl e))
            ⊎ ((i : AggregateInstance) × (s'.aggregates p.handler_key id ≡ some i)
                × IsLoaded p others fresh id o s')
          → IsSourced p others fresh (handle_command p others d env id command a s').1
      handled a o s' v' q (inl (e, failed')) = cc
      handled a o s' v' q (inr (i, e, good)) =
          handle_command-IsSourced d env id command i a.0 a.1 s' faithful restorable e
            (good a.0 a.1 q) v'

  -- However it ends.
  pub handle_delivery-IsSourced :
      (d : Delivery) (env : ℕ) (s : Store)
      → p.handler.new ≡ some fresh
      → AreTrusted p others fresh
      → IsFaithful p others fresh
      → IsRestorable p others fresh
      → IsSourced p others fresh s
      → IsSourced p others fresh (handle_delivery p others d env s).1
  unfolding handle_delivery handle_routed
  handle_delivery-IsSourced d env s new trust faithful restorable v =
      elim (Option-cases (p.packer.unpack_command env)) [
        | inl unreadable ↦ rw (unreadable, handle_delivery) v
        | inr (command, read) ↦
            rw (read, handle_delivery) (routed command (route_command_to_instance p others command))
      ]
    where
      routed :
          (command : ℕ) (r : Failure ⊎ ℕ)
          → IsSourced p others fresh (handle_routed p others d env command r s).1
      routed command (inl e) = v
      routed command (inr id) = loaded-IsSourced d env command id s new trust faithful restorable v

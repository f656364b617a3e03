-- ===== src/Aggregate/Deciding.antt =====
-- HandleDelivery of internal/aggregate/commandpump.go: what a command that is handled has changed.
use runkit.Prelude.{
  ◌==◌, Bool-cases, Option-cases, length, ℕ, ◌≡◌, refl, sym, ap, ◌∙◌, subst, ◌⊎◌, inl, inr, true,
  false, Option, none, some, List, [], ◌∷◌, arith,
}
use runkit.Aggregate.Replaying.{IsLoaded, load_instance-cases}
use runkit.Aggregate.Sourced.{stream_of, bound, changed, IsSourced, AreTrusted}
use runkit.Transaction.{Failure, failed, other, complete, ◌>>=◌, >>=-parts}
use runkit.Pump.{Delivery}
use runkit.Schema.{Store, AggregateInstance}
use runkit.Schema.CommandQueue.{remove, queued}
use runkit.Schema.EventStream.{NewEvent}
use runkit.Aggregate.{CommandPump, Others, load_instance, apply_events}
use runkit.Aggregate.Commands.{
  complete_without_events, record_events, handle_command, handle_routed, handle_delivery,
  route_command_to_instance,
}
use runkit.Aggregate.History.{history}
use runkit.Aggregate.Appending.{Exists, remove-cases}
use runkit.Aggregate.Appended.{IsAppended, complete_with_events-IsAppended}

module _ {Root : Type 0} (p : CommandPump Root) (others : Others) (fresh : Root) where
  complete_without_events-cases :
      (message_id id : ℕ) (s t : Store)
      → complete_without_events p others message_id id s ≡ (inr tt, t)
      → (t.events ≡ s.events) × (queued t.commands message_id ≡ false)
  unfolding complete_without_events
  complete_without_events-cases message_id id s t q = elim (Bool-cases (p.down complete)) [
    | inl out ↦ refused (rw (out, complete_without_events) refl)
    | inr up ↦ elim (Option-cases (s.aggregates p.handler_key id)) [
      | inl absent ↦ removed s refl (rw (up, absent, complete_without_events) at q)
      | inr (i, e) ↦ elim (Option-cases i.stream_id) [
        | inr (stream, on) ↦ removed s refl (rw (up, e, on, complete_without_events) at q)
        | inl unbound ↦
            removed (changed p others fresh id none s) refl
              (rw (up, e, unbound, complete_without_events) at q)
      ]
    ]
  ]
    where
      refused :
          complete_without_events p others message_id id s ≡ (inl other, s)
          → (t.events ≡ s.events) × (queued t.commands message_id ≡ false)
      refused r = cc

      removed :
          (u : Store)
          → u.events ≡ s.events
          → remove message_id u ≡ (inr tt, t)
          → (t.events ≡ s.events) × (queued t.commands message_id ≡ false)
      removed u same r =
          let (events, streams, aggregates, gone) = remove-cases message_id u t r in
          (events ∙ same, gone)

  -- What a command that is handled has changed: the handler returned, the command is no longer in the queue, and exactly
  -- the events that were recorded follow, if there are any.
  abbrev pub IsHandled : Delivery → ℕ → ℕ → ℕ → Root → Option ℕ → Store → Store → Type 0
  IsHandled d env id command root stream s t =
      (packed : List NewEvent) × (final : Root) × (record_events p others env id 0
          (p.handler.handle command root).0 root
        ≡ some (packed, final))
      × ((p.handler.handle command root).1 ≡ false)
      × (queued t.commands d.message_id ≡ false)
      × (((packed ≡ []) × (t.events ≡ s.events))
          ⊎ IsAppended p others fresh d.message_id id (p.packer.correlation_id env) stream packed s
              t)

  handle_command-IsHandled :
      (d : Delivery) (env id command : ℕ) (i : AggregateInstance) (root : Root) (stream : Option ℕ)
      (s t : Store)
      → s.aggregates p.handler_key id ≡ some i
      → i.stream_id ≡ stream
      → ((st : ℕ) → stream ≡ some st → Exists s st)
      → handle_command p others d env id command (root, stream) s ≡ (inr tt, t)
      → IsHandled d env id command root stream s t
  unfolding handle_command
  handle_command-IsHandled d env id command i root stream s t e on exists q =
      elim (Option-cases (record_events p others env id 0 (p.handler.handle command root).0 root)) [
        | inl panics ↦ stopped (rw (panics, handle_command) at q)
        | inr ((packed, final), recorded) ↦ elim (Bool-cases (p.handler.handle command root).1) [
          | inl panics ↦ stopped (rw (recorded, panics, handle_command) at q)
          | inr returns ↦ elim (Bool-cases (length packed == 0)) [
            | inl nothing ↦
                let (same, gone) =
                  complete_without_events-cases d.message_id id s t
                    (rw (recorded, returns, nothing, handle_command) at q) in
                (packed, final, recorded, returns, gone, inl (empty packed nothing, same))
            | inr something ↦
                let appended =
                  complete_with_events-IsAppended p others fresh d.message_id id
                    (p.packer.correlation_id env) i stream packed final s t e on exists
                    (rw (recorded, returns, something, handle_command) at q) in
                (packed, final, recorded, returns, unqueued packed appended, inr appended)
          ]
        ]
      ]
    where
      stopped :
          ◌≡◌ {A = (Failure ⊎ Unit {0}) × Store} (inl failed, s) (inr tt, t)
          → IsHandled d env id command root stream s t
      stopped h = cc

      empty : (es : List NewEvent) → (length es == 0) ≡ true → es ≡ []
      empty [] h = refl
      empty (e ∷ es) h = ground (arith, h)

      unqueued :
          (packed : List NewEvent)
          → IsAppended p others fresh d.message_id id
              (p.packer.correlation_id env)
              stream
              packed
              s
              t
          → queued t.commands d.message_id ≡ false
      unqueued packed (st, next, events, streams, bound', from, kept, gone) = gone

  -- How a command is handled, from the tables `u` that loadInstance leaves.
  pub record IsDecided (d : Delivery) (env : ℕ) (s t : Store) : Type 0 where
    pub command : ℕ
    pub id : ℕ
    pub root : Root
    pub stream : Option ℕ
    pub u : Store
    pub read : p.packer.unpack_command env ≡ some command
    pub routed : route_command_to_instance p others command ≡ inr id
    pub loaded : load_instance p others id s ≡ (inr (root, stream), u)
    pub replays : apply_events p others (history p.handler_key id u.events) fresh ≡ inr root
    pub handled : IsHandled d env id command root stream u t

  -- The streams that rows refer to exist, which the database checks.
  abbrev pub IsReferenced : Store → Type 0
  IsReferenced s = (id st : ℕ) → bound p.handler_key id s ≡ some st → Exists s st

  -- Suppose that an aggregate handler makes a new root, that the tables are sourced (the
  -- events, the stream and the snapshot of each instance of the handler agree, and events are
  -- below the next offsets of their streams) and stay so under what other transactions commit,
  -- and that the streams to which the handler's rows refer exist in the tables that
  -- loadInstance leaves, as the foreign key asks. If HandleDelivery of a command succeeds, then
  -- the command has been unpacked and routed to an instance; loadInstance has left tables u and
  -- given the root that follows from all events of the instance in u; the handler, called with
  -- the command and that root, has returned; the command is no longer in the queue; and either
  -- no events were recorded and the events are those of u, or those are followed by exactly the
  -- recorded events, in their order, on one stream, with successive offsets that begin at the
  -- next offset of that stream in u, or at 0 if there is no such stream in u; it is the stream
  -- that the instance was bound to, if it was, the instance is bound to it now, and its next
  -- offset is now the one after those events.
  pub handle_delivery-IsDecided :
      (d : Delivery) (env : ℕ) (s t : Store)
      → p.handler.new ≡ some fresh
      → AreTrusted p others fresh
      → ((command id : ℕ)
          → p.packer.unpack_command env ≡ some command
          → route_command_to_instance p others command ≡ inr id
          → IsReferenced (load_instance p others id s).1)
      → IsSourced p others fresh s
      → handle_delivery p others d env s ≡ (inr tt, t)
      → IsDecided d env s t
  unfolding handle_delivery handle_routed
  handle_delivery-IsDecided d env s t new trust referenced v q =
      elim (Option-cases (p.packer.unpack_command env)) [
        | inl unread ↦ stopped (rw (unread, handle_delivery) at q)
        | inr (command, read) ↦
            routed command read (route_command_to_instance p others command) refl
              (rw (read, handle_delivery) at q)
      ]
    where
      stopped :
          {e : Failure}
          → ◌≡◌ {A = (Failure ⊎ Unit {0}) × Store} (inl e, s) (inr tt, t)
          → IsDecided d env s t
      stopped h = cc

      decided :
          (command id : ℕ) (root : Root) (stream : Option ℕ) (u : Store)
          → p.packer.unpack_command env ≡ some command
          → route_command_to_instance p others command ≡ inr id
          → load_instance p others id s ≡ (inr (root, stream), u)
          → handle_command p others d env id command (root, stream) u ≡ (inr tt, t)
          → (o : Failure ⊎ (Root × Option ℕ)) × (s' : Store) × (load_instance p others id s
              ≡ (o, s'))
            × IsSourced p others fresh s'
            × (((e : Failure) × (o ≡ inl e))
                ⊎ ((i : AggregateInstance) × (s'.aggregates p.handler_key id ≡ some i)
                    × IsLoaded p others fresh id o s'))
          → IsDecided d env s t
      decided command id root stream u read routed loaded rest (o, s', h, v', outcome) =
          given outcome
        where
          same_o : o ≡ inr (root, stream)
          same_o = ap (λ r. r.0) (sym h ∙ loaded)

          same : s' ≡ u
          same = ap (λ r. r.1) (sym h ∙ loaded)

          given :
              ((e : Failure) × (o ≡ inl e))
                ⊎ ((i : AggregateInstance) × (s'.aggregates p.handler_key id ≡ some i)
                    × IsLoaded p others fresh id o s')
              → IsDecided d env s t
          given (inl (e, failed')) = cc
          given (inr (i, row, good)) =
              let (replays, on) = good root stream same_o in
              let row' : u.aggregates p.handler_key id ≡ some i =
                ap (λ (x : Store). x.aggregates p.handler_key id) (sym same) ∙ row in
              let on' : bound p.handler_key id u ≡ stream =
                ap (λ (x : Store). bound p.handler_key id x) (sym same) ∙ on in
              record {
                command = command;
                id = id;
                root = root;
                stream = stream;
                u = u;
                read = read;
                routed = routed;
                loaded = loaded;
                replays =
                    ap
                      (λ (x : Store).
                        apply_events p others (history p.handler_key id x.events) fresh)
                      (sym same)
                    ∙ replays;
                handled =
                    handle_command-IsHandled d env id command i root stream u t row'
                      (sym (ap stream_of row') ∙ on')
                      (λ st q.
                        subst (λ x. Exists x st) (ap (λ r. r.1) loaded)
                          (referenced command id read routed id st
                            (ap (λ r. bound p.handler_key id r.1) loaded ∙ on' ∙ q)))
                      rest;
              }

      chosen :
          (command id : ℕ)
          → p.packer.unpack_command env ≡ some command
          → route_command_to_instance p others command ≡ inr id
          → (load_instance p others id >>= handle_command p others d env id command) s ≡ (inr tt, t)
          → IsDecided d env s t
      chosen command id read routed r =
          let ((root, stream), u, loaded, rest) =
            >>=-parts (load_instance p others id) (handle_command p others d env id command) s t tt
              r in
          decided command id root stream u read routed loaded rest
            (load_instance-cases p others fresh id s new trust v)

      routed :
          (command : ℕ)
          → p.packer.unpack_command env ≡ some command
          → (o : Failure ⊎ ℕ) → route_command_to_instance p others command ≡ o
          → handle_routed p others d env command (route_command_to_instance p others command) s
            ≡ (inr tt, t)
          → IsDecided d env s t
      routed command read (inl e) r h = stopped (rw (r, handle_routed) at h)
      routed command read (inr id) r h = chosen command id read r (rw (r, handle_routed) at h)

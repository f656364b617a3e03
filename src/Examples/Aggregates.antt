-- ===== src/Examples/Aggregates.antt =====
-- The command pump of an aggregate handler and the message pump's delays on concrete data.
use runkit.Prelude.{
  ltb, ◌==◌, if◌then◌else◌, ==_iff, Bool-cases, filter, All, ℕ, suc, ◌+◌, ◌%◌, ◌<◌, ◌≡◌, refl, ap,
  subst, ◌⊎◌, inl, inr, true, false, none, some, [], ◌∷◌, ◌++◌, arith,
}
use runkit.Pump.{Settings, Delivery, compute_backoff, backoff_limit, deliver}
use runkit.Schema.CommandQueue.{remove}
use runkit.Schema.EventStream.{append}
use runkit.Aggregate.Deciding.{IsReferenced, IsDecided, handle_delivery-IsDecided}
use runkit.Aggregate.Commands.{
  handle_delivery, handle_routed, record_events, route_command_to_instance,
}
use runkit.Transaction.{Failure}
use runkit.Prelude.Maps.{get}
use runkit.Stream.{Envelope}
use runkit.Pump.Delay.{window, compute_backoff-window}
use runkit.Aggregate.Replaying.{load_instance-replayed}
use runkit.Aggregate.Applying.{replayed}
use runkit.Aggregate.Delivering.{deliver-IsSourced}
use runkit.Aggregate.Sourced.{IsKept, IsSourced}
use runkit.Aggregate.History.{owned, history}
use runkit.Schema.{Store, AggregateInstance, Event, update}
use runkit.Aggregate.{Handler, Packer, CommandPump, Others, load_instance, apply_events}
use runkit.Aggregate
use runkit.Aggregate.Commands

-- A counter, whose events are what is added to it. Command 9 records nothing.
abbrev counter : Handler ℕ
counter = record {
  route = λ c. some 1;
  new = some 0;
  apply = λ e r. some (r + e);
  handle = λ c r. if c == 9 then ([], false) else (c ∷ c ∷ [], false);
  marshal = λ r. some r;
  unmarshal = λ b r. some b;
}

abbrev packer : Packer
packer = record {
  unpack_command = λ env. some env;
  correlation_id = λ env. env;
  unpack_event = λ header body. some body;
  pack_event =
      λ env id position e. record { message_id = 10 + position; type_id = 1; header = 0; body = e };
  permits = λ e. true;
  validates = λ e. true;
}

abbrev pump : CommandPump ℕ
pump = record {
  handler = counter;
  handler_key = 7;
  packer = packer;
  command_types = 2 ∷ [];
  down = λ s. false;
}

abbrev others : Others
others = record {
  locked = false;
  meanwhile = λ s. s;
  contention = record { locked = λ id. false; random = λ id. id; fresh = 6 };
  now = 100;
  taken = λ id. false;
}

abbrev event_of : ℕ → ℕ → Event
event_of offset e = record {
  envelope = record {
    stream_id = 5;
    offset = offset;
    message_id = offset;
    type_id = 1;
    header = 0;
    body = e;
  };
  correlation_id = 0;
  owner = some (7, 1);
}

abbrev instance_one : AggregateInstance
instance_one = record { stream_id = some 5; snapshot = some (3, 0) }

-- Instance 1 has recorded 3 and 4, and its snapshot is of the first of them.
abbrev tables : Store
tables = record {
  commands =
      record { message_id = 40; type_id = 2; envelope = 8; failures = 0; deliver_at = 50 } ∷ [];
  idempotency_keys = [];
  streams = (5, 2) ∷ [];
  events = event_of 0 3 ∷ event_of 1 4 ∷ [];
  aggregates = update (λ k i. none) 7 1 (some instance_one);
  processes = λ k i. none;
  deadlines = [];
}

loads : (load_instance pump others 1 tables).0 ≡ inr (7, some 5)
unfolding load_instance Aggregate.find_instance Aggregate.try_lock_instance Aggregate.load_root
    Aggregate.load_rest Aggregate.new_root Aggregate.restore Aggregate.apply_historical_events
    Aggregate.historical_events apply_events
loads = refl

one-IsKept : IsKept pump others 0 tables.streams tables.events 1 (some instance_one)
unfolding apply_events
one-IsKept = record {
  unbound = λ b. cc;
  on_stream = λ stream b. on (cc);
  snapshots = λ bytes offset root snap read. restored offset root (cc) (cc);
  covered = λ bytes offset stream snap on. covered stream offset (cc) (cc);
  checked = λ b. cc;
}
  where
    on :
        {stream : ℕ}
        → 5 ≡ stream
        → All (λ (e : Envelope). e.stream_id ≡ stream) (owned 7 1 tables.events)
    on q = (q, (q, tt))

    restored :
        (offset root : ℕ)
        → 0 ≡ offset
        → 3 ≡ root
        → apply_events pump others
            (filter (λ e. ltb e.offset (suc offset)) (history 7 1 tables.events))
            0
          ≡ inr root
    restored offset root p q =
        subst
          (λ n.
            apply_events pump others
              (filter (λ e. ltb e.offset (suc n)) (history 7 1 tables.events)) 0
            ≡ inr root)
          p (ap inr q)

    covered :
        (stream offset : ℕ)
        → 5 ≡ stream
        → 0 ≡ offset
        → (next : ℕ) × (get tables.streams stream ≡ some next) × (offset < next)
    covered stream offset p q =
        subst (λ n. (next : ℕ) × (get tables.streams n ≡ some next) × (offset < next)) p
          (2, refl, omega (arith, q))

none-IsKept :
    (id : ℕ) → (1 == id) ≡ false → IsKept pump others 0 tables.streams tables.events id none
none-IsKept id apart = record {
  unbound = λ b. unowned;
  on_stream = λ stream b. cc;
  snapshots = λ bytes offset root snap read. cc;
  covered = λ bytes offset stream snap on. cc;
  checked = λ b. refl;
}
  where
    unowned : owned 7 id tables.events ≡ []
    unowned = rw apart refl

tables-IsSourced : IsSourced pump others 0 tables
tables-IsSourced = record {
  placed = ((2, refl, omega arith), ((2, refl, omega arith), tt));
  kept = λ id. rows id;
}
  where
    rows : (id : ℕ) → IsKept pump others 0 tables.streams tables.events id (tables.aggregates 7 id)
    rows id = elim (Bool-cases (1 == id)) [
      | inl same ↦
          subst (λ n. IsKept pump others 0 tables.streams tables.events n (tables.aggregates 7 n))
            ((==_iff 1 id).0 same) one-IsKept
      | inr apart ↦ rw apart (none-IsKept id apart)
    ]

load_instance-replayed_example :
    (s' : Store) × (load_instance pump others 1 tables ≡ (replayed pump others 0 1 s', s'))
    × IsSourced pump others 0 s'
load_instance-replayed_example =
    load_instance-replayed pump others 0 1 tables refl refl refl refl refl (λ s v. v)
      tables-IsSourced

abbrev settings : Settings
settings = record { backoff_base = 10; backoff_cap = 1000; down = λ s. false }

compute_backoff-window_example :
    (0 < window settings 3)
    × (compute_backoff settings 3 95 ≡ some (settings.backoff_base + 95 % window settings 3))
compute_backoff-window_example =
    compute_backoff-window settings 3 95 (omega arith) (omega arith) (omega arith) (omega arith)

-- 70 ns are left of the window of 10 ns to 80 ns; the shift has wrapped to 0 after 63 failures.
delays : (compute_backoff settings 3 95 ≡ some 35) × (compute_backoff settings 63 5 ≡ some 15)
unfolding compute_backoff backoff_limit
delays = (refl, refl)

deliver-IsSourced_example :
    IsSourced pump others 0
      (deliver settings
        (Aggregate.Commands.driver pump others)
        (λ env. some env)
        (1 ∷ 1 ∷ [])
        1
        tables).1
deliver-IsSourced_example =
    deliver-IsSourced pump others 0 settings (λ env. some env) (1 ∷ 1 ∷ []) 1 tables refl (λ s v. v)
      (λ env id position event permitted valid. refl) (λ root root' bytes wrote read. cc)
      tables-IsSourced

abbrev delivery : Delivery
delivery = record { message_id = 40; type_id = 2; envelope = 8; failures = 0 }

abbrev new_event : ℕ → ℕ → Event
new_event offset message_id = record {
  envelope = record {
    stream_id = 5;
    offset = offset;
    message_id = message_id;
    type_id = 1;
    header = 0;
    body = 8;
  };
  correlation_id = 8;
  owner = some (7, 1);
}

-- Command 8 records 8 twice.
abbrev after : Store
after = record tables {
  commands = [];
  streams = (5, 4) ∷ [];
  events = tables.events ++ new_event 2 10 ∷ new_event 3 11 ∷ [];
  aggregates =
      update tables.aggregates 7 1 (some (record { stream_id = some 5; snapshot = some (23, 3) }));
}

handles : handle_delivery pump others delivery 8 tables ≡ (inr tt, after)
unfolding handle_delivery handle_routed Aggregate.Commands.handle_command
    Aggregate.Commands.complete_with_events Aggregate.Commands.bind_stream
    Aggregate.Commands.save_snapshot record_events route_command_to_instance append remove
    load_instance Aggregate.find_instance Aggregate.try_lock_instance Aggregate.load_root
    Aggregate.load_rest Aggregate.new_root Aggregate.restore Aggregate.apply_historical_events
    Aggregate.historical_events apply_events
handles = refl

referenced :
    (command id : ℕ)
    → route_command_to_instance pump others command ≡ inr id
    → IsReferenced pump others 0 (load_instance pump others id tables).1
unfolding route_command_to_instance load_instance Aggregate.find_instance
    Aggregate.try_lock_instance Aggregate.load_root Aggregate.load_rest Aggregate.new_root
    Aggregate.restore Aggregate.apply_historical_events Aggregate.historical_events apply_events
referenced command id routed =
    subst (λ n. IsReferenced pump others 0 (load_instance pump others n tables).1) (one routed)
      known
  where
    one : {id : ℕ} → ◌≡◌ {A = Failure ⊎ ℕ} (inr 1) (inr id) → 1 ≡ id
    one h = cc

    known : IsReferenced pump others 0 tables
    known id st on = elim (Bool-cases (1 == id)) [
      | inl e ↦ five (rw e at on)
      | inr e ↦ unbound (rw e at on)
    ]
      where
        five : some 5 ≡ some st → (next : ℕ) × (get tables.streams st ≡ some next)
        five h = subst (λ n. (next : ℕ) × (get tables.streams n ≡ some next)) (id_of h) (2, refl)
          where
            id_of : some 5 ≡ some st → 5 ≡ st
            id_of h = cc

        unbound : none ≡ some st → (next : ℕ) × (get tables.streams st ≡ some next)
        unbound h = cc

handle_delivery-IsDecided_example : IsDecided pump others 0 delivery 8 tables after
handle_delivery-IsDecided_example =
    handle_delivery-IsDecided pump others 0 delivery 8 tables after refl (λ s v. v)
      (λ command id read routed. referenced command id routed) tables-IsSourced handles

-- ===== src/Examples/Processes.antt =====
-- The sink and the deadline pump of a process handler on concrete data.
use runkit.Prelude.{
  ◌==◌, if◌then◌else◌, inc64, ℕ, suc, ◌+◌, ◌*◌, ◌≡◌, refl, ◌≢◌, inl, inr, Bool, true, false, ◌&&◌,
  none, some, [], ◌∷◌, arith,
}
use runkit.Stream.{Envelope}
use runkit.Transaction.{failed}
use runkit.Schema.{Store, Deadline, Command, update}
use runkit.Schema.CommandQueue
use runkit.Pump.{Delivery, Settings, deliver, do_handle, ok, compute_backoff, backoff_limit}
use runkit.Process.{Database, consume}
use runkit.Process.Scope.{
  EffectPacker, mutate, end, execute_command, schedule_deadline, MessageScope, act, act_all,
}
use runkit.Process.Instance.{Handler, new_root, load_root, add_commands_to_queue, scheduled}
use runkit.Process.Dispatching.{Receiver, call_handler, sink}
use runkit.Process.Deadlines
use runkit.Process.Deadlines.{driver}
use runkit.Process.Ending.{IsSettled}
use runkit.Process.Owning.{AreOwned}
use runkit.Process.Acquiring.{acquire_delivery-unended}
use runkit.Process.Consuming.{consume-IsSettled}
use runkit.Process.Pumping.{deliver-IsSettled}
use runkit.Process.Failing.{handle_delivery-untouched}
use runkit.Process.Unsaved.{do_handle-unsaved}

-- A process that counts its events, with a deadline after each. Event 9 ends it; deadline 1 adds to the count, and the
-- handler fails to handle any other.
abbrev process : Handler ℕ
process = record {
  new = some 0;
  marshal = λ r. some r;
  unmarshal = λ b r. some b;
  route = λ e. if e == 0 then some none else some (some 1);
  handle_event = λ e r.
      if e == 9
      then (end ∷ [], false)
      else (mutate (λ r. some (suc r)) ∷ execute_command e ∷ schedule_deadline e 60 ∷ [], false);
  handle_deadline = λ d r.
      if d == 1 then (execute_command 2 ∷ mutate (λ r. some (suc r)) ∷ [], false) else ([], true);
}

abbrev effects : EffectPacker
effects = record {
  pack_command = λ env key id position c. record {
    message_id = 10 * env + position;
    type_id = 1;
    envelope = c;
    idempotency_key = 0;
  };
  pack_deadline = λ env key id position d t. record {
    message_id = 10 * env + position;
    type_id = 3;
    source_key = key;
    source_instance = id;
    envelope = d;
    scheduled_for = t;
  };
  permits = λ m. true;
  validates = λ m. true;
}

abbrev receiver : Receiver ℕ
receiver = record {
  handler = process;
  key = 7;
  packer = effects;
  unpack = λ env. some env;
  now = 100;
  down = λ s. false;
}

-- The same, of roots that can not be serialised.
abbrev forgetful : Receiver ℕ
forgetful = record receiver { handler = record process { marshal = λ r. none } }

abbrev deadline : Deadline
deadline = record {
  message_id = 30;
  type_id = 3;
  handler_key = 7;
  instance_id = 1;
  envelope = 1;
  failures = 0;
  deliver_at = 50;
}

-- Instance 1 is waiting for a deadline, and instance 2 has ended.
abbrev tables : Store
tables = record {
  commands = [];
  idempotency_keys = [];
  streams = [];
  events = [];
  aggregates = λ k i. none;
  processes =
      update (update (λ k i. none) 7 1 (some (record { ended = false; state = some 4 }))) 7 2
        (some (record { ended = true; state = none }));
  deadlines = deadline ∷ [];
}

abbrev settings : Settings
settings = record { backoff_base = 10; backoff_cap = 1000; down = λ s. false }

abbrev event_of : ℕ → Envelope
event_of body = record {
  stream_id = 5;
  offset = 0;
  message_id = 20;
  type_id = 1;
  header = 0;
  body = body;
}

abbrev before : Database Store
before = record { checkpoints = []; effects = tables }

-- The second instance has ended.
abbrev ended : ℕ → ℕ → Bool
ended k i = k == 7 && i == 2

receiver-AreOwned : AreOwned receiver
receiver-AreOwned env id i d t = (refl, refl)

tables-IsSettled : IsSettled ended tables
tables-IsSettled = record {
  pending = (refl, tt);
  stateless = λ k i. ground arith;
  final = λ k i e. ground (arith, e);
}

consume-IsSettled_example :
    IsSettled ended
      (consume (sink receiver (λ n. false) (λ n db. db)) 5 0 1 (some (event_of 9)) before).0.effects
consume-IsSettled_example =
    consume-IsSettled receiver ended (λ n. false) (λ n db. db) 5 0 1 (some (event_of 9)) before
      receiver-AreOwned (λ n db v. v) tables-IsSettled

deliver-IsSettled_example :
    IsSettled ended
      (deliver settings
        (driver receiver 100 (λ d. false) (3 ∷ []) (λ env. 1))
        (λ env. some env)
        (1 ∷ [])
        1
        tables).1
deliver-IsSettled_example =
    deliver-IsSettled receiver ended settings 100 (λ d. false) (3 ∷ []) (λ env. 1) (λ env. some env)
      (1 ∷ []) 1 tables receiver-AreOwned tables-IsSettled

abbrev delivery : Delivery
delivery = record { message_id = 30; type_id = 3; envelope = 1; failures = 0 }

acquired :
    Deadlines.acquire_delivery receiver 100 (λ d. false) (3 ∷ []) tables
    ≡ (inr (some delivery), tables)
unfolding Deadlines.acquire_delivery
acquired = refl

acquire_delivery-unended_example : (load_root process receiver.down 7 1 5 tables).0 ≢ inr none
acquire_delivery-unended_example =
    acquire_delivery-unended receiver ended 100 (λ d. false) (3 ∷ []) (λ env. some env) (λ env. 1)
      tables tables delivery 1 5 tables-IsSettled ((λ env read. refl), tt) acquired refl

-- The handler fails to handle deadline 2.
fails : Deadlines.handle_delivery receiver (λ env. 1) delivery 2 tables ≡ (inl failed, tables)
unfolding Deadlines.handle_delivery Deadlines.handle_deadline new_root load_root call_handler
    act_all
fails = refl

handle_delivery-untouched_example :
    (tables.commands ≡ tables.commands) × (tables.deadlines ≡ tables.deadlines)
handle_delivery-untouched_example =
    handle_delivery-untouched receiver (λ root m. cc) (λ env. 1) delivery 2 tables tables fails

-- The command that the deadline's handler has executed.
abbrev command_of : ℕ → Command
command_of at = record { message_id = 10; type_id = 1; envelope = 2; failures = 0; deliver_at = at }

abbrev scope : MessageScope ℕ
scope = record {
  root = 5;
  mutated = true;
  ended = false;
  commands = record { message_id = 10; type_id = 1; envelope = 2; idempotency_key = 0 } ∷ [];
  deadlines = [];
}

called : call_handler forgetful 1 1 (process.handle_deadline 1 4) 4 ≡ some scope
unfolding call_handler act_all act
called = refl

loaded : load_root forgetful.handler forgetful.down 7 1 0 tables ≡ (inr (some 4), tables)
unfolding load_root
loaded = refl

queued :
    add_commands_to_queue forgetful.down 100 scope.commands tables
    ≡ (inr tt, record tables { commands = command_of 100 ∷ [] })
unfolding add_commands_to_queue CommandQueue.add
queued = refl

backoff : compute_backoff settings 1 3 ≡ some 13
unfolding compute_backoff backoff_limit
backoff = refl

-- The command is in the queue, and the deadline is due again.
do_handle-unsaved_example :
    let (o, after) =
      do_handle settings
        (driver forgetful 100 (λ d. false) (3 ∷ []) (λ env. 1))
        delivery
        1
        3
        tables
        tables in
    (o ≡ ok tt) × (after.commands ≡ command_of 100 ∷ []) × (scheduled after.deadlines 30 ≡ true)
unfolding inc64
do_handle-unsaved_example =
    do_handle-unsaved forgetful settings 100 (λ d. false) (3 ∷ []) (λ env. 1) delivery 1 3 13 1 0 4
      scope tables tables (record tables { commands = command_of 100 ∷ [] }) refl refl loaded called
      (refl, refl, refl) queued refl backoff refl refl

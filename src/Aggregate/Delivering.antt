-- ===== src/Aggregate/Delivering.antt =====
-- The message pump with the commands of an aggregate handler: internal/messagepump/pump.go over internal/aggregate/commandpump.go.
use runkit.Prelude.{inr, ℕ, ◌+◌, ◌≡◌, Option, some, List, arith}
use runkit.Schema.{Store, Command}
use runkit.Schema.CommandQueue.{reschedule, postpone_delivery, acquire_delivery}
use runkit.Pump.{Delivery}
use runkit.Aggregate.{CommandPump, Others}
use runkit.Aggregate.Commands.{driver}
use runkit.Aggregate.Sourced.{IsSourced, AreTrusted}
use runkit.Pump.{Settings, deliver}
use runkit.Pump.Keeping.{Keeps, deliver-keeps}
use runkit.Aggregate.Recording.{IsFaithful, IsRestorable}
use runkit.Aggregate.Handling.{handle_delivery-IsSourced}

module _ {Root : Type 0} (p : CommandPump Root) (others : Others) (fresh : Root) where
  requeued :
      (commands : List Command) (s : Store)
      → IsSourced p others fresh s
      → IsSourced p others fresh (record s { commands = commands })
  requeued commands s v = record { placed = v.placed; kept = v.kept }

  acquire_delivery-IsSourced :
      (s : Store)
      → IsSourced p others fresh s
      → IsSourced p others fresh
          (acquire_delivery p.down others.now others.taken p.command_types s).1
  unfolding acquire_delivery
  acquire_delivery-IsSourced s v = ground (arith, v)

  postpone_delivery-IsSourced :
      (d : Delivery) (delay : ℕ) (s : Store)
      → IsSourced p others fresh s
      → IsSourced p others fresh (postpone_delivery p.down others.now d delay s).1
  unfolding postpone_delivery
  postpone_delivery-IsSourced d delay s v =
      ground (
        arith,
        v,
        requeued (reschedule d.message_id d.failures (others.now + delay) s.commands) s v,
      )

  driver-Keeps :
      p.handler.new ≡ some fresh
      → AreTrusted p others fresh
      → IsFaithful p others fresh
      → IsRestorable p others fresh
      → Keeps (driver p others) (IsSourced p others fresh)
  unfolding driver
  driver-Keeps new trust faithful restorable = record {
    acquires = acquire_delivery-IsSourced;
    postpones = postpone_delivery-IsSourced;
    handles = λ d env s v.
        inr (handle_delivery-IsSourced p others fresh d env s new trust faithful restorable v);
  }

  -- Suppose that the handler makes a new root, that what other transactions commit keeps the
  -- tables sourced, that an event which a command records unpacks from its row as itself, and
  -- that a snapshot which a new root can read gives the root that was written. Tables are
  -- sourced if each event has an offset below the next one of its stream and if, for each
  -- instance of the handler, all of its events are on the stream of the instance, an instance
  -- without a stream has neither events nor a snapshot, and a snapshot that can be read is the
  -- root that follows from the events up to its offset, which is below the next one of the
  -- stream. Then a round of the message pump with the commands of the handler keeps the tables
  -- sourced, whether a command is handled, fails, is postponed or meets an outage of the
  -- database at any statement.
  pub deliver-IsSourced :
      (settings : Settings) (parse : ℕ → Option ℕ) (draws : List ℕ) (draw : ℕ) (s : Store)
      → p.handler.new ≡ some fresh
      → AreTrusted p others fresh
      → IsFaithful p others fresh
      → IsRestorable p others fresh
      → IsSourced p others fresh s
      → IsSourced p others fresh (deliver settings (driver p others) parse draws draw s).1
  deliver-IsSourced settings parse draws draw s new trust faithful restorable v =
      deliver-keeps settings (driver p others) (IsSourced p others fresh)
        (driver-Keeps new trust faithful restorable) parse draws draw s v

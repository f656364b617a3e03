-- ===== src/Lib.antt =====
-- The event streams and the message handlers of runkit, an engine that runs Dogma applications.
--
-- An application records its events on streams, in which each event has an offset. Consumers of a stream read it from an
-- offset on and want every event of some types, once and in order. Between the database and a consumer lie these parts.
--
-- A source (internal/eventstream/source) delivers segments to a callback: half-open ranges of one stream with the events
-- of the requested types in them. There are three of them and a server. Source/Memory.antt is memory.go, a source over
-- lists (Memory.Append, Read and Watch as append, read and watch, with the source as it stands at each round of a loop).
-- Source/Local.antt is local.go, over the tables of the database: load_segment is Local.loadSegment and query is the SQL
-- that buildSegmentQuery writes, with its filter, order and limit; Source/Local/Watching.antt has the calls of
-- Local.Watch and the goroutines of watchStream and deliverStream, as the relation Step between states of both.
-- Source/Server.antt is server.go, which splits segments into messages of bounded size (split is splitSegment) and answers
-- requests (watch_events and read_events in Source/Server/Endpoints.antt), and
-- Source/Remote.antt is remote.go, which checks every message that it receives (parse is parseSegment) and every order
-- in which they come. Source/Wire.antt has the data that travels between the two; multi-envelopes belong to a package
-- that these files only call, so they are an interface, Protobuf, with what that package documents as laws.
--
-- A feed (internal/eventstream/feed.go, Feed.antt) serves the consumers of one stream from one source: from a cache of
-- recent events (internal/eventstream/internal/cache, Cache.antt) if it reaches back far enough, and by reading from the
-- source otherwise. The catalog (internal/eventstream/catalog.go, Catalog.antt) has the feeds of all streams and moves a
-- consumer to another feed of its stream if its own is closed.
--
-- Consumer.antt is the part of internal/eventstream/consumer.go that decides which streams a node consumes (reconcile), and
-- Projection.antt is internal/projection/sink.go with the callback of a stream consumer: the handler is the application's,
-- so it is a parameter, Handler. Process.antt is the part of internal/process/sink.go that commits a process handler's
-- effects together with its checkpoint (consume and consume_segment), and Process/Dispatching.antt is what dispatch does
-- in that transaction. Process/Scope.antt has the calls that a handler makes of its scope (messagescope.go; act is one of
-- them), Process/Instance.antt the rows of an instance (instancestate.go and commandqueue.go; load_root, save_root and
-- end_root are loadInstance, saveInstance and endInstance), and Process/Deadlines.antt is deadlinepump.go.
--
-- Commands and deadlines are delivered by the message pump (internal/messagepump, Pump.antt): it acquires a delivery from
-- its driver and has it handled in a transaction, and postpones it if that fails (do_handle is doHandle; deliver is what
-- the dispatcher and a worker do with one task). The aggregates' driver is internal/aggregate/commandpump.go: Aggregate.antt
-- loads an instance from its snapshot and its events (load_instance), and Aggregate/Commands.antt handles a command
-- (handle_delivery). A call in a transaction is an Action of Transaction.antt, which reads and changes the tables and
-- ends with a value or an error; each statement may meet an outage of the database. The tables and the SQL functions of
-- internal/schema/ddl are in Schema.antt and the modules below it: the command queue, and the event streams. What other
-- transactions do is an argument: which rows they have locked, and what they commit while a call waits for a lock. Nothing
-- is committed while acquire_for_write waits for a stream, or loadInstance for the row of a process instance. That the ID
-- of a new event is not that of another one is taken for granted.
--
-- Supervisor.antt is the restart loop of internal/supervisor (run is Run), less PanicOnDeadlock, which does nothing in a
-- program that is not a test.
-- Cluster.antt is the choice of a node for a workload in internal/cluster/membership.go (is_responsible is
-- LocalNodeIsResponsibleFor); the hash is a parameter.
--
-- Stream.antt has what the parts share: events, segments, the reference for a segment (between, the events of a range
-- that have a requested type), and Covers, which says that segments are contiguous and hold exactly those events.
-- Stream/Chain.antt has sequences of segments of several streams. Prelude.antt has tests, lists, maps and 64-bit
-- successors. Examples.antt has the runs of the definitions on concrete data and the theorems applied to them.
--
-- Offsets and identifiers are natural numbers; UUIDs are compared only for equality. An offset is a uint64 in the code:
-- the successor is written with its wrap-around (inc64), and theorems ask that the ends of segments are below 2 ^ 64. A
-- panic is none, or the ending panics. Locks are held for whole operations, so an operation is one step; what other
-- goroutines do between the rounds of a loop is an argument of the loop, one entry for each round (the states of the
-- source, the tables at each query, the messages received, the rounds of a feed). A loop that has used up these entries
-- answers unfinished, or is canceled where the code waits for its context. No other fuel is used but that of the
-- standard library's binary search, which has a round for each index, and it is shown to find what a scan finds. That
-- loops end is stated with the number of rounds that is enough.
--
-- Not modelled are the discovery of streams and the start of goroutines, gRPC and SQL transport, logging, and the parts
-- of the engine above the event streams other than these: the integrations, the channel between the dispatcher and the
-- workers of a message pump, the heartbeats of the cluster and the signal bus.
pub mod Prelude
pub mod Stream
pub mod Cache
pub mod Source
pub mod Feed
pub mod Catalog
pub mod Consumer
pub mod Aggregate
pub mod Cluster
pub mod Process
pub mod Projection
pub mod Pump
pub mod Schema
pub mod Supervisor
pub mod Transaction
pub mod Examples

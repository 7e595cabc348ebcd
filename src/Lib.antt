-- ===== src/Lib.antt =====
-- A verification library for tp-lavado-dinero, a distributed system that analyses bank
-- transactions for money laundering. A client sends its rows to a gateway; stages of workers,
-- connected by RabbitMQ, filter, group and join them in batches; a fault hypervisor, itself
-- replicated, revives the nodes that stop. Every stage has several workers, and they agree
-- through a coordinator when all rows of a client have passed the stage.
--
-- What is modelled, and where:
-- * Batch (internal/common/batch/batch.go, Batcher.go): items are gathered up to a weight and
--   handed to a callback under numbered names. `Batch.Defs` has the records `Batch` and `Batcher`
--   and one function for each method (New, TryAdd, Flush, IsEmpty, clear; NewBatcher,
--   SetNewBatchId, Add, Flush as flush_pending) and for the loop over Add with a Flush behind it
--   (send_all). The callback changes a state and may fail. `Batch.Contents` has what goes out,
--   `Batch.Weights` how heavy the groups are, `Batch.Names` how they are called.
-- * Coordinator.ClientState (internal/workers/coordinator/clientState.go): what a worker knows of
--   one client, its own batches and EOFs and those that its peers have told of, with the totals
--   over both and the test isReadyToFlush. Counting, Totals and Eofs show that duplicates do not
--   count, Barrier that the test is a barrier, Sorting how the last EOF is chosen.
-- * Coordinator.Storage (batchstorage.go there): the lines of the three logs, the loaders and the
--   writers on the bytes of the files (Format, Operations), how a log falls into lines and fields
--   (Splitting), and the round trips (RoundTrip).
-- * Coordinator.World and Coordinator.Protocol (eofcoordinator.go there): the whole coordinator as
--   a state, with what it sends, what it writes and which flushes it asks for. Sending and Defs
--   have one function for each method (RecordBatch, HandleLocalEOF, handleRemoteEOF,
--   handleRemoteBatch, handleWakeUp, ClearClient, BroadcastCleanup, handleRemoteCleanup,
--   handleCoordinationMessage, tryFlush and so on), Steps its life as a list of operations and
--   messages, Restore restoreFromStorage. Quiet and QuietSteps tell which actions leave the clients
--   alone, Flushing and Once what an operation flushes, Lifetime what a life does, Fine, Settling,
--   Settled and Calm what happens where no call fails, Keeping and Noted what the operations leave
--   noted, Restored, LogShapes and Recovery what a restart brings back, Synced, Written,
--   Safe, Noting, Surviving and Recalled that through a life the logs keep up with the memory,
--   Writable, Rewriting, Cleared and Forgotten what a clean-up leaves of them. Moving and Telling
--   go through the messages to the peers for any relation of states. The coordinator uses the
--   batcher of Batch for its broadcasts.
-- * Leader (internal/fault_hypervisor/leader): the bully election. `Leader.Defs` has the state of
--   one node and a function for every piece that runs under its mutex; what a goroutine or a timer
--   does later is a task. Peers tells who gets the messages, Terms how often a node takes the lead,
--   Stuck how an election can hang.
-- * Checkpoint (internal/workers/checkpoint): the manager by which a stateful worker logs the changes
--   of its processor and the batches behind them before it acks their messages. `Checkpoint.Line` has
--   the lines of the log, with json and crc32 as the parameter `Codec`; `Checkpoint.Defs` the manager,
--   over any processor and any coordinator (`Processor`, `Coordinator`: Checkpointable and the interface
--   in internal/workers/coordinator/coordinator.go), with a function for each method; `Checkpoint.Replay` has LoadState; Steps the calls
--   of the engine. Appending and Persisting tell what a checkpoint does, Parsing what is read of a line, Once, Noted,
--   Logged, Covered and Durable what runs keep, Aborted what an abort leaves, Reloaded what a restart loads.
-- * Processors (internal/workers/processor): what the stateful workers do with their items.
--   `Processors.Model` has the accounts (internal/common/inner/model), with encoding/json and
--   float64 as the parameters `Json` and `Floats`; Loops the loops over changes and maps; Journal
--   how the manager uses a processor (checkpoint/checkpointable.go); Dirty the argument, common to
--   all trackers, that the log and the changes that are not in it make up the store. MaxBank
--   (groupers/maxbank) and Relations (groupers/origindestination, both groupers) have a function
--   for each method of processor, store and tracker in Defs (the store of MaxBank in Store);
--   Logging and Replay are about their logs, Gathered, Order, Greatest and Groups about results.
--   `Processors.Conversions` (joiners/conversionjoin) counts amounts, with its log in Synced and
--   Counted; `Processors.MaxBankJoin` (joiners/maxbankjoin) gathers bank maxima, with its log in
--   Replayed.
-- * Engine (internal/workers/engine, sender, receiver): how a worker answers a message.
--   `Engine.Events` has the events, `Engine.Sender` the SingleSender with a batcher of Batch for
--   each client; Rows, Clients and Closing tell what it publishes. `Engine.Stateless` is the
--   stateless engine over that sender, the coordinator of Coordinator.Protocol and any processor;
--   `Engine.Stateful` the stateful one over the manager of Checkpoint and any processor,
--   coordinator and sender. The coordinator's call of the flush handler is a step of its own.
--   Acks, Sent and Results are about one message of the stateless engine, Serving and Lasting about
--   its runs and a restart behind them; Durable and Acks about the runs of the stateful engine.
-- * External (internal/common/external): the protocol between client and gateway.
--   `External.Serializer` has the numbers as bytes, Socket a connection as the bytes to come and
--   the bytes written, `External.Defs` the batches and ReceiveMsg, `External.Results` the results,
--   ReceiveResult and the acks, with the text of a float as the parameter `FloatText`. Reads is
--   about sequences of reads; Batches, Fields and Delivered have the round trips.
-- * Prelude, Decimal and GoMap: Boolean tests, results with errors, sets as lists; decimal printing
--   and reading of uint64 (fmt's %d, strconv.ParseUint); Go's maps as association lists.
--
-- How the code is rendered. A string is a list of bytes. A uint64 or uint32 is a natural number,
-- with the remainder by 2 ^ 64 or 2 ^ 32 where the code adds; the weights of a batch are ints
-- that are not negative and are not cut off. A Go map is a list of pairs in the order in which
-- `range` visits it, which Go leaves open: theorems hold for every order. A call that leaves the
-- program (broker, disk, callback) takes its outcome from a list in the state, so that theorems
-- hold for every pattern of failures; a call that fails has no effect of its own, and those
-- behind the end of the list succeed. All loops are structural recursions, on the list that they
-- range over or on the number of rounds left; the printing of a number n has n + 1 as its fuel,
-- which is enough since each round divides by ten.
--
-- What is not modelled: logging; the time that passes, other than the clock readings of the
-- election; a failing write that leaves part of a line, and lines of 64 KiB and more;
-- interleavings within one operation of the coordinator, which its mutex rules out but for
-- handleRemoteCleanup's first test; interleavings of the checkpoint manager's operations, which
-- one goroutine calls. Also the start and stop of the engines, the routed sender, the receivers,
-- the other processors, the gateway, the client and the monitor of the hypervisor are left out;
-- the broker's library, generated protobuf code, factories and Docker calls are outside.
pub mod Batch
pub mod Checkpoint
pub mod Coordinator
pub mod Decimal
pub mod Engine
pub mod External
pub mod GoMap
pub mod Leader
pub mod Prelude
pub mod Processors

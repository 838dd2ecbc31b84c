-- ===== src/Lib.antt =====
-- A verification of the parts of gosoline that carry logic of their own: its key value stores, its
-- cache, its stream producers and consumers, its kernel, its retries, its locks, its scheduler, its
-- limiters, its sampling, its fake clock and its collections.
--
-- The parts and how they interact. A program stores values through a chain of stores (pkg/kvstore),
-- of which the in-memory layer is a cache with expiry (pkg/cache), which locks keys (pkg/conc). It
-- sends messages through a producer daemon (pkg/stream), whose batcher and aggregator put messages
-- together and whose encoder makes messages of data; a consumer takes them from an input, hands them
-- to a callback, and acknowledges them or puts them into retry. Producers and consumers are modules
-- that the kernel (pkg/kernel) runs in stages. Calls of services are retried by an executor
-- (pkg/exec), put into batches by a scheduler (pkg/conc/scheduler) and held back by limiters
-- (pkg/limit). All use the collections of pkg/funk.
--
-- The files and what they model:
--   Prelude          Boolean tests on numbers, lists, and Go's maps as association lists.
--   Kvstore/Store    the interface KvStore of pkg/kvstore/kvstore.go, and what a layer promises.
--   Kvstore/Chain    chainKvStore of pkg/kvstore/chain.go: Get, Contains, Put, Delete, AddStore;
--                    Chain/Batch is GetBatch, PutBatch and DeleteBatch. Coherence, Writes,
--                    Batch/Fetches, Batch/Reads and Batch/Complete prove what they do.
--   Kvstore/Batching keyChunks and getBatch of pkg/kvstore/batch.go, UniqKeys of uniq.go.
--   Kvstore/Stores   the stores of empty.go, in_memory.go and metric.go; Empty/Layer and
--                    InMemory/Layer fill the interface of a layer.
--   Cache            cache of pkg/cache/ccache.go, over the package karlseguin/ccache as a parameter.
--   Stream/Batcher   producerDaemonBatcher of pkg/stream/producer_daemon_batcher.go.
--   Stream/Aggregator producerDaemonAggregator of pkg/stream/producer_daemon_aggregator.go.
--   Stream/Partitioned producerDaemonPartitionedAggregator of
--                    pkg/stream/producer_daemon_partitioned_aggregator.go, over an interface of
--                    the aggregators in its buckets; Buckets proves where a message goes.
--   Stream/Daemon    producerDaemon of pkg/stream/producer_daemon.go with the channel of
--                    output_channel.go, over an interface of aggregators; Sends states what it
--                    relies on of an aggregator, which Noop shows for the one of
--                    producer_daemon_noop_aggregator.go, and Delivers that every message arrives.
--   Stream/Encoding  messageEncoder of pkg/stream/message_encoding.go, over the codecs by name.
--   Stream/ConsumerBase, Stream/Consumer the consumer of pkg/stream/consumer.go with what it uses of
--                    consumer_base.go and consumer_acknowledge.go: what it sends to its inputs and
--                    to the retry handler is a list of effects.
--   Stream/BatchConsumer the consumer of pkg/stream/consumer_batch.go.
--   Kernel/Stages    runStages and Stop of pkg/kernel/kernel.go with the stages of stage.go, as the
--                    steps of goroutines; Kernel/Modules says which modules that return stop it,
--                    and Kernel/Exit with which code it exits.
--   Exec             the trackers of pkg/exec/elapsed_time_tracker.go, NextBackOff of
--                    backoff_tracked.go, and Execute of executor_backoff.go.
--   Conc/KeyLock     keyLock of pkg/conc/key_lock.go, as the steps of goroutines.
--   Conc/PoisonedLock poisonedLock of pkg/conc/poisoned_lock.go.
--   Conc/Scheduler   createBatches of pkg/conc/scheduler/scheduler.go, and Run with the goroutines of
--                    executeBatches as the steps of runners over one queue.
--   Limit/FixedWindow the limiter of pkg/limit/fixed_window.go over a backend, Limit/Ddb the backend of
--                    fixed_window_ddb.go over a table with conditional updates, and Limit/Chained the
--                    chain of chained.go.
--   Funk             pkg/funk: slice.go, set.go and maps.go.
--   Smpl/Decider     defaultDecider of pkg/smpl/decider.go, over strategies as functions.
--   Smpl/Probabilistic probabilisticStrategy of pkg/smpl/strategy_probabilistic.go.
--   Clock/Fake       fakeClock of pkg/clock/fake_clock.go with the timers of fake_timer.go and the
--                    tickers of fake_ticker.go. A channel is the one value that it buffers, which
--                    nobody reads between the calls; where the code would wait for ever, the result
--                    is none.
-- The modules named Examples hold runs at concrete inputs.
--
-- How code is modelled. A method is a function from the state, a record with the fields of the
-- struct, to its results and the state after the call; an error is none for nil. The calls of an
-- interface, of a third party or of the runtime are parameters, and what the code relies on is a
-- named record of laws. A select is the event that comes next, and a loop over it is a function of the
-- events. Log messages are not modelled, but warnings of the chain are counted. A Go
-- map is a list of entries: nothing is stated of an order that Go does not promise. Sizes, counts and
-- times are natural numbers, as none is negative in the code that is modelled, but for the durations of
-- the fake clock and the hash keys of messages, which are integers.
--
-- Bounds and fuel. Only keyChunks recurses on fuel: the number of the keys, which is enough as each
-- chunk takes at least one. All other loops recurse on what they range over, and the loop of the
-- executor is a parameter, of which the rule that its documentation gives is assumed.
--
-- What is not modelled: the construction from configurations, reflection and conversions of types,
-- metrics and logs, the stores and brokers behind a network, and what the manifest lists as not
-- modelled.
pub mod Prelude
pub mod Cache
pub mod Clock
pub mod Conc
pub mod Exec
pub mod Funk
pub mod Kernel
pub mod Kvstore
pub mod Limit
pub mod Smpl
pub mod Stream

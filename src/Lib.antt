-- ===== src/Lib.antt =====
-- Verification of sqtseries, a time-series database over SQLite.
--
-- The program stores measurements (series id, nanosecond timestamp, value) in one table per UTC
-- month, keeps an hourly rollup of them, answers range and aggregate queries, and serves both
-- over a messaging layer with a cache of query results. The parts and their files:
--
-- Schema.antt is src/sqtseries/engine/schema.py: the month a timestamp belongs to. A partition
-- `measurements_YYYY_MM` is the number of months since January 1970.
-- Rollup.antt is src/sqtseries/partition/rollup.py: `rollup_partition`, `rollup_new_hours` and the
-- watermark. Rollup/Writes.antt is `insert_many` of src/sqtseries/engine/store.py with the
-- `rewind_watermark` of its transaction, and `drop_partition` of
-- src/sqtseries/partition/manager.py. Rollup/Sound.antt says when the tables are right;
-- Rollup/Ingest, Pass, Advance, Range, Retire and History are proofs.
-- Scan.antt is the range reads of src/sqtseries/engine/store.py.
-- Series.antt is the series registry of src/sqtseries/engine/store.py with its two caches; the rows of
-- Rollup/Writes.antt carry ids that are resolved already.
-- Query.antt is the fast path of src/sqtseries/query/builder.py, which adds the raw edges of a
-- window to the rolled hours between.
-- Query/Aggregate.antt is its `aggregate` for one function, and Query/Downsample.antt is the grouping
-- into buckets in the database, by `downsample_sqlite` of src/sqtseries/engine/store.py.
-- QueryCache.antt is src/sqtseries/messaging/query_cache.py.
-- Retention.antt is src/sqtseries/partition/retention.py with `list_partitions` of
-- src/sqtseries/partition/manager.py: which months expire, and the pass that drops them.
-- Fanout.antt is src/sqtseries/messaging/fanout.py: topic patterns and the subscribers' queues.
-- Agg.antt is src/sqtseries/query/agg.py and Ratelimit.antt is src/sqtseries/gateway/ratelimit.py.
-- Registry.antt is src/sqtseries/messaging/connection_registry.py. Ports.antt is
-- src/sqtseries/ports.py, where the system's answer to a bind is a parameter.
-- Ingress.antt is src/sqtseries/messaging/ingress.py: frames are drained into batches, a batch takes a
-- credit and goes on the queue, and one persister hands batches to the sink. Sink.antt is `_sink` of
-- src/sqtseries/service.py, which is that sink: it calls `insert_many` up to four times, which there
-- resolves the series of Series.antt first and inserts the rows as in Rollup/Writes.antt. Service.antt
-- is `_query_handler` of the same file, between QueryCache.antt and a facade that is a parameter.
-- PubSub.antt is src/sqtseries/messaging/pubsub.py, which publishes to the hub of Fanout.antt and
-- tells Registry.antt of subscriptions. Broker.antt is src/sqtseries/messaging/broker.py: requests,
-- tasks, error codes and counters; its handler is a parameter.
-- Protocol.antt is src/sqtseries/messaging/protocol.py, with `write` of src/sqtseries/client.py in
-- Protocol/Write.antt. Database.antt is the reader pool and the writer of src/sqtseries/engine/db.py;
-- what a transaction does to the tables is in the parts above, which take each as a whole.
-- Partials.antt is the arithmetic of partial aggregates (count, sum, min, max) that the rollup and
-- the fast path share. Dict.antt is Python's dict and OrderedDict as lists of entries.
--
-- The database is explicit state: `Db` holds the partitions, the rollup table and the watermark.
-- A transaction is a function that returns the new state or `none` for the error that rolls it
-- back. A statement of SQL is the list function it denotes; the clock is an argument.
--
-- Numbers: timestamps and counts are natural numbers, so times before 1970 are left out. Values
-- are any type with addition, minimum and maximum that meet the laws of exact arithmetic
-- (`Values`): rounding of sums, NaN and text are left out.
-- In Agg.antt they are any type with the operations of floats, and no laws are asked for. The
-- rollup's clock is rounded as floats are, by Prelude/Double.antt.
-- Texts of topics and names are lists of code points. Loops run over lists, but for three that count
-- with fuel: the walk over months, where the days since 1970 are enough since every month takes
-- some, the digits of a number, where one more than the number is enough, and the distance of floats,
-- where 64 doublings are enough below 2 ^ 117.
--
-- Not modelled: SQLite itself, sockets, threads, files, logging, configuration, the command line,
-- the web gateway but for its rate limit, the service units, and backups. A pass and a write each
-- run as a whole: their interleaving inside a pass is not modelled.
pub mod Prelude
pub mod Dict
pub mod QueryCache
pub mod Partials
pub mod Schema
pub mod Rollup
pub mod Scan
pub mod Query
pub mod Retention
pub mod Fanout
pub mod Agg
pub mod Ratelimit
pub mod Registry
pub mod Series
pub mod Ports
pub mod Ingress
pub mod Sink
pub mod PubSub
pub mod Broker
pub mod Database
pub mod Protocol
pub mod Service
mod Tests

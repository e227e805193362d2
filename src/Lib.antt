-- ===== src/Lib.antt =====
-- libtimeseries is a C library that writes time series: a caller collects values under string keys in
-- a key package and flushes the package, at a time, through every enabled backend. tools/tsk-proxy.c
-- is the consumer of what the Kafka backend produces: it reads batches from Kafka into a key package
-- of its own and flushes that through another backend.
--
-- The files and what they are about:
-- - Base and the modules below it: Boolean tests and lists over native numbers; C strings as lists of
--   bytes without their NUL (Base.Text); the outcome of a call (Base.Result), which returns a value, or
--   stops on a failed assert, on undefined behaviour, or for lack of fuel; network byte order.
-- - Platform: the string map of khash.h and the allocator, as a record of functions and laws.
-- - KeyPackage: lib/timeseries_kp.c, the key package as a record, one function per operation. Below
--   it: Invariant (names, ids and counters agree), Lookup, Values, Marks.
-- - Backend and Timeseries: lib/timeseries_backend.c, lib/timeseries_backend_int.h and lib/timeseries.c. A
--   backend is a record of operations over its state; TIMESERIES_FOREACH_ENABLED_BACKEND is
--   `for_each_enabled`; Timeseries.Backends is about look-ups and timeseries_set_single.
-- - Flush: the operations of lib/timeseries_kp.c that go through the backends. Loop has the rule for
--   the loop, View says what a backend may change of a package, Results is about timeseries_kp_flush.
-- - Getopt: getopt, atoi and the decimal output of printf, as the sources use them.
-- - Ascii: lib/backends/timeseries_backend_ascii.c; Lines and Bulk are about what it writes.
-- - Wire and Kafka: lib/backends/timeseries_backend_kafka.c. Wire has the writers and the hash, Kafka
--   the buffer, SEND_MSG, timeseries_backend_kafka_kp_flush and timeseries_backend_kafka_set_single,
--   over a record of librdkafka; Send, Batches, Loop, Flush and Single lead to what is sent. Setup has
--   parse_args, topic_connect, producer_connect and kafka_connect, Life the init, the release and the
--   record of operations; Arguments, Connect, Backoff, Opened, Ends, Ready and Started are about an
--   init, First about the value set after it and a missing topic prefix, Drained about the release.
-- - Dbats: lib/backends/timeseries_backend_dbats.c, over a record of libdbats. Setup, Snapshots, Keys and
--   Bulk have its functions; Database has what is relied on of the library; Flush, Resolved, Dirty,
--   Batch and Missing are about a flush, the ids of keys, both together, a bulk set, and a missing id.
-- - Proxy: tools/tsk-proxy.c, its static variables as a record. Message has parse_key_value and
--   handle_message; RoundTrip reads what Wire writes; Termination, Ends, Store, Timing, Turn, Handle, Keeps
--   and StatsFlush are about the loop and its end, a pair, a flush, maybe_flush, whole messages and the
--   statistics; Deliver is about the messages of a flush of the Kafka backend. Proxy/Run has
--   the loops of run over the list of what its polls return, Proxy/Setup has init_kafka,
--   init_timeseries and init_stats_timeseries; both are about what is left at the end of a run. Proxy/Config has
--   parse_config_file over the tokens of libyaml, a list, and is_valid_config; Pairs, Keys and Described are
--   about a file of keys with their values.
-- - Strtoull: strtoull and strtoul of the C library. Insert: tools/timeseries-insert.c, its static
--   variables as a record, with errno beside it. Lines, Replay, Package, Pending and Copied are about a
--   line, a file, a point, points of one time, and a whole run on what the ASCII backend writes; Refused
--   is about errno.
-- - Tests: the theorems at concrete inputs.
--
-- Numbers are natural numbers with the wrap-around of the C types written out. Memory that a loop of
-- the sources walks by pointer and remaining length is the list of the remaining bytes. Three loops run
-- on fuel: the one of handle_message, where the length of the message is enough fuel, since each round
-- takes a byte, except at a single last byte, where no fuel is enough; the retries of SEND_MSG, where
-- the fuel is the number of tries that the library is given; and the retries after a deadlock in the
-- DBATS backend, where more fuel than deadlocks to come is enough.
--
-- Not modelled: the options of tools/timeseries-insert.c, and main and the signal handler of
-- tools/tsk-proxy.c; the log output, which changes no state, with the delivery callback of the Kafka
-- backend; wandio, librdkafka, libyaml, libdbats, khash and parse_cmd, which are libraries or git
-- submodules and appear as parameters.
pub mod Base
pub mod Platform
pub mod KeyPackage
pub mod Backend
pub mod Timeseries
pub mod Flush
pub mod Wire
pub mod Getopt
pub mod Strtoull
pub mod Ascii
pub mod Kafka
pub mod Dbats
pub mod Proxy
pub mod Insert
pub mod Tests

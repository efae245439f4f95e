-- ===== src/Lib.antt =====
-- Stream-Pipeline: a verified model of a ride-hailing event pipeline.
--
-- A generator writes ride events, payments and driver positions to Kafka. The sessionizer folds the
-- events of each ride into one session, with a local SQLite store and Kafka transactions; the
-- Postgres sink writes every topic to tables together with its own positions, and the Iceberg sink
-- writes ride events to a lake; messages that cannot be read go to dead-letter topics, from which a
-- script replays them; an exporter reports how far each consumer lags. The parts meet in the
-- broker: what one produces another consumes.
--
-- Which file models which part, as definitions that a reader can compare with the code:
--   Generator/StateMachine      src/generator/state_machine.py: RideStateMachine and its tables
--   Processors/SessionBuilder   src/processors/session_builder.py: RideAccumulator, build_session
--   Processors/StateStore       src/processors/state_store.py: StateStore; a table is the list of
--                               its rows, a method (one SQLite transaction) a function of the store
--   Processors/Sessionizer      src/processors/ride_sessionizer.py: State holds the attributes of
--                               Sessionizer and what the broker keeps, Batch the loop of
--                               process_batch over its messages, Process _collect_closes, _transact
--                               and the whole of process_batch, Recovery on_assign and on_revoke
--   Processors/PgSink           src/processors/pg_sink.py: Rows the row builders, Tables the
--                               statements on tables by primary key, Sink process_batch and the
--                               positions of on_assign, Run its loop over polls
--   Dlq/Envelope, Dlq/Base64    src/dlq/envelope.py, and base64 of the standard library
--   Observability/LagExporter   src/observability/lag_exporter.py
--   Scripts/ReplayDlq           scripts/replay_dlq.py, in Drain drain_dlq, and corrupt_payload of
--                               src/generator/producer.py
--   Scripts/CompactIceberg      scripts/compact_iceberg.py
--   Sinks/IcebergSink           src/sinks/iceberg_sink.py: ingestion and _flush, with the failure of
--                               each of its calls; Run its loop over polls
--   Generator/Config, Events    src/generator/config.py, src/generator/events.py
--   Generator/Rides             src/generator/rides.py: a ride and its plans; Firing _fire and the loop
--                               over due events, Creation _spawn and _create_ride, Ticks _progress
--                               and on_tick; over the interface Generator/Fleet of the calls to the
--                               driver fleet
--   Generator/Cities, Drivers   src/generator/cities.py and src/generator/drivers.py: the calls of the
--                               fleet and, in Movement, its ticks, which fill that interface
--   Generator/Diurnal           src/generator/diurnal.py
--   Generator/Simulate          src/generator/simulate.py, src/generator/clock.py: the loop over ticks;
--                               Build build_simulator, and Drivers/Initial the first drivers
--   Generator/Producer          src/generator/producer.py: KafkaTransport, with the messages in flight
--   Generator/Imperfections     src/generator/imperfections.py: Imperfector
--   Quality/Suites, Runner      src/quality/suites.py, src/quality/runner.py: the expectations as data,
--                               a run with its rows in serving.dq_results, and the exit code
--   Common                      src/common: times, geography, topics; the Avro ride event
-- Each of them has child modules for its theorems, named for what they state. Prelude holds what all
-- share: tests on numbers, lists, Python dicts in insertion order (Prelude/Dict), results that may be
-- an exception (Prelude/Results). Tests runs the programs and applies the theorems.
--
-- A Python exception is a `raise` with its class. A process that dies keeps only its store and the
-- broker: Processors/Sessionizer/Once/Steps is the relation of what can happen to the sessionizer,
-- with a death at each point where the two stores may disagree. Loops run over a list, or on fuel.
-- The due events of one ride have six rounds, because a ride has five events at most. The rides that
-- a tick creates have one round more than the whole part of the carry, of which each takes one. The
-- pings of a driver in a tick have one round more than the milliseconds since the first that is due,
-- because pings are at least a millisecond apart. The definitions raise where this fuel would run
-- out, and the theorems about on_tick are that it does not. The digits of a numeral have the number
-- itself as fuel. A poll loop runs over the list of what the consumer returns, poll by poll.
--
-- Parameters of the model: the deserialisers and serialisers; the tables of PyIceberg; the clock;
-- whether the calls of a producer or of a connection succeed; Great Expectations, as a function from
-- an expectation and the tables to a result; floats, an interface of the operations that the code
-- uses; random.Random, an interface of its draws (Generator/Random), with its seeds and crc32 in
-- Generator/Simulate/Build. What the consumer is relied on for is stated where it is used
-- (IsDelivered: it delivers messages of assigned partitions only, from the committed offset on;
-- IsNext: in the order of their offsets), and so is that a Kafka transaction that raised is aborted.
-- One sessionizer runs at a time, which Kafka sees to by fencing its transactional id.
--
-- Timestamps are epoch milliseconds, and days of the lake are numbered since 1970. Durations of a
-- session stay in milliseconds where the code divides by 1000.0. Offsets are numbers; the sentinel -1
-- and "nothing committed" are `none`.
--
-- Not modelled: the poll loop of the sessionizer, and the timing of the others; logging and metrics;
-- command lines; the JSON text of envelopes; the flush and close of clients; the pacing of the
-- generator; the scripts that reset the platform and register schemas; the configuration of Kafka
-- clients and of schemas; benchmarks and the user interface. They are calls of services and
-- libraries, or text, with little logic of their own.
pub mod Prelude
pub mod Common
pub mod Generator
pub mod Processors
pub mod Dlq
pub mod Observability
pub mod Scripts
pub mod Tests
pub mod Quality
pub mod Sinks

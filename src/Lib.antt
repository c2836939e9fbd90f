-- ===== src/Lib.antt =====
-- remnanode-exporter reads the export streams of a Remnawave panel from Redis, writes their rows to
-- ClickHouse, and keeps dimension tables there in step with the panel's REST API.
--
-- A worker (internal/consumer/consumer.go) serves one stream: it reads entries, has a decoder
-- (internal/consumer/handlers.go) turn each into rows, buffers the rows with the entries' ids, and
-- writes the buffer through the ClickHouse writer (internal/sink/clickhouse.go) before it
-- acknowledges the ids. The decoders parse entries (internal/model/model.go) and enrich addresses
-- (internal/geoip/geoip.go) and User-Agents (internal/ua/ua.go). Beside the workers the Syncer
-- (internal/dict) copies users, nodes, devices and torrent reports, and keeps the set of the
-- panel's own addresses that the connection decoder asks.
--
-- The files, from the bottom up:
-- - Prelude: the library names that all modules share, tests on numbers, lists, results, signed
--   integers. A Go pair of a value and an error is a Result, an int64 or a time.Time is a ℤ.
-- - Strings, Strconv, Netip: what the program uses of Go's packages strings, strconv and net/netip.
--   A text is the list of its code points. netip.ParseAddr and Addr.String are fields of Netip.
-- - Model: the payload types and parsers of internal/model/model.go. Model/Fields, Model/Records,
--   Model/Messages and Model/Connections describe what each parser accepts. time.Parse and
--   json.Unmarshal are the fields of Codec.
-- - Events: the effects on the world, as a log that operations append to, and the readings `stored`
--   and `acks` of a log.
-- - Metrics: the metrics of internal/metrics/metrics.go, and the value of a counter after a log.
--   Metrics/Rows and Metrics/Reads compare counters with what was stored and read.
-- - Config: Load of internal/config/config.go, over the variables of the environment.
--   Config/Spelled says, setting by setting, which variable it is and what its text means;
--   Config/Readers compares the readers of the program with it.
-- - Sink, Sink/Connect: Writer.Insert, and Connect and EnsureDatabase, of
--   internal/sink/clickhouse.go, on each answer of the driver.
-- - Ua, Geoip: internal/ua/ua.go and internal/geoip/geoip.go. Geoip/Hosting is about the hosting
--   flag. Geoip/Rotation has Watch and any number of lookups take their steps in any order.
-- - Panel, Panel/Devices: the JSON objects of the panel and the rows made of them (internal/dict).
-- - Infra: IPSet and nodeAddresses of internal/dict/infra.go; Infra/Nodes says which texts of the
--   panel and of the resolver of names its addresses come from.
-- - Dict, Dict/Types, Dict/Nodes, Dict/Hwid: the Syncer of internal/dict/dict.go and hwid.go;
--   Dict/Paging and Dict/Devices are about its paging loops. Dict/Refresh: syncAll, and Run as a
--   list of ticks; Effects, Rounds and Polled say what each part adds to each table, Failures what
--   one that fails does, Own what becomes of the address set, Tables and Once what a whole Run
--   does. Dict/Version: the two preflight checks.
-- - Dict/Torrent: the report poll of internal/dict/torrent.go; Memory, Fresh and Polls follow what
--   a process remembers of the reports that it stored, Complete and Served what one poll fetches
--   and stores of a list that the panel serves.
-- - Consumer, Consumer/Types: the Worker of internal/consumer/consumer.go, its Run as a list of
--   rounds. What Redis, ClickHouse and the clock answer is part of a round, so that a theorem on
--   every list of rounds is one on every behaviour of them. Consumer/Delivery carries the invariant
--   of the buffer through every operation; its Carries, Restart and Progress are about runs in
--   which ClickHouse and Redis answer without an error, and Crash about such a run behind any
--   other; Stored follows where the stored rows come from. Consumer/Walk carries a relation of
--   states from the steps of a worker to its runs, with the entries that they take in
--   (Consumer/Entries). Consumer/Decoders: internal/consumer/handlers.go, with Flags on the decoder
--   of connections behind a refresh of the nodes.
-- - Schema, Schema/Apply: Split and Apply of internal/schema/schema.go. Schema/Statements says what
--   the statements are like, Schema/Solid what splitting keeps of a file. Schema/Tables: the tables
--   of internal/schema/sql/01_tables.sql as lists of columns; Panel/Fit and Consumer/Decoders/Shape
--   compare rows with them.
-- - Logged: laws of a property of logs that each insert and each other event keeps, and that it
--   then holds of any run of a worker (Logged/Worker), of the Syncer (Logged/Stores, Logged/Syncer)
--   and of the whole process (Logged/Process); Metrics/Rows and Logged/Tables apply it.
-- - Command: waitFor of cmd/remnanode-exporter/main.go, on the list of what its probes answer, and
--   the health check. Command/Startup: run, as the list of what it opens, starts and closes.
-- - Tests: runs at concrete inputs.
--
-- Loops and fuel: recoverOwnPending and Run are recursions on the answers of Redis, since each turn
-- takes one. The loop of syncUsers has fuel 10002 and that of fetchHwidDevices 10002: both end at a
-- page count of 10001 themselves. fetchTorrentReports counts its own 100 pages.
--
-- Numbers: uint64 and uint32 values are written with their modulus, int64 values are ℤ, since the
-- program does not compute with them beyond a conversion; float64 values are a fraction with a
-- power of two, and what Go leaves to the implementation in a conversion is a field of Env.
--
-- Not modelled: what is logged beside the outcomes of the two preflight checks, the registry of
-- metrics and the observed durations, what the HTTP server does beside the health check
-- (Command/Startup only says when it starts and is shut down), TLS and timeouts. What is stored is
-- what Send confirmed: a batch whose Send reports an error is in the log as unconfirmed, since
-- ClickHouse may hold it when only the answer was lost, and the theorems on stored rows do not
-- count it. Of the SQL only the columns of the tables that the exporter writes are modelled. A
-- decoder is one function for the whole run of a worker: the databases and the address set that it
-- asks are those of one moment. Goroutines share the Resolver and the set of own addresses:
-- Geoip/Rotation interleaves the steps of a lookup with those of a reload, the other calls are
-- modelled one at a time. A panic is not modelled: Config/Loaded shows which interval of a ticker
-- is not validated.
pub mod Command
pub mod Config
pub mod Consumer
pub mod Dict
pub mod Events
pub mod Geoip
pub mod Infra
pub mod Logged
pub mod Metrics
pub mod Model
pub mod Netip
pub mod Panel
pub mod Prelude
pub mod Schema
pub mod Sink
pub mod Strconv
pub mod Strings
pub mod Tests
pub mod Ua

-- ===== src/Lib.antt =====
-- A verification library for watch-tower, a log ingestion service written in Go.
--
-- The program. An HTTP handler takes log events as JSON or as NDJSON behind an API key, counts them,
-- and hands each to a use case, which stamps it, redacts personal data in its metadata and buffers
-- it. The buffer is a Redis stream; while Redis cannot be reached, events go to a write-ahead log on
-- disk, and a health check replays that log to the stream and truncates it once Redis answers again.
-- A consumer reads batches from the stream, writes them to a PostgreSQL sink with retries, moves a
-- batch that it cannot write to a dead-letter queue, and acknowledges it. A broker tells browsers the
-- rate of events.
--
-- The conventions. A method that can fail is an `Op S A`, a function from a state to a result and a
-- state; the state comes back beside an error too. What the operating system, the clock, Redis, the
-- database or the encoder answers is an argument: a record `...Env` of the answers, or a record of
-- functions over a state that is a parameter. A method that holds a mutex throughout is one step.
-- Texts are lists of byte values; numbers are natural numbers, and the sizes and counts of the
-- program stay far below 2^63. Log messages are left out.
--
-- The files.
-- - Common and its children hold results and errors, texts, association lists, lemmas on lists.
-- - Scanner is bufio.Scanner with its default buffer, as its documentation describes it: the lines of a
--   text, and the error at a line of 64 KiB.
-- - Domain (internal/domain): LogEvent and the interfaces of the repositories. Domain/Codec is
--   encoding/json at LogEvent, a parameter with two laws: decoding undoes encoding, and an encoded
--   event is one line.
-- - Wal (internal/adapter/repository/wal/wal_repository.go): Wal/Files is the directory, Wal/Segments
--   the state with rotate and openLatestSegment, Wal/Methods the exported methods. Wal/Budget is
--   about the size on disk, Wal/Removal and Wal/Emptied about Truncate, Wal/Newest and Wal/Opened about
--   NewWALRepository on a directory that is there, Wal/Clock about the names of segments, Wal/Torn
--   about a write that is cut short. Wal/Log views the log as a list of lines: Wal/Log/Append, Write,
--   Written and Accept are about writes, Replay about a replay, RoundTrip puts the two together, and
--   LongLine is about lines that do not fit the scanner. Wal/Journal has the life of a log as a
--   relation of steps, each a call of a method or a restart; Wal/Closed, Wal/Dated and Wal/Distinct
--   have what the steps keep of the directory, Wal/Journal/Invariant of the log, and
--   Wal/Journal/Kept puts it together.
-- - Consumer (internal/usecase/process_logs.go); Consumer/Trace observes its calls, with proofs in
--   Settled and Attempts. Consumer/Loop is the loop of cmd/consumer/main.go, with the
--   lemmas on a backlog in Consumer/Loop/Drained.
-- - Redis (internal/adapter/repository/redis/log_repository.go): Client is what the program uses of
--   go-redis, Errors the classification of errors, Buffer the producer with the failover, Batch the
--   consumer's methods and the dead-letter queue, Health the health check, Drain the repository with
--   the modelled WAL behind it, Late what others write to the WAL while it is replayed. Redis/Outage
--   has calls of BufferLog and ticks of the health check as a sequence: Safe says where accepted
--   events are, Buffered that a call keeps them, Pushed what a replay adds to the stream, Recovered
--   that a tick keeps them, Lossless puts it together, and Delivered is about the end of an outage.
--   Redis/Concurrent has the calls and the health check as goroutines, by steps between which others
--   may run: Safe says what a step of a call keeps, with the proof in Called, Patrolled is about the
--   steps of the health check, Restarted about a restart, and Kept puts it together.
-- - Pii (internal/adapter/pii/redactor.go), with the proofs in Pii/Redaction.
-- - ApiKeys (internal/adapter/repository/postgres/apikey_repository.go), with the proofs in
--   ApiKeys/Cache.
-- - Sink (internal/adapter/repository/postgres/log_repository.go): WriteLogBatch over an abstract
--   database; Sink/Trace observes its calls, Sink/Kept is about what its statements keep. Sink/Queue
--   has the methods that make tables a buffer, with the proofs in Sink/Queue/Claimed and
--   Sink/Queue/Buried.
-- - Admin (internal/adapter/repository/redis/admin_repository.go); Domain/Streams is
--   internal/domain/admin.go with the interface of the repository, Admin/UseCase is
--   internal/usecase/admin_stream.go, and Admin/Handlers is
--   internal/adapter/api/handler/admin_handler.go, with the proofs in Admin/Guards. Admin/Router is
--   internal/adapter/api/admin_router.go with the matching of http.ServeMux, with the proofs in Routed
--   and ReadOnly.
-- - Ingest (internal/usecase/ingest_log.go), with the proofs in Ingest/Stored.
-- - Api (internal/adapter/api): Auth is middleware/auth.go, Logging middleware/logging.go, Sse the
--   broker of handler/sse_handler.go and Stream one connection to it, Ingest is
--   handler/ingest_handler.go, Router is router.go, with the proofs in Api/Router/Authorized.
-- - Config is internal/pkg/config/config.go.
-- - Service puts the parts together as the two programs do: Service/Consumer is cmd/consumer/main.go,
--   with the proofs about one batch in Pipeline, a group that Redis serves in Served, and the worker
--   that reads from it in Drained; and Service/Ingest is cmd/ingest/main.go up to the
--   handler of its server and behind its end, with those about a request in Accepted, about a restart
--   in Restart and about a shut-down in Stopped.
-- - LoadTester is tools/load-tester/main.go, with the proofs in LoadTester/Counted.
-- - Tests holds runs at concrete inputs.
--
-- Bounds. The one function on fuel is `digits_from`, which gives the decimal digits of a clock value
-- n with fuel n + 1; Wal/Clock is about that it is enough. The order of segment names is studied for
-- clock values of 19 digits, which are the nanoseconds of the years 2001 to 2286. Loops are recursion
-- on the list they walk over, for the retries on the number of attempts left, and for the loops of
-- goroutines on the ticks or turns that they get. The capacity of the broker's channel is 1000, the
-- scanner's buffer 65536 bytes.
--
-- Not modelled: log messages and the logger; the goroutines around the servers, the timeouts of the
-- servers, and the registration of metrics, since they are wiring and calls of libraries; the headers
-- of a reply; the flags and the printed results of the load tester; the frontend. Goroutines interleave
-- between steps: within a call of BufferLog and a tick of the health check in Redis/Concurrent, where
-- each step is one access to what they share, between the two calls of ReplayWAL in Redis/Late, between
-- the two looks of the key cache, where what others did is an argument, and elsewhere between calls of
-- whole methods. A stop of the machine, at which writes that the operating system holds back are lost,
-- is left out; a stop of the process is a step of Redis/Concurrent.
mod Common
pub mod Scanner
pub mod Domain
pub mod Consumer
pub mod Redis
pub mod Pii
pub mod ApiKeys
pub mod Ingest
pub mod Api
mod Tests
pub mod Wal
pub mod Sink
pub mod Config
pub mod Service
pub mod Admin
pub mod LoadTester

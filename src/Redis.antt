-- ===== src/Redis.antt =====
-- internal/adapter/repository/redis. The client (go-redis) is a parameter, `Client`; `Buffer` has
-- the ingest side of the log repository, `Batch` the consumer's, `Health` the health check.
pub mod Errors
pub mod Client
pub mod Buffer
pub mod Batch
pub mod Health
pub mod Drain
pub mod Late
pub mod Outage
pub mod Concurrent

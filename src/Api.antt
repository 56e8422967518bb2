-- ===== src/Api.antt =====
-- internal/adapter/api: the handlers and the middleware of the ingest service.
pub mod Sse
pub mod Ingest
pub mod Auth
pub mod Stream
pub mod Logging
pub mod Router

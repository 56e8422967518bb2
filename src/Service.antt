-- ===== src/Service.antt =====
-- cmd: the two services, put together from their parts.
pub mod Consumer
pub mod Ingest

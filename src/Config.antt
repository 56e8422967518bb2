-- ===== src/Config.antt =====
-- internal/pkg/config/config.go. Durations are nanoseconds; caarlos0/env, which reads the tags, is a
-- parameter.
use watch_tower.Common.{ℕ, Text, Op, ok, err}

pub record Config : Type 0 where
  pub log_level : Text
  pub max_event_size : ℕ
  pub wal_path : Text
  pub wal_segment_size : ℕ
  pub wal_max_disk_size : ℕ
  pub backpressure_policy : Text
  pub redis_addr : Text
  pub redis_dlq_stream : Text
  pub postgres_url : Text
  pub api_key_cache_ttl : ℕ
  pub pii_redaction_fields : Text
  pub ingest_server_addr : Text
  pub consumer_retry_count : ℕ
  pub consumer_retry_backoff : ℕ

-- Load. An error of godotenv.Load is ignored; `load_file` is what that call does to the environment,
-- and `parse` is env.Parse on it.
unfoldable pub load : {S : Type 0} → (S → S) → Op S Config → Op S Config
load load_file parse s =
    let (r, s1) = parse (load_file s) in elim r [ err e ↦ (err e, s1) | ok cfg ↦ (ok cfg, s1) ]

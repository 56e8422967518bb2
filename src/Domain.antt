-- ===== src/Domain.antt =====
-- internal/domain: the log event and the interfaces of the repositories, each method an `Op` on a
-- state that its implementation chooses. A context is part of that state.
pub mod Codec
pub mod Streams
use watch_tower.Common.{ℕ, Bool, List, Text, Op}

-- internal/domain/log.go. Times are nanoseconds since the epoch.
pub record LogEvent : Type 0 where
  pub id : Text
  pub received_at : ℕ
  pub event_time : ℕ
  pub source : Text
  pub level : Text
  pub message : Text
  pub metadata : Text
  pub raw_event : Text
  pub pii_redacted : Bool
  pub stream_message_id : Text

-- internal/domain/repository.go
pub record LogRepository (S : Type 0) : Type 0 where
  pub buffer_log : LogEvent → Op S Unit
  pub read_log_batch : Text → Text → ℕ → Op S (List LogEvent)
  pub write_log_batch : List LogEvent → Op S Unit
  pub acknowledge_logs : Text → List Text → Op S Unit
  pub move_to_dlq : List LogEvent → Op S Unit

pub record ApiKeyRepository (S : Type 0) : Type 0 where
  pub is_valid : Text → Op S Bool

pub record WalRepository (S : Type 0) : Type 0 where
  pub write : LogEvent → Op S Unit
  pub replay : (LogEvent → Op S Unit) → Op S Unit
  pub truncate : Op S Unit
  pub close : Op S Unit

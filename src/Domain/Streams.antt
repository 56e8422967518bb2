-- ===== src/Domain/Streams.antt =====
-- internal/domain/admin.go, and the interface of stream administration of
-- internal/domain/repository.go.
use watch_tower.Common.{ℕ, List, Text, Op}
use watch_tower.Common.Assoc.{Assoc}
use watch_tower.Common.Int.{ℤ}
use watch_tower.Domain.{LogEvent}

-- redis.XInfoGroup, redis.XInfoConsumer and redis.XPending, of which the fields are read that the
-- domain types have, and those domain types. Counts are not negative; times are nanoseconds.
pub record GroupInfo : Type 0 where
  pub name : Text
  pub consumers : ℕ
  pub pending : ℕ
  pub last_delivered_id : Text

pub record ConsumerInfo (Time : Type 0) : Type 0 where
  pub name : Text
  pub pending : ℕ
  pub idle : Time

pub record PendingSummary : Type 0 where
  pub total : ℕ
  pub first_message_id : Text
  pub last_message_id : Text
  pub consumer_totals : Assoc ℕ

pub record PendingDetail : Type 0 where
  pub id : Text
  pub consumer : Text
  pub idle_time : ℕ
  pub retry_count : ℕ

pub record StreamAdminRepository (S : Type 0) : Type 0 where
  pub get_group_info : Text → Op S (List GroupInfo)
  pub get_consumer_info : Text → Text → Op S (List (ConsumerInfo ℤ))
  pub get_pending_summary : Text → Text → Op S PendingSummary
  pub get_pending_messages : Text → Text → Text → Text → ℤ → Op S (List PendingDetail)
  pub claim_messages : Text → Text → Text → ℤ → List Text → Op S (List LogEvent)
  pub acknowledge_messages : Text → Text → List Text → Op S ℕ
  pub trim_stream : Text → ℤ → Op S ℕ

-- ===== src/Admin.antt =====
-- The administration of streams in Redis: internal/adapter/repository/redis/admin_repository.go.
pub mod UseCase
pub mod Handlers
pub mod Guards
pub mod Router
use watch_tower.Common.{
  ℕ, ◌-◌, ◌*◌, ◌%◌, ◌^◌, List, [], ◌∷◌, map, ltb, if◌then◌else◌, Text, codes, Op, Result, ok, err,
  wrapped, failure, wrap_error, is_empty,
}
use watch_tower.Common.Assoc.{Assoc}
use watch_tower.Common.Int.{ℤ, pos, negsuc, is_nonpos}
use watch_tower.Domain.{LogEvent}
use watch_tower.Domain.Streams.{
  GroupInfo, ConsumerInfo, PendingSummary, PendingDetail, StreamAdminRepository,
}
use watch_tower.Domain.Codec.{Codec}
use watch_tower.Redis.Client.{Message}
use watch_tower.Redis.Batch.{decode_messages}

-- redis.XPendingExtArgs
pub record XPendingArgs : Type 0 where
  pub stream : Text
  pub group : Text
  pub start : Text
  pub end : Text
  pub count : ℤ
  pub consumer : Text

-- redis.XClaimArgs
pub record XClaimArgs : Type 0 where
  pub stream : Text
  pub group : Text
  pub consumer : Text
  pub min_idle : ℤ
  pub messages : List Text

-- What the repository uses of the client.
pub record AdminClient (S : Type 0) : Type 0 where
  pub x_info_groups : Text → Op S (List GroupInfo)
  pub x_info_consumers : Text → Text → Op S (List (ConsumerInfo ℕ))
  pub x_pending : Text → Text → Op S PendingSummary
  pub x_pending_ext : XPendingArgs → Op S (List PendingDetail)
  pub x_claim : XClaimArgs → Op S (List Message)
  pub x_ack : Text → Text → List Text → Op S ℕ
  pub x_trim_max_len : Text → ℤ → Op S ℕ

-- A product of type int64, from a product of numbers that are not negative.
unfoldable pub to_int64 : ℕ → ℤ
to_int64 n = let r = n % 2 ^ 64 in if ltb r (2 ^ 63) then pos r else negsuc (2 ^ 64 - 1 - r)

-- time.Duration(c.Idle) * time.Millisecond
abbrev pub scale_idle : ConsumerInfo ℕ → ConsumerInfo ℤ
scale_idle c = record { name = c.name; pending = c.pending; idle = to_int64 (c.idle * 10 ^ 6) }

abbrev pub map_result : {S A B : Type 0} → (A → B) → Result A × S → Result B × S
map_result f (ok a, s) = (ok (f a), s)
map_result f (err e, s) = (err e, s)

abbrev pub in_context : {S A : Type 0} → Text → Result A × S → Result A × S
in_context m (r, s) = (wrap_error m r, s)

module _ {S : Type 0} (client : AdminClient S) (codec : Codec) where
  -- The names in the messages of errors are left out here and below.
  unfoldable pub get_group_info : Text → Op S (List GroupInfo)
  get_group_info stream s =
      in_context (codes "failed to get group info: ") (client.x_info_groups stream s)

  unfoldable pub get_consumer_info : Text → Text → Op S (List (ConsumerInfo ℤ))
  get_consumer_info stream group s =
      map_result (map scale_idle) (
        in_context (codes "failed to get consumer info: ") (client.x_info_consumers stream group s))

  unfoldable pub get_pending_summary : Text → Text → Op S PendingSummary
  get_pending_summary stream group s =
      in_context (codes "failed to get pending summary: ") (client.x_pending stream group s)

  abbrev pub pending_args : Text → Text → Text → Text → ℤ → XPendingArgs
  pending_args stream group consumer start count = record {
    stream = stream;
    group = group;
    start = start;
    end = codes "+";
    count = count;
    consumer = consumer;
  }

  -- The repository's method.
  unfoldable pub pending_details : Text → Text → Text → Text → ℤ → Op S (List PendingDetail)
  pending_details stream group consumer start_id count s =
      in_context (codes "failed to get pending messages: ")
        (client.x_pending_ext (pending_args stream group consumer start_id count) s)

  -- The loop over the claimed messages is that of ReadLogBatch, with the key "data".
  unfoldable pub claim_messages : XClaimArgs → Op S (List LogEvent)
  claim_messages args s =
      map_result (decode_messages codec (codes "data"))
        (in_context (codes "failed to claim messages: ") (client.x_claim args s))

  unfoldable pub acknowledge_messages : Text → Text → List Text → Op S ℕ
  acknowledge_messages stream group ids s =
      if is_empty ids
      then (err (failure (codes "at least one message ID is required")), s)
      else client.x_ack stream group ids s

  unfoldable pub trim_stream : Text → ℤ → Op S ℕ
  trim_stream stream max_len s = client.x_trim_max_len stream max_len s

  -- The repository that NewAdminRepository returns.
  abbrev pub admin_repository : StreamAdminRepository S
  admin_repository = record {
    get_group_info = get_group_info;
    get_consumer_info = get_consumer_info;
    get_pending_summary = get_pending_summary;
    get_pending_messages = pending_details;
    claim_messages = λ stream group consumer min_idle ids. claim_messages (record {
      stream = stream;
      group = group;
      consumer = consumer;
      min_idle = min_idle;
      messages = ids;
    });
    acknowledge_messages = acknowledge_messages;
    trim_stream = trim_stream;
  }

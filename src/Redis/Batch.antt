-- ===== src/Redis/Batch.antt =====
-- The consumer's side of the log repository: reading, acknowledging and the dead-letter queue
-- (internal/adapter/repository/redis/log_repository.go).
pub mod RoundTrip
use watch_tower.Common.{
  ℕ, ◌*◌, ◌^◌, Option, none, some, List, [], ◌∷◌, if◌then◌else◌, Text, codes, Op, Done, Result,
  Error, ok, err, wrapped, not_implemented, wrap_error, is_empty,
}
use watch_tower.Common.Assoc.{Assoc, lookup}
use watch_tower.Domain.{LogEvent}
use watch_tower.Domain.Codec.{Codec}
use watch_tower.Redis.Errors.{is_redis_nil}
use watch_tower.Redis.Client.{Value, str, other, Message, Stream, XAddArgs, XReadGroupArgs}
use watch_tower.Redis.Buffer.{Repository, log_stream_key}

-- msg.Values[key].(string)
unfoldable pub text_value : Text → Message → Option Text
unfolding lookup
text_value key msg = elim (lookup key msg.values) [
  | none ↦ none
  | some (str t) ↦ some t
  | some other ↦ none
]

-- One round of the loop of ReadLogBatch: a message of another format is skipped.
unfoldable pub decode_message : Codec → Text → Message → Option LogEvent
unfolding text_value
decode_message codec key msg = elim (text_value key msg) [
  | none ↦ none
  | some payload ↦ elim (codec.unmarshal payload) [
    | err _ ↦ none
    | ok event ↦ some (record event { stream_message_id = msg.id })
  ]
]

abbrev pub prepend : Option LogEvent → List LogEvent → List LogEvent
prepend none es = es
prepend (some e) es = e ∷ es

unfoldable pub decode_messages : Codec → Text → List Message → List LogEvent
unfolding decode_message
decode_messages codec key [] = []
decode_messages codec key (m ∷ ms) =
    prepend (decode_message codec key m) (decode_messages codec key ms)

abbrev pub read_args : Text → Text → ℕ → XReadGroupArgs
read_args group consumer count = record {
  group = group;
  consumer = consumer;
  stream = log_stream_key;
  start = codes ">";
  count = count;
  block = 2 * 10 ^ 9;
}

module _ {S : Type 0} (r : Repository S) where
  -- The messages of the first stream of the reply.
  unfoldable pub events_of : List Stream → List LogEvent
  unfolding decode_messages
  events_of [] = []
  events_of (stream ∷ _) = decode_messages r.codec (codes "payload") stream.messages

  unfoldable pub read_log_batch : Text → Text → ℕ → Op S (List LogEvent)
  unfolding events_of is_redis_nil
  read_log_batch group consumer count s =
      let (b, s1) = r.client.x_read_group (read_args group consumer count) s in
      elim b [
        | err e ↦
            if is_redis_nil e
            then (ok [], s1)
            else (err (wrapped (codes "failed to XREADGROUP from redis: ") e), s1)
        | ok streams ↦ (ok (events_of streams), s1)
      ]

  unfoldable pub acknowledge_logs : Text → List Text → Op S Unit
  acknowledge_logs group ids s =
      if is_empty ids
      then (ok tt, s)
      else (let (a, s1) = r.client.x_ack log_stream_key group ids s in
          elim a [
            | err e ↦ (err (wrapped (codes "failed to XACK messages in redis: ") e), s1)
            | ok _ ↦ (ok tt, s1)
          ])

  abbrev pub dlq_entry : LogEvent → Text → XAddArgs
  dlq_entry event payload = record {
    stream = r.dlq_stream_key;
    values =
        (codes "payload", payload)
        ∷ (codes "original_event_id", event.id)
        ∷ (codes "original_stream", log_stream_key)
        ∷ [];
  }

  -- The commands that the loop queues: an event that cannot be encoded is left out.
  unfoldable pub dlq_entries : List LogEvent → List XAddArgs
  dlq_entries [] = []
  dlq_entries (event ∷ events) = elim (r.codec.marshal event) [
    | err _ ↦ dlq_entries events
    | ok payload ↦ dlq_entry event payload ∷ dlq_entries events
  ]

  unfoldable pub move_to_dlq : List LogEvent → Op S Unit
  unfolding dlq_entries
  move_to_dlq events s =
      if is_empty events
      then (ok tt, s)
      else (let (e, s1) = r.client.pipeline (dlq_entries events) s in
          (wrap_error (codes "failed to execute DLQ pipeline: ") e, s1))

  unfoldable pub write_log_batch : List LogEvent → Op S Unit
  write_log_batch events s = (err not_implemented, s)

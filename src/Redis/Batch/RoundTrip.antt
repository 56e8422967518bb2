-- ===== src/Redis/Batch/RoundTrip.antt =====
-- What `bufferLogToRedis` wrote, `ReadLogBatch` reads
-- (internal/adapter/repository/redis/log_repository.go).
use mathlib.Core.Path.{ap₂}
use watch_tower.Common.{
  some, none, ℕ, ◌≡◌, refl, ap, inl, inr, List, [], ◌∷◌, ◌++◌, map, arith, All, Text, codes,
  text_eq, ok, false, Result-cases,
}
use watch_tower.Common.Assoc.{Assoc, lookup}
use watch_tower.Domain.{LogEvent}
use watch_tower.Domain.Codec.{Codec, CodecLaws}
use watch_tower.Redis.Client.{Value, str, Message, Stream, XAddArgs}
use watch_tower.Redis.Buffer.{Repository, log_stream_key, log_entry, buffer_log_to_redis}
use watch_tower.Redis.Batch.{
  prepend, decode_message, decode_messages, read_args, events_of, read_log_batch,
}

-- A repository whose client takes each entry that it is told to add, and keeps them in order.
abbrev pub recorder : Codec → Repository (List XAddArgs)
recorder codec = record {
  client = record {
    x_group_create_mk_stream = λ _ _ _ s. (ok tt, s);
    ping = λ s. (ok tt, s);
    x_add = λ entry s. (ok tt, s ++ entry ∷ []);
    x_read_group = λ _ s. (ok [], s);
    x_ack = λ _ _ _ s. (ok 0, s);
    pipeline = λ _ s. (ok tt, s);
  };
  codec = codec;
  wal = none;
  dlq_stream_key = codes "log_events_dlq";
  has_metrics = false;
}

-- An event, with the entry that `bufferLogToRedis` adds for it and the id that the entry was given.
pub record Published (codec : Codec) : Type 0 where
  pub event : LogEvent
  pub entry : XAddArgs
  pub message_id : Text
  pub sent : buffer_log_to_redis (recorder codec) event [] ≡ (ok tt, entry ∷ [])

-- A stream yields the values of an entry as strings.
pub values_of : List (Text × Text) → Assoc Value
values_of [] = []
values_of ((k, v) ∷ vs) = (k, str v) ∷ values_of vs

module _ {codec : Codec} where
  -- The message of a stream to which the entry was added.
  abbrev pub message_of : Published codec → Message
  message_of p = record { id = p.message_id; values = values_of p.entry.values }

  -- The event as a consumer sees it.
  abbrev pub received : Published codec → LogEvent
  received p = record (codec.wire p.event) { stream_message_id = p.message_id }

-- What the producer adds is the log entry of the encoded event.
sent-log_entry :
    (codec : Codec) (p : Published codec)
    → (payload : Text) × (codec.marshal p.event ≡ ok payload) × (p.entry ≡ log_entry payload)
unfolding buffer_log_to_redis
sent-log_entry codec p = elim (Result-cases (codec.marshal p.event)) [
  | inr (e, refused) ↦ let s = p.sent in absurd (ground arith)
  | inl (payload, encoded) ↦ let s = p.sent in (payload, encoded, ground arith)
]

decode_message_of :
    (codec : Codec) (laws : CodecLaws codec) (p : Published codec)
    → decode_message codec (codes "payload") (message_of p) ≡ some (received p)
unfolding decode_message lookup text_eq values_of
decode_message_of codec laws p =
    let (payload, encoded, same) = sent-log_entry codec p in
    let values = ap (λ a. values_of a.values) same in
    ground (arith, values, laws.round_trip p.event payload encoded)

decode_messages_of :
    (codec : Codec) (laws : CodecLaws codec) (ps : List (Published codec))
    → decode_messages codec (codes "payload") (map message_of ps) ≡ map received ps
unfolding decode_messages
decode_messages_of codec laws [] = refl
decode_messages_of codec laws (p ∷ ps) =
    ap₂ prepend (decode_message_of codec laws p) (decode_messages_of codec laws ps)

sent_to_log_stream :
    (codec : Codec) (ps : List (Published codec)) → All (λ p. p.entry.stream ≡ log_stream_key) ps
sent_to_log_stream codec [] = tt
sent_to_log_stream codec (p ∷ ps) =
    let (payload, encoded, same) = sent-log_entry codec p in
    (ap (λ a. a.stream) same, sent_to_log_stream codec ps)

module _ {S : Type 0} (r : Repository S) (laws : CodecLaws r.codec) where
  -- If the encoder meets its laws, and the client hands a consumer group messages with the entries
  -- that `bufferLogToRedis` adds for some events, then `ReadLogBatch` returns exactly these events as
  -- they are decoded, in order, each with the id of its message; and the stream that it reads is the
  -- one to which the entries were added.
  pub read_log_batch-received :
      (group consumer name : Text) (count : ℕ) (s : S) (ps : List (Published r.codec))
      (rest : List Stream)
      → (r.client.x_read_group (read_args group consumer count) s).0
        ≡ ok (record { name = name; messages = map message_of ps } ∷ rest)
      → ((read_log_batch r group consumer count s).0 ≡ ok (map received ps))
        × All (λ p. p.entry.stream ≡ (read_args group consumer count).stream) ps
  unfolding read_log_batch events_of
  read_log_batch-received group consumer name count s ps rest reply =
      (ground (arith, decode_messages_of r.codec laws ps), sent_to_log_stream r.codec ps)

-- A message with an entry of `bufferLogToRedis` holds no event under the key "data".
decode_message_data :
    (codec : Codec) (p : Published codec)
    → decode_message codec (codes "data") (message_of p) ≡ none
unfolding decode_message lookup text_eq values_of
decode_message_data codec p =
    let (payload, encoded, same) = sent-log_entry codec p in
    let values = ap (λ a. values_of a.values) same in ground (arith, values)

pub decode_messages_data :
    (codec : Codec) (ps : List (Published codec))
    → decode_messages codec (codes "data") (map message_of ps) ≡ []
unfolding decode_messages
decode_messages_data codec [] = refl
decode_messages_data codec (p ∷ ps) =
    ap₂ prepend (decode_message_data codec p) (decode_messages_data codec ps)

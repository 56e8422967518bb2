-- ===== src/Service/Consumer/Pipeline.antt =====
-- From the stream to the table: one batch through the worker's parts (cmd/consumer/main.go).
use watch_tower.Common.{
  ℕ, zero, suc, ◌<◌, ◌≡◌, refl, ap, ◌∙◌, List, [], ◌∷◌, map, arith, length, Text, Done, ok,
}
use watch_tower.Domain.{LogEvent}
use watch_tower.Domain.Codec.{CodecLaws}
use watch_tower.Config.{Config}
use watch_tower.Redis.Client.{Stream}
use watch_tower.Redis.Buffer.{Shared, log_stream_key}
use watch_tower.Redis.Batch.{read_args, acknowledge_logs}
use watch_tower.Redis.Batch
use watch_tower.Redis.Batch.RoundTrip.{Published, message_of, received, read_log_batch-received}
use watch_tower.Sink
use watch_tower.Consumer.{
  ProcessLogs, process_batch, settle, write_with_retry, attempts, after_write, acknowledge,
  default_batch_size, message_ids,
}
use watch_tower.Service.Consumer.{Libraries, consumer_group, redis_repository, process_logs}

pub message_ids-received :
    {S : Type 0} (lib : Libraries S) (ps : List (Published lib.codec))
    → message_ids (map received ps) ≡ map (λ p. p.message_id) ps
message_ids-received lib [] = refl
message_ids-received lib (p ∷ ps) = ap (◌∷◌ p.message_id) (message_ids-received lib ps)

pub length-received :
    {S : Type 0} (lib : Libraries S) (ps : List (Published lib.codec))
    → length (map received ps) ≡ length ps
length-received lib [] = refl
length-received lib (p ∷ ps) = ap suc (length-received lib ps)

module _ {S : Type 0} (u : ProcessLogs S) where
  first_attempt :
      (es : List LogEvent) (n i : ℕ) (last : Done) (s s' : S)
      → 0 < n
      → u.sink_repo.write_log_batch es s ≡ (ok tt, s')
      → attempts u es n i last s ≡ (ok tt, s')
  unfolding attempts
  first_attempt es zero i last s s' positive written = absurd (omega arith)
  first_attempt es (suc n) i last s s' positive written = ground (arith, written)

  -- A batch in which every call succeeds at once.
  process_batch_straight :
      (e : LogEvent) (es : List LogEvent) (s s1 s2 s3 : S)
      → 0 < u.retry_count
      → u.buffer_repo.read_log_batch u.group u.consumer default_batch_size s ≡ (ok (e ∷ es), s1)
      → u.sink_repo.write_log_batch (e ∷ es) s1 ≡ (ok tt, s2)
      → u.buffer_repo.acknowledge_logs u.group (message_ids (e ∷ es)) s2 ≡ (ok tt, s3)
      → process_batch u s ≡ (ok (length (e ∷ es)), s3)
  unfolding process_batch settle write_with_retry after_write acknowledge
  process_batch_straight e es s s1 s2 s3 positive read written acked =
      let w = first_attempt (e ∷ es) u.retry_count 0 (ok tt) s1 s2 positive written in
      ground (arith, read, w, acked)

module _ {S : Type 0} (lib : Libraries S) (laws : CodecLaws lib.codec) (cfg : Config)
    (name : Text) where
  -- The read of messages that were published.
  read_published :
      (st : Shared S) (s1 : S) (key : Text) (ps : List (Published lib.codec)) (rest : List Stream)
      → (lib.connect cfg.redis_addr).x_read_group
          (read_args consumer_group name default_batch_size)
          st.world
        ≡ (ok (record { name = key; messages = map message_of ps } ∷ rest), s1)
      → Batch.read_log_batch
          (redis_repository lib cfg)
          consumer_group
          name
          default_batch_size
          st.world
        ≡ (ok (map received ps), s1)
  unfolding Batch.read_log_batch
  read_published st s1 key ps rest reply =
      let got =
        read_log_batch-received (redis_repository lib cfg) laws consumer_group name key
          default_batch_size st.world ps rest (ap (λ q. q.0) reply) in
      let read = got.0 in ground (arith, read)

  -- If at least one attempt is configured, the client hands over a batch of messages that were
  -- published, the database imports their events, as they are decoded, and Redis takes the
  -- acknowledgement of exactly their ids, then `ProcessBatch` of the worker ends in the state behind
  -- these three calls, and returns the number of the messages.
  pub process_batch_moves :
      (st : Shared S) (s1 s2 s3 : S) (key : Text) (p : Published lib.codec)
      (ps : List (Published lib.codec)) (rest : List Stream) (count : ℕ)
      → 0 < cfg.consumer_retry_count
      → (lib.connect cfg.redis_addr).x_read_group
          (read_args consumer_group name default_batch_size)
          st.world
        ≡ (ok (record { name = key; messages = map message_of (p ∷ ps) } ∷ rest), s1)
      → Sink.write_log_batch lib.db (map received (p ∷ ps)) s1 ≡ (ok tt, s2)
      → (lib.connect cfg.redis_addr).x_ack log_stream_key consumer_group
          (map (λ q. q.message_id) (p ∷ ps))
          s2
        ≡ (ok count, s3)
      → process_batch (process_logs lib cfg name) st
        ≡ (ok (length (p ∷ ps)), record st { world = s3 })
  unfolding acknowledge_logs
  process_batch_moves st s1 s2 s3 key p ps rest count positive reply written acked =
      let es = map received (p ∷ ps) in
      let read = read_published st s1 key (p ∷ ps) rest reply in
      let ids = message_ids-received lib (p ∷ ps) in
      process_batch_straight (process_logs lib cfg name) (received p) (map received ps) st
        (record st { world = s1 }) (record st { world = s2 }) (record st { world = s3 }) positive
        (ap (λ q. (q.0, record st { world = q.1 })) read)
        (ap (λ q. (q.0, record st { world = q.1 })) written) (ground (arith, ids, acked))
      ∙ ap (λ n. (ok n, record st { world = s3 })) (length-received lib (p ∷ ps))

-- ===== src/Tests/ServiceTests.antt =====
-- The theorems about the worker, its tables and the ingest server at small inputs.
use watch_tower.Common.{ℕ, suc, ◌≡◌, refl, true, false, [], ◌∷◌, arith, codes, ok}
use watch_tower.Domain.{LogEvent}
use watch_tower.Config.{Config}
use watch_tower.Redis.Client.{Client}
use watch_tower.Redis.Buffer.{Shared}
use watch_tower.Redis.Batch.RoundTrip.{message_of}
use watch_tower.Sink.{Db, write_log_batch, import_batch, copy_and_merge, copy_rows, merge}
use watch_tower.Sink.Queue.Buried.{IsBuried, move_to_dlq-IsBuried}
use watch_tower.Sink.Queue.{move_to_dlq, QueueDb, read_log_batch, claim_rows, mark_rows, collect}
use watch_tower.Sink.Queue.Claimed.{began, watch_queue, IsClaimed, read_log_batch-IsClaimed}
use watch_tower.Consumer.{process_batch}
use watch_tower.Service.Consumer.{Libraries, process_logs}
use watch_tower.Service.Consumer.Pipeline.{process_batch_moves}
use watch_tower.Tests.Data.{with_message, published, shift_codec, shift_laws}

abbrev hello : LogEvent
hello = record (with_message (codes "hi")) { stream_message_id = codes "1-0" }

-- Tables with one row, which take every statement.
abbrev tables : QueueDb ℕ
tables = record {
  insert_buffer = λ _ s. (ok tt, suc s);
  select_buffer = λ _ _ s. (
    ok (record {
      scanned =
          ok (record {
            event_id = codes "a";
            received_at = 1;
            event_time = 2;
            source = codes "b";
            level = codes "c";
            message = codes "d";
            metadata = codes "e";
          })
          ∷ [];
      end = ok tt;
    }),
    suc s,
  );
  acknowledge = λ _ _ s. (ok tt, suc s);
  begin_tx = λ s. (ok tt, suc s);
  mark = λ _ _ s. (ok tt, suc s);
  insert_dead = λ _ s. (ok tt, suc s);
  delete = λ _ s. (ok tt, suc s);
  commit = λ s. (ok tt, suc s);
  rollback = λ s. (ok tt, suc s);
}

read_log_batch-IsClaimed_example :
    IsClaimed tables
      (codes "g")
      []
      (read_log_batch (watch_queue tables) (codes "g") (codes "c") 10 (0, []))
read_log_batch-IsClaimed_example = read_log_batch-IsClaimed tables (codes "g") (codes "c") 10 0 []

move_to_dlq-IsBuried_example :
    IsBuried tables
      (hello ∷ [])
      (began (ok tt) ∷ [])
      []
      (move_to_dlq (watch_queue tables) (hello ∷ []) (0, []))
move_to_dlq-IsBuried_example = move_to_dlq-IsBuried tables hello [] 0 []

one_claim : (read_log_batch tables (codes "g") (codes "c") 10 0).1 ≡ 4
unfolding read_log_batch claim_rows mark_rows collect
one_claim = refl

-- A message of the stream, a client that hands it over, and a database and a group that take
-- everything. The state counts the statements.
abbrev client : Client ℕ
client = record {
  x_group_create_mk_stream = λ _ _ _ s. (ok tt, s);
  ping = λ s. (ok tt, s);
  x_add = λ _ s. (ok tt, suc s);
  x_read_group = λ _ s.
      (ok (record { name = codes "log_events"; messages = message_of published ∷ [] } ∷ []), suc s);
  x_ack = λ _ _ _ s. (ok 1, suc s);
  pipeline = λ _ s. (ok tt, suc s);
}

abbrev database : Db ℕ
database = record {
  begin_tx = λ s. (ok tt, suc s);
  create_temp = λ _ s. (ok tt, suc s);
  prepare_copy = λ _ s. (ok tt, suc s);
  copy_row = λ _ s. (ok tt, suc s);
  close = λ s. (ok tt, suc s);
  upsert = λ _ s. (ok tt, suc s);
  commit = λ s. (ok tt, suc s);
  rollback = λ s. (ok tt, suc s);
}

abbrev pub config : Config
config = record {
  log_level = codes "info";
  max_event_size = 1048576;
  wal_path = codes "./wal";
  wal_segment_size = 104857600;
  wal_max_disk_size = 1073741824;
  backpressure_policy = codes "block";
  redis_addr = codes "localhost:6379";
  redis_dlq_stream = codes "log_events_dlq";
  postgres_url = codes "postgres";
  api_key_cache_ttl = 300000000000;
  pii_redaction_fields = codes "email";
  ingest_server_addr = codes ":8080";
  consumer_retry_count = 3;
  consumer_retry_backoff = 1000000000;
}

abbrev libraries : Libraries ℕ
libraries = record {
  load_file = λ s. s;
  parse = λ s. (ok config, s);
  hostname = λ s. (codes "host", s);
  new_id = λ s. (codes "0123456789", s);
  open_db = λ _ s. (ok tt, s);
  db = database;
  queue = tables;
  connect = λ _. client;
  codec = shift_codec;
  ctx_err = λ s. (ok tt, s);
  wait = λ _ s. (ok tt, s);
}

abbrev at_work : Shared ℕ
at_work = record { is_available = true; wal_active = false; world = 0 }

imported : write_log_batch database (hello ∷ []) 1 ≡ (ok tt, 9)
unfolding write_log_batch import_batch copy_and_merge copy_rows merge
imported = refl

process_batch_moves_example :
    process_batch (process_logs libraries config (codes "host-01234567")) at_work
    ≡ (ok 1, record at_work { world = 10 })
process_batch_moves_example =
    process_batch_moves libraries shift_laws config (codes "host-01234567") at_work 1 9 10
      (codes "log_events") published [] [] 1 (omega arith) refl imported refl

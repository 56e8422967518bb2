-- ===== src/Tests/DrainedTests.antt =====
-- The worker with a group of two messages, at a Redis that answers and a database that refuses rows.
use watch_tower.Common.{
  ℕ, ◌≡◌, refl, Bool, true, false, List, [], ◌∷◌, ◌++◌, arith, length, take, Text, codes, Op, ok,
  err, failure, redis_closed, if◌then◌else◌,
}
use watch_tower.Redis.Client.{Client, XAddArgs}
use watch_tower.Redis.Buffer.{Shared, log_stream_key}
use watch_tower.Redis.Batch.{read_args}
use watch_tower.Redis.Batch.RoundTrip.{Published}
use watch_tower.Sink.{Db}
use watch_tower.Sink.Queue.{QueueDb}
use watch_tower.Consumer.Loop.{work}
use watch_tower.Consumer.Loop.Drained.{drop, ticks}
use watch_tower.Service.Consumer.{Libraries, consumer_group, process_logs}
use watch_tower.Service.Consumer.Served.{reply_of, Served}
use watch_tower.Service.Consumer.Drained.{work-drains}
use watch_tower.Tests.Data.{published, shift_codec, shift_laws}
use watch_tower.Tests.ServiceTests.{config}

-- Whether Redis answers, the messages of the group that are not delivered yet, and the ids that were
-- acknowledged.
abbrev Redis : Type 0
Redis = Bool × List (Published shift_codec) × List Text

abbrev if_up : {A : Type 0} → Op Redis A → Op Redis A
if_up m s = if s.0 then m s else (err redis_closed, s)

abbrev client : Client Redis
client = record {
  x_group_create_mk_stream = λ _ _ _. if_up (λ s. (ok tt, s));
  ping = if_up (λ s. (ok tt, s));
  x_add = λ _. if_up (λ s. (ok tt, s));
  x_read_group = λ a. if_up (λ s. (reply_of (take a.count s.1), (s.0, drop a.count s.1, s.2)));
  x_ack = λ _ _ ids. if_up (λ s. (ok (length ids), (s.0, s.1, s.2 ++ ids)));
  pipeline = λ _. if_up (λ s. (ok tt, s));
}

abbrev database : Db Redis
database = record {
  begin_tx = λ s. (ok tt, s);
  create_temp = λ _ s. (ok tt, s);
  prepare_copy = λ _ s. (ok tt, s);
  copy_row = λ _ s. (err (failure (codes "disk full")), s);
  close = λ s. (ok tt, s);
  upsert = λ _ s. (ok tt, s);
  commit = λ s. (ok tt, s);
  rollback = λ s. (ok tt, s);
}

abbrev tables : QueueDb Redis
tables = record {
  insert_buffer = λ _ s. (ok tt, s);
  select_buffer = λ _ _ s. (ok (record { scanned = []; end = ok tt }), s);
  acknowledge = λ _ _ s. (ok tt, s);
  begin_tx = λ s. (ok tt, s);
  mark = λ _ _ s. (ok tt, s);
  insert_dead = λ _ s. (ok tt, s);
  delete = λ _ s. (ok tt, s);
  commit = λ s. (ok tt, s);
  rollback = λ s. (ok tt, s);
}

abbrev libraries : Libraries Redis
libraries = record {
  load_file = λ s. s;
  parse = λ s. (ok config, s);
  hostname = λ s. (codes "host", s);
  new_id = λ s. (codes "0123456789", s);
  open_db = λ _ s. (ok tt, s);
  db = database;
  queue = tables;
  connect = λ _. client;
  codec = shift_codec;
  ctx_err = λ s. (ok tt, s);
  wait = λ _ s. (ok tt, s);
}

abbrev worker : Text
worker = codes "host-01234567"

group_reads :
    (n : ℕ) (s : Redis)
    → s.0 ≡ true
    → ((client.x_read_group (read_args consumer_group worker n) s).0 ≡ reply_of (take n s.1))
      × ((client.x_read_group (read_args consumer_group worker n) s).1.0 ≡ true)
      × ((client.x_read_group (read_args consumer_group worker n) s).1.1 ≡ drop n s.1)
      × ((client.x_read_group (read_args consumer_group worker n) s).1.2 ≡ s.2)
group_reads n (true, ps, ids) up = (refl, refl, refl, refl)
group_reads n (false, ps, ids) up = absurd (ground arith)

group_acks :
    (new : List Text) (s : Redis)
    → s.0 ≡ true
    → ((count : ℕ) × ((client.x_ack log_stream_key consumer_group new s).0 ≡ ok count))
      × ((client.x_ack log_stream_key consumer_group new s).1.0 ≡ true)
      × ((client.x_ack log_stream_key consumer_group new s).1.1 ≡ s.1)
      × ((client.x_ack log_stream_key consumer_group new s).1.2 ≡ s.2 ++ new)
group_acks new (true, ps, ids) up = ((length new, refl), refl, refl, refl)
group_acks new (false, ps, ids) up = absurd (ground arith)

group_pipelines :
    (entries : List XAddArgs) (s : Redis)
    → s.0 ≡ true
    → ((client.pipeline entries s).0 ≡ ok tt)
      × ((client.pipeline entries s).1.0 ≡ true)
      × ((client.pipeline entries s).1.1 ≡ s.1)
      × ((client.pipeline entries s).1.2 ≡ s.2)
group_pipelines entries (true, ps, ids) up = (refl, refl, refl, refl)
group_pipelines entries (false, ps, ids) up = absurd (ground arith)

abbrev group : Served libraries config worker
group = record {
  is_up = λ s. s.0 ≡ true;
  backlog = λ s. s.1;
  acked = λ s. s.2;
  reads = group_reads;
  acks = group_acks;
  pipelines = group_pipelines;
  imports = λ ps ids. record {
    begin_tx = λ s h. h;
    create_temp = λ t s h. h;
    prepare_copy = λ t s h. h;
    copy_row = λ r s h. h;
    close = λ s h. h;
    upsert = λ t s h. h;
    commit = λ s h. h;
    rollback = λ s h. h;
  };
  asks = λ s up. (up, refl, refl);
  waits = λ d s up. (up, refl, refl);
}

-- The same event again, in a message of its own.
abbrev another : Published shift_codec
another = record published { message_id = codes "2-0" }

abbrev begun : Shared Redis
begun = record {
  is_available = true;
  wal_active = false;
  world = (true, published ∷ another ∷ [], []);
}

work-drains_example :
    ((work (process_logs libraries config worker) (ticks 1) begun).1.world.1 ≡ [])
    × ((work (process_logs libraries config worker) (ticks 1) begun).1.world.2
        ≡ [] ++ codes "1-0" ∷ codes "2-0" ∷ [])
work-drains_example =
    work-drains libraries shift_laws config worker group 1 begun refl (omega arith)

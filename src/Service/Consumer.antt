-- ===== src/Service/Consumer.antt =====
-- cmd/consumer/main.go: the worker from its configuration to its end. The client, the database, the
-- context and the clock act on one world.
pub mod Pipeline
pub mod Served
pub mod Drained
use watch_tower.Common.{
  ℕ, Bool, true, false, Option, none, List, ◌++◌, if◌then◌else◌, Text, codes, Op, Error, ok, err,
  take,
}
use watch_tower.Domain.{LogRepository}
use watch_tower.Domain.Codec.{Codec}
use watch_tower.Config.{Config, load}
use watch_tower.Redis.Client.{Client}
use watch_tower.Redis.Buffer.{Repository, Shared, in_world, buffer_log, new_log_repository}
use watch_tower.Redis.Batch
use watch_tower.Sink.{Db}
use watch_tower.Sink.Queue
use watch_tower.Sink.Queue.{QueueDb}
use watch_tower.Consumer.{ProcessLogs}
use watch_tower.Consumer.Loop.{Turn, work}

abbrev pub consumer_group : Text
consumer_group = codes "log-processors"

-- The world as main sees it: what its calls of libraries do. `parse` is env.Parse, `open_db` is
-- sql.Open, and `connect` is redis.NewClient with the address as it is.
pub record Libraries (S : Type 0) : Type 0 where
  pub load_file : S → S
  pub parse : Op S Config
  pub hostname : S → Text × S
  pub new_id : S → Text × S
  pub open_db : Text → Op S Unit
  pub db : Db S
  pub queue : QueueDb S
  pub connect : Text → Client S
  pub codec : Codec
  pub ctx_err : Op S Unit
  pub wait : ℕ → Op S Unit

-- The Redis repository behind the interface of the use case.
abbrev pub buffer_repository : {S : Type 0} → Repository S → LogRepository (Shared S)
buffer_repository r = record {
  buffer_log = buffer_log r;
  read_log_batch = λ g c n. in_world (Batch.read_log_batch r g c n);
  write_log_batch = λ es. in_world (Batch.write_log_batch r es);
  acknowledge_logs = λ g ids. in_world (Batch.acknowledge_logs r g ids);
  move_to_dlq = λ es. in_world (Batch.move_to_dlq r es);
}

-- A repository beside the state of the Redis repository.
abbrev pub beside : {S : Type 0} → LogRepository S → LogRepository (Shared S)
beside repo = record {
  buffer_log = λ e. in_world (repo.buffer_log e);
  read_log_batch = λ g c n. in_world (repo.read_log_batch g c n);
  write_log_batch = λ es. in_world (repo.write_log_batch es);
  acknowledge_logs = λ g ids. in_world (repo.acknowledge_logs g ids);
  move_to_dlq = λ es. in_world (repo.move_to_dlq es);
}

module _ {S : Type 0} (lib : Libraries S) where
  abbrev pub redis_repository : Config → Repository S
  redis_repository cfg = record {
    client = lib.connect cfg.redis_addr;
    codec = lib.codec;
    wal = none;
    dlq_stream_key = cfg.redis_dlq_stream;
    has_metrics = true;
  }

  abbrev pub process_logs : Config → Text → ProcessLogs (Shared S)
  process_logs cfg consumer_name = record {
    buffer_repo = buffer_repository (redis_repository cfg);
    sink_repo = beside (Queue.log_repository lib.db lib.queue);
    ctx_err = in_world lib.ctx_err;
    wait = λ d. in_world (lib.wait d);
    group = consumer_group;
    consumer = consumer_name;
    retry_count = cfg.consumer_retry_count;
    retry_backoff = cfg.consumer_retry_backoff;
  }

  -- The name of the worker: the host, and the first eight bytes of a new id.
  abbrev pub consumer_name : S → Text × S
  consumer_name s =
      let (host, s1) = lib.hostname s in
      let (id, s2) = lib.new_id s1 in (host ++ (codes "-" ++ take 8 id), s2)

-- How main ends: by log.Fatalf, by the end of the loop, or not yet.
pub data Exit : Type 0 where
  fatal : Text → Error → Exit
  stopped : Exit
  running : Exit

abbrev pub exit_of : Bool → Exit
exit_of true = stopped
exit_of false = running

module _ {S : Type 0} (lib : Libraries S) where
  -- From the repositories on: NewLogRepository never returns an error.
  unfoldable pub serve : Config → Text → List Turn → S → Exit × S
  serve cfg name turns s =
      let st = new_log_repository (redis_repository lib cfg) consumer_group s in
      let (ended, st1) = work (process_logs lib cfg name) turns st in (exit_of ended, st1.world)

  unfoldable pub connect_and_serve : Config → List Turn → S → Exit × S
  unfolding serve
  connect_and_serve cfg turns s =
      let (name, s1) = consumer_name lib s in
      let (d, s2) = lib.open_db cfg.postgres_url s1 in
      elim d [
        | err e ↦ (fatal (codes "failed to connect to postgres: ") e, s2)
        | ok _ ↦
            let (p, s3) = (lib.connect cfg.redis_addr).ping s2 in
            elim p [
              | err e ↦ (fatal (codes "failed to connect to redis: ") e, s3)
              | ok _ ↦ serve cfg name turns s3
            ]
      ]

  unfoldable pub main : List Turn → S → Exit × S
  unfolding connect_and_serve
  main turns s =
      let (c, s1) = load lib.load_file lib.parse s in
      elim c [
        | err e ↦ (fatal (codes "failed to load config: ") e, s1)
        | ok cfg ↦ connect_and_serve cfg turns s1
      ]

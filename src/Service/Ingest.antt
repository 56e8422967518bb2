-- ===== src/Service/Ingest.antt =====
-- cmd/ingest/main.go: the ingest service from its configuration to the servers, with the repositories
-- of the other modules. The database has a world of its own, everything else but the WAL shares one.
pub mod Restart
pub mod Accepted
pub mod Stopped
use watch_tower.Common.{
  ℕ, Bool, true, false, Option, none, List, [], ◌∷◌, ◌==◌, if◌then◌else◌, Text, codes, Op, Result,
  Error, ok, err, split_at,
}
use watch_tower.Domain.{LogEvent, ApiKeyRepository}
use watch_tower.Domain.Codec.{Codec}
use watch_tower.Config.{Config, load}
use watch_tower.Pii.{ObjectCodec, new_redactor}
use watch_tower.Ingest
use watch_tower.Ingest.{IngestLog}
use watch_tower.ApiKeys
use watch_tower.Wal.Files.{Dir}
use watch_tower.Wal.Segments.{Wal, OpenEnv}
use watch_tower.Wal.Methods
use watch_tower.Wal.Methods.{new_wal}
use watch_tower.Redis.Client.{Client}
use watch_tower.Redis.Buffer.{Repository, Shared, new_log_repository}
use watch_tower.Redis.Drain.{beside_wal, World, Answers, with_wal}
use watch_tower.Api.Sse.{Broker, new_broker}
use watch_tower.Api.Auth.{Reply}
use watch_tower.Api.Ingest.{Metrics, IngestHandler, State}
use watch_tower.Api.Router.{Incoming, ingest_server}
use watch_tower.Service.Consumer.{consumer_group, buffer_repository}

-- What main calls of libraries: `O` are redis.Options, and `parse_url` is redis.ParseURL; `now` and
-- `new_id` are those of the use case.
pub record Libraries (O V H D : Type 0) : Type 0 where
  pub load_file : H → H
  pub parse : Op H Config
  pub open_db : Text → Op D Unit
  pub query : Text → Op D Bool
  pub parse_url : Text → Result O
  pub connect : O → Client H
  pub codec : Codec
  pub objects : ObjectCodec V
  pub ctx_err : Op H Unit
  pub now : H → ℕ × H
  pub new_id : H → Text × H

-- What the requests share: the cache of keys, and the Redis repository with the WAL.
abbrev pub Plant : Type 0 → Type 0 → Type 0
Plant H D = ApiKeys.State D × Shared (World H)

module _ {O V H D : Type 0} (lib : Libraries O V H D) (cfg : Config) (options : O) where
  -- The repository, but for the WAL.
  abbrev pub log_repository : Repository H
  log_repository = record {
    client = lib.connect options;
    codec = lib.codec;
    wal = none;
    dlq_stream_key = cfg.redis_dlq_stream;
    has_metrics = true;
  }

  abbrev pub repository : Answers → Repository (World H)
  repository answers = with_wal log_repository lib.ctx_err answers

  abbrev pub api_keys : ApiKeys.Env → ApiKeyRepository (Plant H D)
  api_keys env = record {
    is_valid = λ key (k, st).
        let (r, k1) =
          ApiKeys.is_valid
            (record { query = lib.query; cache_ttl = cfg.api_key_cache_ttl; has_metrics = true })
            env key k in
        (r, (k1, st));
  }

  abbrev pub in_client : {A : Type 0} → (H → A × H) → Shared (World H) → A × Shared (World H)
  in_client f st = let (a, h) = f st.world.0 in (a, record st { world = (h, st.world.1) })

  abbrev pub ingest_log : Answers → IngestLog V (Shared (World H))
  ingest_log answers = record {
    repo = buffer_repository (repository answers);
    redactor = new_redactor (split_at 44 cfg.pii_redaction_fields);
    objects = lib.objects;
    now = in_client lib.now;
    new_id = in_client lib.new_id;
  }

  abbrev pub ingest_handler : Answers → IngestHandler (Plant H D)
  ingest_handler answers = record {
    ingest = λ event (k, st).
        let (r, st1) = Ingest.ingest (ingest_log answers) event st in (r, (k, st1));
    codec = lib.codec;
    max_event_size = cfg.max_event_size;
  }

  -- One request to the ingest server, with what the operating system and the clock of the cache answer
  -- while it is served, and the log of the statuses.
  abbrev pub serve :
      Answers
      → ApiKeys.Env
      → Incoming
      → Bool
      → State (Plant H D) × List ℕ
      → Reply × (State (Plant H D) × List ℕ)
  serve answers env = ingest_server (api_keys env) (ingest_handler answers)

abbrev pub no_metrics : Metrics
no_metrics = record {
  bytes_total = 0;
  accepted = 0;
  error_parse = 0;
  error_size = 0;
  error_buffer = 0;
  error_media_type = 0;
}

-- How main gets to its servers: by os.Exit(1) before them, or with the state in which they start.
pub data Startup (O H D : Type 0) : Type 0 where
  exited : Text → Error → Startup O H D
  serving : Config → O → State (Plant H D) → Startup O H D

module _ {O V H D : Type 0} (lib : Libraries O V H D) where
  -- The state in which the servers start. NewLogRepository never returns an error.
  unfoldable pub assemble : Config → O → Wal → H → D → Startup O H D
  assemble cfg options w h d =
      let st = new_log_repository (log_repository lib cfg options) consumer_group h in
      let (now, h1) = lib.now st.world in
      serving cfg options (record {
        metrics = no_metrics;
        broker = new_broker now;
        world = (
          record { cache = []; hits = 0; misses = 0; db = d },
          beside_wal w (record st { world = h1 }),
        );
      })

  -- From the client on, with what the operating system answers to NewWALRepository. An error of the
  -- ping is only logged.
  unfoldable pub open_log : Option Error → OpenEnv → Dir → Config → O → H → D → Startup O H D
  unfolding assemble
  open_log mkdir env dir cfg options h d =
      let (_, h1) = (lib.connect options).ping h in
      let (w, _) = new_wal mkdir env cfg.wal_segment_size cfg.wal_max_disk_size dir tt in
      elim w [
        | err e ↦ exited (codes "failed to initialize WAL repository") e
        | ok wal ↦ assemble cfg options wal h1 d
      ]

  unfoldable pub main : Option Error → OpenEnv → Dir → H → D → Startup O H D
  unfolding open_log
  main mkdir env dir h d =
      let (c, h1) = load lib.load_file lib.parse h in
      elim c [
        | err e ↦ exited (codes "failed to load config") e
        | ok cfg ↦
            let (o, d1) = lib.open_db cfg.postgres_url d in
            elim o [
              | err e ↦ exited (codes "failed to connect to postgres") e
              | ok _ ↦ elim (lib.parse_url cfg.redis_addr) [
                | err e ↦ exited (codes "failed to parse redis url") e
                | ok options ↦ open_log mkdir env dir cfg options h1 d1
              ]
            ]
      ]

-- Main behind <-ctx.Done(): errors of the servers' shut-down are only logged, and of the deferred calls
-- the one that reaches this state closes the WAL. Requests that the servers do not wait for may still
-- run.
unfoldable pub shut_down : {H : Type 0} → Option Error → Shared (World H) → Shared (World H)
shut_down on_close st = record st { world = (st.world.0, (Methods.close on_close st.world.1).1) }

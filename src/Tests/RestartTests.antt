-- ===== src/Tests/RestartTests.antt =====
-- The ingest service's theorems at a small world: a request, and a restart.
use watch_tower.Common.{
  split_at, ℕ, ◌+◌, ◌≡◌, refl, true, false, none, List, [], ◌∷◌, ◌++◌, arith, Text, codes, ok, err,
  failure, text_eq, text_le, has_prefix, concat_map, last?,
}
use watch_tower.Common.Assoc.{lookup}
use watch_tower.Common.Int.{pos}
use watch_tower.Domain.{LogEvent}
use watch_tower.Config.{Config, load}
use watch_tower.ApiKeys
use watch_tower.ApiKeys.{live, query_and_cache, check_again}
use watch_tower.Pii.{new_redactor, field_set, redact}
use watch_tower.Ingest.{ingest, enrich}
use watch_tower.Scanner.{split_lines, whole}
use watch_tower.Wal.Files.{
  segment_name, sorted_segments, segment_names, sort_names, content?, is_segment, insert_name,
}
use watch_tower.Wal.Segments.{Wal}
use watch_tower.Wal.Methods.{new_wal}
use watch_tower.Wal.Removal.{IsDistinct}
use watch_tower.Wal.Log.{log_lines, IsFresh}
use watch_tower.Wal.Log.RoundTrip.{Holds}
use watch_tower.Redis.Client.{Client, XAddArgs}
use watch_tower.Redis.Buffer.{
  buffer_log, buffer_log_to_redis, after_redis, new_log_repository, setup_consumer_group,
}
use watch_tower.Redis.Drain.{Answers}
use watch_tower.Redis.Health.{start_health_check}
use watch_tower.Api.Sse.{new_broker, report_events}
use watch_tower.Api.Auth.{status, auth}
use watch_tower.Api.Ingest.{
  State, serve_http, dispatch, reply_to, handle_single_json, limit_body, report_accepted,
}
use watch_tower.Api.Logging.{logging}
use watch_tower.Api.Router.{Incoming, ingest_route, route, ingest_server}
use watch_tower.Service.Ingest.{
  Libraries, Plant, serving, no_metrics, repository, api_keys, serve, assemble, open_log, main,
}
use watch_tower.Service.Ingest.Accepted.{IsStored, serve-IsStored}
use watch_tower.Service.Ingest.Restart.{restart_strands}
use watch_tower.Tests.Data.{shift_codec, shift_laws}
use watch_tower.Tests.WalTests.{calm}
use watch_tower.Tests.JournalTests.{start, rotation, opening, write_env, hello, second}

program : Unit {0}
unfolding segment_name content? is_segment insert_name last? new_wal sorted_segments segment_names
    sort_names text_eq text_le has_prefix split_lines whole log_lines concat_map load live
    query_and_cache check_again ApiKeys.is_valid new_redactor field_set redact ingest enrich
    buffer_log buffer_log_to_redis after_redis new_log_repository setup_consumer_group new_broker
    report_events auth serve_http dispatch reply_to handle_single_json limit_body report_accepted
    logging ingest_route route ingest_server split_at assemble open_log main lookup
program = tt

-- The stream, a database with one key, and a clock that stands.
abbrev pub client : Client (List XAddArgs)
client = record {
  x_group_create_mk_stream = λ _ _ _ s. (ok tt, s);
  ping = λ s. (ok tt, s);
  x_add = λ a s. (ok tt, s ++ a ∷ []);
  x_read_group = λ _ s. (ok [], s);
  x_ack = λ _ _ _ s. (ok 0, s);
  pipeline = λ _ s. (ok tt, s);
}

abbrev config : Config
config = record {
  log_level = codes "info";
  max_event_size = 1048576;
  wal_path = codes "./wal";
  wal_segment_size = 1000;
  wal_max_disk_size = 5000;
  backpressure_policy = codes "block";
  redis_addr = codes "redis";
  redis_dlq_stream = codes "log_events_dlq";
  postgres_url = codes "postgres";
  api_key_cache_ttl = 300;
  pii_redaction_fields = codes "email,ssn";
  ingest_server_addr = codes ":8080";
  consumer_retry_count = 3;
  consumer_retry_backoff = 1000;
}

abbrev libraries : Libraries Text Text (List XAddArgs) ℕ
libraries = record {
  load_file = λ h. h;
  parse = λ h. (ok config, h);
  open_db = λ _ d. (ok tt, d);
  query = λ key d. (ok (text_eq key (codes "k")), d + 1);
  parse_url = λ url. ok url;
  connect = λ _. client;
  codec = shift_codec;
  objects = record {
    decode = λ _. err (failure (codes "no object"));
    encode = λ _. ok [];
    string = λ t. t;
  };
  ctx_err = λ h. (ok tt, h);
  now = λ h. (7, h);
  new_id = λ h. (codes "id", h);
}

fields_split : split_at 44 config.pii_redaction_fields ≡ codes "email" ∷ codes "ssn" ∷ []
unfolding program
fields_split = refl

abbrev pub answers : Answers
answers = record {
  on_write = record write_env { before = rotation (start + 4); after = rotation (start + 5) };
  on_replay = calm;
  on_truncate = record { read_dir = none; keeps = λ n. false; reopen = opening (start + 6) };
  on_close = none;
}

-- The state in which main serves on the directory of `second`.
abbrev third : Wal
third = record second { max_segment_size = 1000; max_total_size = 5000 }

abbrev served : State (Plant (List XAddArgs) ℕ)
served = record {
  metrics = no_metrics;
  broker = record { clients = []; counter = []; current_count = 0; last_timestamp = 7 };
  world = (
    record { cache = []; hits = 0; misses = 0; db = 0 },
    record { is_available = true; wal_active = false; world = ([], third) },
  );
}

pub second-Holds : Holds shift_codec shift_laws second (hello ∷ [])
unfolding program
second-Holds = record {
  ready = record {
    open_handle = refl;
    newest = (segment_name start ∷ [], [], refl, (refl, tt), refl);
    no_torn = (refl, (refl, tt));
  };
  fits = omega arith;
  decodes = (refl, tt);
}

pub second-IsFresh : IsFresh (segment_name (start + 3)) second.dir
unfolding program
second-IsFresh = record { absent = refl; above = (refl, (refl, tt)) }

pub second-IsDistinct : IsDistinct second.dir
unfolding program
second-IsDistinct = ((refl, tt), (tt, tt))

second_served :
    main libraries none (opening (start + 3)) second.dir [] 0
    ≡ serving config (codes "redis") served
unfolding program
second_served = refl

restart_strands_example :
    Holds shift_codec shift_laws
      (start_health_check
        (repository libraries config (codes "redis") answers)
        1
        served.world.1).world.1
      (hello ∷ [])
restart_strands_example =
    restart_strands libraries shift_laws none (opening (start + 3)) second (hello ∷ []) [] 0 config
      (codes "redis") served answers 1 second-Holds second-IsDistinct second-IsFresh second_served
      refl (refl, tt)

-- A request with the body "vw", at the service as it starts.
abbrev incoming : Incoming
incoming = record {
  path = codes "/ingest";
  api_key = codes "k";
  request = record {
    method = codes "POST";
    content_length = pos 2;
    content_type = codes "application/json";
    body = record { bytes = codes "vw"; end = ok tt };
  };
  client = 1;
  signals = [];
  others = λ b. b;
}

abbrev clock : ApiKeys.Env
clock = record { first = 1; second = 2; third = 3; others = λ c. c }

is_json : has_prefix (codes "application/json") (codes "application/json") ≡ true
unfolding program
is_json = refl

request_accepted :
    (serve libraries config (codes "redis") answers clock incoming true (served, [])).0 ≡ status 202
unfolding program
request_accepted = refl

serve-IsStored_example :
    ((api_keys libraries config (codes "redis") clock).is_valid (codes "k") served.world).0
      ≡ ok true
    × (event : LogEvent) × (shift_codec.unmarshal (codes "vw") ≡ ok event)
    × IsStored libraries config
        (codes "redis")
        answers
        event
        (codes "vw")
        (serve libraries config
          (codes "redis")
          answers
          clock
          incoming
          true
          (served, [])).1.0.world.1.world
serve-IsStored_example =
    serve-IsStored libraries config (codes "redis") answers clock incoming true served [] is_json
      request_accepted

-- ===== src/Tests/ApiTests.antt =====
-- The handlers' theorems at small requests.
use watch_tower.Common.{
  ℕ, ◌+◌, ◌++◌, ◌≡◌, ◌≢◌, refl, true, List, [], ◌∷◌, arith, length, Text, codes, ok, err,
  has_prefix, text_eq, max_bytes,
}
use watch_tower.Common.Int.{pos}
use watch_tower.Scanner.{scan, split_lines}
use watch_tower.Domain.{ApiKeyRepository}
use watch_tower.Api.Sse.{Broker}
use watch_tower.Api.Sse.Conserved.{
  Event, report, take_report, ticks, connect, disconnect, run, accepted, broadcasted, discarded,
  pending, run-conserves,
}
use watch_tower.Api.Auth.{status, Handler, auth}
use watch_tower.Api.Ingest.{
  IngestHandler, State, Body, Request, handle_ndjson, serve_http, ndjson_lines, finish_ndjson,
  dispatch, reply_to, handle_single_json, limit_body,
}
use watch_tower.Api.Ingest.Accounts.{
  nonempty, errors, handle_ndjson-counts, failed_ndjson_keeps_lines,
}
use watch_tower.Api.Logging.{logging}
use watch_tower.Api.Stream.{message, done}
use watch_tower.Api.Router.{Incoming, ingest_route, route, ingest_server}
use watch_tower.Api.Router.Authorized.{events_are_refused, IsAuthorized, ingest_server-IsAuthorized}
use watch_tower.Tests.Data.{shift_codec}

abbrev broker : Broker
broker = record { clients = []; counter = []; current_count = 0; last_timestamp = 0 }

-- Three reports, of which two are taken, and two ticks, of which the second comes at the time of
-- the one before.
abbrev events : List Event
events =
    connect 1
    ∷ report 5
    ∷ report 7
    ∷ take_report
    ∷ ticks 10 (λ c. true)
    ∷ take_report
    ∷ ticks 10 (λ c. true)
    ∷ report 2
    ∷ disconnect 1
    ∷ []

run-conserves_example :
    pending broker + accepted events broker
    ≡ broadcasted events broker + discarded events broker + pending (run events broker)
run-conserves_example = run-conserves events broker

-- A repository with one valid key.
abbrev key_repo : ApiKeyRepository ℕ
key_repo = record { is_valid = λ k s. (ok (text_eq k (codes "k")), s) }

abbrev served : Handler ℕ
served s = (status 200, s + 1)

allowed : auth key_repo (codes "k") served 0 ≡ (status 200, 1)
unfolding auth text_eq
allowed = refl

refused : auth key_repo (codes "j") served 0 ≡ (status 401, 0)
unfolding auth text_eq
refused = refl

-- The state of the use case counts the events that it was given.
abbrev handler : IngestHandler ℕ
handler = record { ingest = λ e s. (ok tt, s + 1); codec = shift_codec; max_event_size = 8 }

abbrev start : State ℕ
start = record {
  metrics = record {
    bytes_total = 0;
    accepted = 0;
    error_parse = 0;
    error_size = 0;
    error_buffer = 0;
    error_media_type = 0;
  };
  broker = broker;
  world = 0;
}

abbrev two_lines : Body
two_lines = record { bytes = codes "a" ++ 10 ∷ 10 ∷ codes "b"; end = ok tt }

two_lines_handled : (handle_ndjson handler two_lines start).0 ≡ ok tt
unfolding handle_ndjson scan split_lines ndjson_lines finish_ndjson
two_lines_handled = refl

handle_ndjson-counts_example :
    (handle_ndjson handler two_lines start).1.metrics.accepted
      + errors handler (handle_ndjson handler two_lines start).1
    ≡ 0 + nonempty (scan (split_lines two_lines.bytes) two_lines.end).0
handle_ndjson-counts_example = handle_ndjson-counts handler two_lines start two_lines_handled

-- The same lines, cut off by the limit.
abbrev cut : Body
cut = record two_lines { end = err max_bytes }

cut_fails : (handle_ndjson handler cut start).0 ≢ ok tt
unfolding handle_ndjson scan split_lines ndjson_lines finish_ndjson
cut_fails = λ h. absurd (ground arith)

failed_ndjson_keeps_lines_example :
    ((handle_ndjson handler cut start).1.metrics.accepted ≡ 0)
    × ((handle_ndjson handler cut start).1.broker ≡ broker)
    × ((handle_ndjson handler cut start).1.world
        ≡ (ndjson_lines handler (scan (split_lines cut.bytes) cut.end).0 0 start).1.world)
failed_ndjson_keeps_lines_example = failed_ndjson_keeps_lines handler cut start cut_fails

abbrev post : Text → Request
post t = record {
  method = codes "POST";
  content_length = pos (length t);
  content_type = codes "application/json; charset=utf-8";
  body = record { bytes = t; end = ok tt };
}

is_post : text_eq (codes "POST") (codes "POST") ≡ true
unfolding text_eq
is_post = refl

is_json : has_prefix (codes "application/json") (codes "application/json; charset=utf-8") ≡ true
unfolding has_prefix
is_json = refl

small_accepted : (serve_http handler (post (codes "abc")) start).0 ≡ status 202
unfolding serve_http dispatch reply_to handle_single_json limit_body text_eq has_prefix
small_accepted = refl

-- A request to the ingest server, with a valid key.
abbrev incoming : Text → Incoming
incoming path = record {
  path = path;
  api_key = codes "k";
  request = post (codes "abc");
  client = 1;
  signals = message (codes "1") ∷ done ∷ [];
  others = λ b. b;
}

abbrev to_ingest : Incoming
to_ingest = incoming (codes "/ingest")

events_are_refused_example :
    ingest_server key_repo handler (incoming (codes "/events")) true (start, [])
    ≡ (status 500, (start, 500 ∷ []))
events_are_refused_example =
    events_are_refused key_repo handler (incoming (codes "/events")) true start [] refl

ingest_accepted : (ingest_server key_repo handler to_ingest true (start, [])).0 ≡ status 202
unfolding ingest_server logging route ingest_route auth serve_http dispatch reply_to
    handle_single_json limit_body text_eq has_prefix
ingest_accepted = refl

ingest_server-IsAuthorized_example :
    IsAuthorized key_repo handler to_ingest start
      (ingest_server key_repo handler to_ingest true (start, [])).1.0
    × ((ingest_server key_repo handler to_ingest true (start, [])).1.1 ≡ 202 ∷ [])
ingest_server-IsAuthorized_example =
    ingest_server-IsAuthorized key_repo handler to_ingest true start [] ingest_accepted

-- ===== src/Api/Router.antt =====
-- internal/adapter/api/router.go: the routes of the ingest service, behind the logging middleware as
-- cmd/ingest/main.go puts it. http.ServeMux compares clean paths, and methods where a pattern has one.
pub mod Authorized
use watch_tower.Common.{
  ℕ, Bool, true, false, not, List, [], ◌∷◌, if◌then◌else◌, Text, codes, text_eq, Op, Result, ok,
  err,
}
use watch_tower.Domain.{ApiKeyRepository}
use watch_tower.Api.Sse.{Broker}
use watch_tower.Api.Auth.{Reply, status, Handler, auth}
use watch_tower.Api.Ingest.{IngestHandler, State, Request, serve_http}
use watch_tower.Api.Stream.{Signal, serve_events}
use watch_tower.Api.Logging.{WriterHandler, logging}

-- A request with its path and its X-API-Key. The last three fields are what a connection to the
-- broker meets, where the request is for one.
pub record Incoming : Type 0 where
  pub path : Text
  pub api_key : Text
  pub request : Request
  pub client : ℕ
  pub signals : List Signal
  pub others : Broker → Broker

-- The repository of keys beside the metrics and the broker.
abbrev pub keys_beside : {S : Type 0} → ApiKeyRepository S → ApiKeyRepository (State S)
keys_beside repo = record {
  is_valid = λ key st. let (r, s) = repo.is_valid key st.world in (r, record st { world = s });
}

module _ {S : Type 0} (keys : ApiKeyRepository S) (h : IngestHandler S) where
  -- mux.Handle("/events", sseBroker)
  abbrev pub events_route : Incoming → WriterHandler (State S)
  events_route req can_flush st =
      let ((reply, _), b) = serve_events can_flush req.client req.signals req.others st.broker in
      (reply, record st { broker = b })

  -- mux.Handle("POST /ingest", authMiddleware(ingestHandler)): the mux answers 405 for other methods.
  unfoldable pub ingest_route : Incoming → Handler (State S)
  ingest_route req st =
      if not (text_eq req.request.method (codes "POST"))
      then (status 405, st)
      else auth (keys_beside keys) req.api_key (serve_http h req.request) st

  unfoldable pub route : Incoming → WriterHandler (State S)
  unfolding ingest_route
  route req can_flush st =
      if text_eq req.path (codes "/ingest")
      then ingest_route req st
      else if text_eq req.path (codes "/events")
      then events_route req can_flush st
      else if text_eq req.path (codes "/health")
      then (status 200, st)
      else (status 404, st)

  -- The handler of the ingest server.
  unfoldable pub ingest_server : Incoming → WriterHandler (State S × List ℕ)
  unfolding route
  ingest_server req = logging (route req)

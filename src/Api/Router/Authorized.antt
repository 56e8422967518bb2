-- ===== src/Api/Router/Authorized.antt =====
-- Which requests the ingest server serves (internal/adapter/api/router.go and
-- internal/adapter/api/middleware/logging.go).
use watch_tower.Common.{
  ℕ, ◌≡◌, sym, ap, ◌∙◌, Bool, true, false, List, ◌∷◌, arith, codes, text_eq, ok, is_empty,
  Bool-cases, inl, inr,
}
use watch_tower.Domain.{ApiKeyRepository}
use watch_tower.Api.Auth.{status, auth_protects}
use watch_tower.Api.Ingest.{IngestHandler, State, serve_http}
use watch_tower.Api.Stream.{serve_events}
use watch_tower.Api.Logging.{logging, log_status}
use watch_tower.Api.Router.{Incoming, keys_beside, ingest_route, route, ingest_server}

module _ {S : Type 0} (keys : ApiKeyRepository S) (h : IngestHandler S) where
  -- A GET, or any other request, for /events is answered with 500 by the ingest server, whatever the
  -- connection can do, and no client is ever added to the broker: the writer that the logging
  -- middleware hands on cannot flush.
  pub events_are_refused :
      (req : Incoming) (can_flush : Bool) (st : State S) (log : List ℕ)
      → req.path ≡ codes "/events"
      → ingest_server keys h req can_flush (st, log) ≡ (status 500, (st, 500 ∷ log))
  unfolding ingest_server logging route serve_events text_eq
  events_are_refused req can_flush st log events = ground (arith, events)

  ingest_route_accepts :
      (req : Incoming) (st : State S)
      → (ingest_route keys h req st).0 ≡ status 202
      → (text_eq req.request.method (codes "POST") ≡ true)
        × (is_empty req.api_key ≡ false)
        × ((keys.is_valid req.api_key st.world).0 ≡ ok true)
        × (ingest_route keys h req st
            ≡ serve_http h req.request
                (record st { world = (keys.is_valid req.api_key st.world).1 }))
  unfolding ingest_route
  ingest_route_accepts req st accepted =
      elim (auth_protects (keys_beside keys) req.api_key (serve_http h req.request) st) [
        | inl (given, valid, through) ↦ ground arith
        | inr (refused, _) ↦ ground arith
      ]

  -- What a request that was accepted has met, relative to the state in which it was served: its path
  -- and its method are those of the route, its key is valid for the repository, and the ingest
  -- handler replied with 202 behind the check of the key.
  pub record IsAuthorized (req : Incoming) (st st' : State S) : Type 0 where
    pub path : text_eq req.path (codes "/ingest") ≡ true
    pub method : text_eq req.request.method (codes "POST") ≡ true
    pub has_key : is_empty req.api_key ≡ false
    pub valid : (keys.is_valid req.api_key st.world).0 ≡ ok true
    pub served :
        serve_http h req.request (record st { world = (keys.is_valid req.api_key st.world).1 })
        ≡ (status 202, st')

  -- If the ingest server replies to a request with 202, then the request was a POST to /ingest with a
  -- key that the repository answered for with yes, the ingest handler itself replied with 202, and
  -- the final state is the one that it left, with one line of the log more.
  pub ingest_server-IsAuthorized :
      (req : Incoming) (can_flush : Bool) (st : State S) (log : List ℕ)
      → (ingest_server keys h req can_flush (st, log)).0 ≡ status 202
      → IsAuthorized req st (ingest_server keys h req can_flush (st, log)).1.0
        × ((ingest_server keys h req can_flush (st, log)).1.1 ≡ 202 ∷ log)
  unfolding ingest_server logging route serve_events
  ingest_server-IsAuthorized req can_flush st log accepted =
      elim (Bool-cases (text_eq req.path (codes "/ingest"))) [
        | inr other ↦ absurd (ground arith)
        | inl path ↦
            let e : ingest_server keys h req can_flush (st, log) ≡ (
              (ingest_route keys h req st).0,
              ((ingest_route keys h req st).1, log_status (ingest_route keys h req st).0 log),
            ) =
              ground arith in
            let replied : (ingest_route keys h req st).0 ≡ status 202 =
              sym (ap (λ q. q.0) e) ∙ accepted in
            let (method, has_key, valid, through) = ingest_route_accepts req st replied in
            (
              record {
                path = path;
                method = method;
                has_key = has_key;
                valid = valid;
                served =
                    sym through
                    ∙ ap (λ r. (r, (ingest_route keys h req st).1)) replied
                    ∙ ap (λ q. (status 202, q)) (sym (ap (λ q. q.1.0) e));
              },
              ap (λ q. q.1.1) e ∙ ap (λ r. log_status r log) replied,
            )
      ]

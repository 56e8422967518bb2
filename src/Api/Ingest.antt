-- ===== src/Api/Ingest.antt =====
-- internal/adapter/api/handler/ingest_handler.go.
pub mod Accounts
use watch_tower.Common.{
  ℕ, zero, suc, ◌+◌, Bool, true, false, not, List, [], ◌∷◌, if◌then◌else◌, leb, ltb, length, take,
  Text, codes, has_prefix, text_eq, Op, Done, Result, Error, ok, err, max_bytes, wrapped, is_empty,
}
use watch_tower.Common.Int.{ℤ, is_neg, to_nat}
use watch_tower.Scanner.{split_lines, scan}
use watch_tower.Domain.{LogEvent}
use watch_tower.Domain.Codec.{Codec}
use watch_tower.Api.Sse.{Broker, report_events}
use watch_tower.Api.Auth.{Reply, status, panicked, Handler}

-- The counters of internal/adapter/metrics that the handler uses, one for each label.
pub record Metrics : Type 0 where
  pub bytes_total : ℕ
  pub accepted : ℕ
  pub error_parse : ℕ
  pub error_size : ℕ
  pub error_buffer : ℕ
  pub error_media_type : ℕ

-- `ingest` is the method of the use case.
pub record IngestHandler (S : Type 0) : Type 0 where
  pub ingest : LogEvent → Op S Unit
  pub codec : Codec
  pub max_event_size : ℕ

pub record State (S : Type 0) : Type 0 where
  pub metrics : Metrics
  pub broker : Broker
  pub world : S

-- What the body's reader yields, and how it ends: `ok` for io.EOF.
pub record Body : Type 0 where
  pub bytes : Text
  pub end : Done

-- A request; a content length of -1 says that it is not known.
pub record Request : Type 0 where
  pub method : Text
  pub content_length : ℤ
  pub content_type : Text
  pub body : Body

-- http.MaxBytesReader
unfoldable pub limit_body : ℕ → Body → Body
limit_body n body =
    if leb (length body.bytes) n
    then body
    else record { bytes = take n body.bytes; end = err max_bytes }

-- errors.As with *http.MaxBytesError
unfoldable pub is_max_bytes : Error → Bool
is_max_bytes max_bytes = true
is_max_bytes (wrapped m e) = is_max_bytes e
is_max_bytes _ = false

abbrev pub add_accepted : ℕ → Metrics → Metrics
add_accepted n m = record m { accepted = m.accepted + n }

abbrev pub add_error_parse : Metrics → Metrics
add_error_parse m = record m { error_parse = m.error_parse + 1 }

abbrev pub add_error_size : Metrics → Metrics
add_error_size m = record m { error_size = m.error_size + 1 }

abbrev pub add_error_buffer : Metrics → Metrics
add_error_buffer m = record m { error_buffer = m.error_buffer + 1 }

abbrev pub add_error_media_type : Metrics → Metrics
add_error_media_type m = record m { error_media_type = m.error_media_type + 1 }

module _ {S : Type 0} where
  abbrev pub count : (Metrics → Metrics) → State S → State S
  count f st = record st { metrics = f st.metrics }

  -- The counter of accepted events, and the report to the broker.
  unfoldable pub report_accepted : ℕ → State S → State S
  report_accepted n st = record st {
    metrics = add_accepted n st.metrics;
    broker = report_events n st.broker;
  }

module _ {S : Type 0} (h : IngestHandler S) where
  -- h.useCase.Ingest for an event with its raw text.
  abbrev pub ingest_raw : Text → LogEvent → State S → Done × State S
  ingest_raw raw event st =
      let (r, s) = h.ingest (record event { raw_event = raw }) st.world in
      (r, record st { world = s })

  unfoldable pub handle_single_json : Body → Op (State S) Unit
  unfolding report_accepted
  handle_single_json body st = elim body.end [
    | err e ↦ (err e, st)
    | ok _ ↦ elim (h.codec.unmarshal body.bytes) [
      | err e ↦ (err e, count add_error_parse st)
      | ok event ↦
          let (r, st1) = ingest_raw body.bytes event st in
          elim r [
            | err e ↦ (err e, count add_error_buffer st1)
            | ok _ ↦ (ok tt, report_accepted 1 st1)
          ]
    ]
  ]

  -- The loop over the lines, with processedCount.
  unfoldable pub ndjson_lines : List Text → ℕ → State S → ℕ × State S
  ndjson_lines [] n st = (n, st)
  ndjson_lines ([] ∷ ls) n st = ndjson_lines ls n st
  ndjson_lines ((b ∷ bs) ∷ ls) n st = elim (h.codec.unmarshal (b ∷ bs)) [
    | err _ ↦ ndjson_lines ls n (count add_error_parse st)
    | ok event ↦
        let (r, st1) = ingest_raw (b ∷ bs) event st in
        elim r [
          | err _ ↦ ndjson_lines ls n (count add_error_buffer st1)
          | ok _ ↦ ndjson_lines ls (n + 1) st1
        ]
  ]

  -- The end of handleNDJSON, with scanner.Err().
  unfoldable pub finish_ndjson : Done → ℕ × State S → Done × State S
  unfolding report_accepted
  finish_ndjson (err e) (n, st) = (err e, st)
  finish_ndjson (ok _) (n, st) = if ltb 0 n then (ok tt, report_accepted n st) else (ok tt, st)

  unfoldable pub handle_ndjson : Body → Op (State S) Unit
  handle_ndjson body st =
      let (tokens, end) = scan (split_lines body.bytes) body.end in
      finish_ndjson end (ndjson_lines tokens 0 st)

  -- The reply to a handled body.
  unfoldable pub reply_to : Done × State S → Reply × State S
  reply_to (ok _, st) = (status 202, st)
  reply_to (err e, st) =
      if is_max_bytes e then (status 413, count add_error_size st) else (status 400, st)

  unfoldable pub dispatch : Request → Handler (State S)
  dispatch req st =
      let body = limit_body h.max_event_size req.body in
      if has_prefix (codes "application/json") req.content_type
      then reply_to (handle_single_json body st)
      else if has_prefix (codes "application/x-ndjson") req.content_type
      then reply_to (handle_ndjson body st)
      else (status 415, count add_error_media_type st)

  -- ServeHTTP. A Prometheus counter panics where a negative number is added to it.
  unfoldable pub serve_http : Request → Handler (State S)
  serve_http req st =
      if not (text_eq req.method (codes "POST"))
      then (status 405, st)
      else if is_neg req.content_length
      then (panicked, st)
      else dispatch req
          (count (λ m. record m { bytes_total = m.bytes_total + to_nat req.content_length }) st)

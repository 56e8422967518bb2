-- ===== src/Api/Ingest/Accounts.antt =====
-- What the handler counts, and what it lets through
-- (internal/adapter/api/handler/ingest_handler.go).
use watch_tower.Common.{
  ℕ, suc, ◌+◌, ◌<◌, ◌≡◌, ◌≢◌, ◌≤◌, true, List, [], ◌∷◌, arith, length, Text, codes, has_prefix,
  text_eq, Done, Result-cases, inl, inr, ok, err,
}
use watch_tower.Common.Int.{pos}
use watch_tower.Scanner.{split_lines, scan}
use watch_tower.Domain.{LogEvent}
use watch_tower.Api.Auth.{status}
use watch_tower.Api.Ingest.{
  IngestHandler, State, Body, Request, limit_body, is_max_bytes, ingest_raw, handle_single_json,
  ndjson_lines, finish_ndjson, handle_ndjson, reply_to, dispatch, serve_http, count,
  add_error_parse, add_error_buffer,
}

-- The lines that are not empty.
pub nonempty : List Text → ℕ
nonempty [] = 0
nonempty ([] ∷ ls) = nonempty ls
nonempty ((b ∷ bs) ∷ ls) = suc (nonempty ls)

module _ {S : Type 0} (h : IngestHandler S) where
  abbrev pub errors : State S → ℕ
  errors st = st.metrics.error_parse + st.metrics.error_buffer

  -- Each line of an NDJSON body that is not empty is counted exactly once: as processed, as a parse
  -- error or as a buffer error. The counter of accepted events and the broker are left alone by the
  -- loop.
  pub ndjson_lines-counts :
      (ls : List Text) (n : ℕ) (st : State S)
      → ((ndjson_lines h ls n st).0 + errors (ndjson_lines h ls n st).1
          ≡ n + errors st + nonempty ls)
        × ((ndjson_lines h ls n st).1.metrics.accepted ≡ st.metrics.accepted)
        × ((ndjson_lines h ls n st).1.broker ≡ st.broker)
  unfolding ndjson_lines nonempty
  ndjson_lines-counts [] n st = ground arith
  ndjson_lines-counts ([] ∷ ls) n st = ndjson_lines-counts ls n st
  ndjson_lines-counts ((b ∷ bs) ∷ ls) n st = elim (Result-cases (h.codec.unmarshal (b ∷ bs))) [
    | inr (e, refused) ↦ ground (arith, ndjson_lines-counts ls n (count add_error_parse st))
    | inl (event, decoded) ↦
        let (r, st1) = ingest_raw h (b ∷ bs) event st in
        elim (Result-cases r) [
          | inr (e, failed) ↦ ground (arith, ndjson_lines-counts ls n (count add_error_buffer st1))
          | inl (_, stored) ↦ ground (arith, ndjson_lines-counts ls (n + 1) st1)
        ]
  ]

  finish_ndjson-counts :
      (end : Done) (p : ℕ × State S)
      → (finish_ndjson h end p).0 ≡ ok tt
      → ((finish_ndjson h end p).1.metrics.accepted ≡ p.1.metrics.accepted + p.0)
        × (errors (finish_ndjson h end p).1 ≡ errors p.1)
  unfolding finish_ndjson
  finish_ndjson-counts (ok _) (n, st) done = ground arith
  finish_ndjson-counts (err e) (n, st) done = ground arith

  -- If an NDJSON body is handled without an error of its reader or its scanner, then each of the
  -- scanned lines that is not empty is counted exactly once, as accepted, as a parse error or as a
  -- buffer error.
  pub handle_ndjson-counts :
      (body : Body) (st : State S)
      → (handle_ndjson h body st).0 ≡ ok tt
      → (handle_ndjson h body st).1.metrics.accepted + errors (handle_ndjson h body st).1
        ≡ st.metrics.accepted + errors st + nonempty (scan (split_lines body.bytes) body.end).0
  unfolding handle_ndjson
  handle_ndjson-counts body st done =
      let (tokens, end) = scan (split_lines body.bytes) body.end in
      ground (
        arith,
        ndjson_lines-counts tokens 0 st,
        finish_ndjson-counts end (ndjson_lines h tokens 0 st),
      )

  -- An NDJSON body that ends in an error of its reader or its scanner counts nothing as accepted and
  -- reports nothing to the broker, though its lines up to there were handed to the use case: the
  -- world is the one that the loop over them left.
  pub failed_ndjson_keeps_lines :
      (body : Body) (st : State S)
      → (handle_ndjson h body st).0 ≢ ok tt
      → ((handle_ndjson h body st).1.metrics.accepted ≡ st.metrics.accepted)
        × ((handle_ndjson h body st).1.broker ≡ st.broker)
        × ((handle_ndjson h body st).1.world
            ≡ (ndjson_lines h (scan (split_lines body.bytes) body.end).0 0 st).1.world)
  unfolding handle_ndjson finish_ndjson
  failed_ndjson_keeps_lines body st failed =
      let (tokens, end) = scan (split_lines body.bytes) body.end in
      ground (arith, ndjson_lines-counts tokens 0 st)

  -- A JSON request by POST with a known length and a body above the limit gets the status 413; it is
  -- counted by its length and as too large, and nothing of it reaches the use case or the broker.
  pub large_json_is_refused :
      (req : Request) (st : State S) (n : ℕ)
      → text_eq req.method (codes "POST") ≡ true
      → req.content_length ≡ pos n
      → has_prefix (codes "application/json") req.content_type ≡ true
      → h.max_event_size < length req.body.bytes
      → ((serve_http h req st).0 ≡ status 413)
        × ((serve_http h req st).1.world ≡ st.world)
        × ((serve_http h req st).1.broker ≡ st.broker)
        × ((serve_http h req st).1.metrics.error_size ≡ st.metrics.error_size + 1)
        × ((serve_http h req st).1.metrics.bytes_total ≡ st.metrics.bytes_total + n)
  unfolding serve_http dispatch reply_to is_max_bytes handle_single_json limit_body
  large_json_is_refused req st n post known json big = ground arith

  -- If a JSON request is replied to with 202, then its body was read whole and decoded to an event,
  -- which the use case ingested without an error, with the body as its raw text; the world is the one
  -- that the use case left, and one more event is counted as accepted.
  pub accepted_json_is_ingested :
      (req : Request) (st : State S)
      → has_prefix (codes "application/json") req.content_type ≡ true
      → (serve_http h req st).0 ≡ status 202
      → (event : LogEvent) × (h.codec.unmarshal req.body.bytes ≡ ok event)
        × (length req.body.bytes ≤ h.max_event_size)
        × (h.ingest (record event { raw_event = req.body.bytes }) st.world
            ≡ (ok tt, (serve_http h req st).1.world))
        × ((serve_http h req st).1.metrics.accepted ≡ st.metrics.accepted + 1)
  unfolding serve_http dispatch reply_to handle_single_json limit_body
  accepted_json_is_ingested req st json done =
      elim (Result-cases (h.codec.unmarshal req.body.bytes)) [
        | inr (e, refused) ↦ absurd (ground arith)
        | inl (event, decoded) ↦ (event, decoded, ground arith, ground arith, ground arith)
      ]

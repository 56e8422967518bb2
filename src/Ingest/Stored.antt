-- ===== src/Ingest/Stored.antt =====
-- Which event the ingest use case buffers (internal/usecase/ingest_log.go).
use mathlib.Core.Path.{subst}
use watch_tower.Common.{
  ◌≡◌, refl, Bool, true, false, ◌||◌, arith, if◌then◌else◌, Text, ok, err, is_empty, Bool-cases,
  Result-cases, inl, inr,
}
use watch_tower.Common.Assoc.{Assoc}
use watch_tower.Domain.{LogEvent}
use watch_tower.Pii.{ObjectCodec, Redactor, redact, redact_fields, store_metadata}
use watch_tower.Ingest.{IngestLog, enrich, ingest}

-- Two events that differ at most in the metadata and the flag of a redaction.
pub record IsSameEvent (e e' : LogEvent) : Type 0 where
  pub id : e'.id ≡ e.id
  pub received_at : e'.received_at ≡ e.received_at
  pub event_time : e'.event_time ≡ e.event_time
  pub source : e'.source ≡ e.source
  pub level : e'.level ≡ e.level
  pub message : e'.message ≡ e.message
  pub raw_event : e'.raw_event ≡ e.raw_event

unchanged : (e : LogEvent) → IsSameEvent e e
unchanged e = record {
  id = refl;
  received_at = refl;
  event_time = refl;
  source = refl;
  level = refl;
  message = refl;
  raw_event = refl;
}

module _ {V : Type 0} (codec : ObjectCodec V) where
  store_metadata-IsSameEvent :
      (p : Assoc V × Bool) (event : LogEvent) → IsSameEvent event (store_metadata codec p event).1
  unfolding store_metadata
  store_metadata-IsSameEvent (m, false) event = ground arith
  store_metadata-IsSameEvent (m, true) event = ground arith

  -- Also a redaction that fails.
  redact-IsSameEvent :
      (r : Redactor) (event : LogEvent) → IsSameEvent event (redact codec r event).1
  unfolding redact
  redact-IsSameEvent r event =
      elim (Bool-cases (is_empty r.fields_to_redact || is_empty event.metadata)) [
        | inl nothing ↦
            let e : redact codec r event ≡ (ok tt, event) = ground arith in rw e (unchanged event)
        | inr work ↦ elim (Result-cases (codec.decode event.metadata)) [
          | inr (x, refused) ↦
              let e : redact codec r event ≡ (err x, event) = ground arith in rw e (unchanged event)
          | inl (m, decoded) ↦
              let p = redact_fields codec r.fields_to_redact m false in
              let e : redact codec r event ≡ store_metadata codec p event = ground arith in
              rw e (store_metadata-IsSameEvent p event)
        ]
      ]

module _ {V S : Type 0} (uc : IngestLog V S) where
  -- The id that an event is stored under.
  abbrev pub id_of : LogEvent → S → Text
  id_of event s = if is_empty event.id then (uc.new_id (uc.now s).1).0 else event.id

  -- Whatever the redactor makes of its metadata, ingesting an event ends in one call of the
  -- repository, whose result and state it returns, with the event: at the time of the clock, under
  -- its own id or under a new one where it has none, and with its time, source, level, message and
  -- raw text as they were.
  pub ingest-IsSameEvent :
      (event : LogEvent) (s : S)
      → (stored : LogEvent) × (s' : S) × (ingest uc event s ≡ uc.repo.buffer_log stored s')
        × IsSameEvent (record event { received_at = (uc.now s).0; id = id_of event s }) stored
  unfolding ingest enrich
  ingest-IsSameEvent event s =
      let e1 = (enrich uc event s).0 in
      let want = record event { received_at = (uc.now s).0; id = id_of event s } in
      let e : e1 ≡ want = ground arith in
      (
        (redact uc.objects uc.redactor e1).1,
        (enrich uc event s).1,
        refl,
        subst (λ x. IsSameEvent x (redact uc.objects uc.redactor e1).1) e
            (redact-IsSameEvent uc.objects uc.redactor e1),
      )

-- ===== src/Tests/PiiTests.antt =====
-- The redactor's theorem at one object, the cache's at one key, the ingest use case's at one event.
use watch_tower.Common.{
  ℕ, ◌≡◌, refl, Bool, true, none, List, [], ◌∷◌, arith, Text, codes, ok, err, failure, text_eq,
  text_eq_iff, Result, if◌then◌else◌, ap,
}
use watch_tower.Common.Assoc.{Assoc, lookup, insert}
use watch_tower.Domain.{LogEvent, LogRepository}
use watch_tower.Pii.{ObjectCodec, Redactor, redact, redact_fields, store_metadata}
use watch_tower.Pii.Redaction.{ObjectLaws, IsRedacted, redact-IsRedacted}
use watch_tower.Ingest.{IngestLog, ingest}
use watch_tower.Ingest.Stored.{IsSameEvent, id_of, ingest-IsSameEvent}
use watch_tower.ApiKeys.{Repository, State, Env, live, is_valid}
use watch_tower.ApiKeys.Cache.{Answers, answer_is_cached}
use watch_tower.Tests.Data.{blank}

-- Objects are written as a field "f" with the value as the rest of the text.
abbrev encode : Assoc Text → Result Text
encode [] = err (failure (codes "empty"))
encode ((k, v) ∷ []) = if text_eq k (codes "f") then ok v else err (failure (codes "name"))
encode (p ∷ q ∷ m) = err (failure (codes "large"))

abbrev codec : ObjectCodec Text
codec = record { decode = λ t. ok ((codes "f", t) ∷ []); encode = encode; string = λ t. t }

same_object :
    (m : Assoc Text) (t : Text)
    → encode m ≡ ok t
    → (k : Text) → lookup k ((codes "f", t) ∷ []) ≡ lookup k m
unfolding lookup
same_object [] t h k = absurd (ground arith)
same_object ((j, v) ∷ []) t h k = ground (arith, text_eq_iff j (codes "f"))
same_object (p ∷ q ∷ m) t h k = absurd (ground arith)

laws : ObjectLaws codec
laws = record { round_trip = λ m t h. ((codes "f", t) ∷ [], refl, same_object m t h) }

abbrev event : LogEvent
event = record blank { metadata = codes "secret" }

abbrev redactor : Redactor
redactor = record { fields_to_redact = codes "g" ∷ codes "f" ∷ [] }

redacted :
    redact codec redactor event
    ≡ (ok tt, record event { metadata = codes "[REDACTED]"; pii_redacted = true })
unfolding redact redact_fields store_metadata lookup insert text_eq
redacted = refl

redact_succeeds : (redact codec redactor event).0 ≡ ok tt
redact_succeeds = ap (λ p. p.0) redacted

redact-IsRedacted_example :
    (m : Assoc Text) × (codec.decode event.metadata ≡ ok m)
    × IsRedacted codec redactor.fields_to_redact m event (redact codec redactor event).1
redact-IsRedacted_example = redact-IsRedacted codec laws redactor event refl refl redact_succeeds

-- A database that knows one key, and fails in the state `false`.
abbrev keys : Repository Bool
keys = record {
  query = λ k s. if s then (ok (text_eq k (codes "k")), s) else (err (failure (codes "down")), s);
  cache_ttl = 100;
  has_metrics = true;
}

abbrev cold : Bool → State Bool
cold up = record { cache = []; hits = 0; misses = 0; db = up }

abbrev at : ℕ → Env
at now = record { first = now; second = now; third = now; others = λ c. c }

cold_misses : (up : Bool) → live 1 (lookup (codes "k") (cold up).cache) ≡ none
unfolding live lookup
cold_misses up = refl

known : (keys.query (codes "k") true).0 ≡ ok true
unfolding text_eq
known = refl

answer_is_cached_example :
    Answers keys (at 50) (codes "k") (is_valid keys (at 1) (codes "k") (cold true)).1 true 101
answer_is_cached_example =
    answer_is_cached keys (at 1) (at 50) (codes "k") (cold true) true (cold_misses true)
      (cold_misses true) known (λ c. refl) (omega arith)

-- A repository that keeps what it buffers, and a use case over it with a fixed clock and id.
abbrev memory : LogRepository (List LogEvent)
memory = record {
  buffer_log = λ e s. (ok tt, e ∷ s);
  read_log_batch = λ _ _ _ s. (ok [], s);
  write_log_batch = λ _ s. (ok tt, s);
  acknowledge_logs = λ _ _ s. (ok tt, s);
  move_to_dlq = λ _ s. (ok tt, s);
}

abbrev use_case : IngestLog Text (List LogEvent)
use_case = record {
  repo = memory;
  redactor = redactor;
  objects = codec;
  now = λ s. (7, s);
  new_id = λ s. (codes "new", s);
}

ingest-IsSameEvent_example :
    (stored : LogEvent) × (s' : List LogEvent) × (ingest use_case event []
      ≡ memory.buffer_log stored s')
    × IsSameEvent (record event { received_at = 7; id = id_of use_case event [] }) stored
ingest-IsSameEvent_example = ingest-IsSameEvent use_case event []

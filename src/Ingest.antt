-- ===== src/Ingest.antt =====
-- internal/usecase/ingest_log.go.
pub mod Stored
use watch_tower.Common.{ℕ, if◌then◌else◌, Text, Op, is_empty}
use watch_tower.Domain.{LogEvent, LogRepository}
use watch_tower.Pii.{ObjectCodec, Redactor, redact}

-- `now` is time.Now().UTC(), and `new_id` uuid.NewString(); both act on the world.
pub record IngestLog (V S : Type 0) : Type 0 where
  pub repo : LogRepository S
  pub redactor : Redactor
  pub objects : ObjectCodec V
  pub now : S → ℕ × S
  pub new_id : S → Text × S

module _ {V S : Type 0} (uc : IngestLog V S) where
  -- Step 1: the time of arrival, and an id where the event has none.
  unfoldable pub enrich : LogEvent → S → LogEvent × S
  enrich event s =
      let (t, s1) = uc.now s in
      let stamped = record event { received_at = t } in
      if is_empty event.id
      then (let (id, s2) = uc.new_id s1 in (record stamped { id = id }, s2))
      else (stamped, s1)

  -- Steps 2 and 3: an error of the redactor is only logged.
  unfoldable pub ingest : LogEvent → Op S Unit
  unfolding enrich
  ingest event s =
      let (enriched, s1) = enrich event s in
      let (_, redacted) = redact uc.objects uc.redactor enriched in uc.repo.buffer_log redacted s1

-- ===== src/Sink.antt =====
-- internal/adapter/repository/postgres/log_repository.go: the sink of the consumer, over what it uses
-- of database/sql and lib/pq. The texts of the statements are those of the source.
pub mod Trace
pub mod Queue
pub mod Kept
use watch_tower.Common.{ℕ, List, [], ◌∷◌, Text, codes, Op, Done, ok, err, is_empty, if◌then◌else◌}
use watch_tower.Domain.{LogEvent}

-- A row of the temporary table: the seven columns.
pub record Row : Type 0 where
  pub event_id : Text
  pub received_at : ℕ
  pub event_time : ℕ
  pub source : Text
  pub level : Text
  pub message : Text
  pub metadata : Text

abbrev pub row_of : LogEvent → Row
row_of event = record {
  event_id = event.id;
  received_at = event.received_at;
  event_time = event.event_time;
  source = event.source;
  level = event.level;
  message = event.message;
  metadata = event.metadata;
}

abbrev pub temp_table_name : Text
temp_table_name = codes "logs_temp_import"

-- `upsert` merges the temporary table into the table logs; `close` ends the COPY.
pub record Db (S : Type 0) : Type 0 where
  pub begin_tx : Op S Unit
  pub create_temp : Text → Op S Unit
  pub prepare_copy : Text → Op S Unit
  pub copy_row : Row → Op S Unit
  pub close : Op S Unit
  pub upsert : Text → Op S Unit
  pub commit : Op S Unit
  pub rollback : Op S Unit

module _ {S : Type 0} (db : Db S) where
  -- The loop over the events; the error of a close behind a failing row is ignored.
  unfoldable pub copy_rows : List LogEvent → Op S Unit
  copy_rows [] s = (ok tt, s)
  copy_rows (event ∷ events) s =
      let (r, s1) = db.copy_row (row_of event) s in
      elim r [ err e ↦ let (_, s2) = db.close s1 in (err e, s2) | ok _ ↦ copy_rows events s1 ]

  unfoldable pub merge : Op S Unit
  merge s =
      let (c, s1) = db.close s in
      elim c [
        | err e ↦ (err e, s1)
        | ok _ ↦
            let (u, s2) = db.upsert temp_table_name s1 in
            elim u [ err e ↦ (err e, s2) | ok _ ↦ db.commit s2 ]
      ]

  unfoldable pub copy_and_merge : List LogEvent → Op S Unit
  copy_and_merge events s =
      let (r, s1) = copy_rows events s in elim r [ err e ↦ (err e, s1) | ok _ ↦ merge s1 ]

  -- The statements of WriteLogBatch within the transaction.
  unfoldable pub import_batch : List LogEvent → Op S Unit
  import_batch events s =
      let (t, s1) = db.create_temp temp_table_name s in
      elim t [
        | err e ↦ (err e, s1)
        | ok _ ↦
            let (p, s2) = db.prepare_copy temp_table_name s1 in
            elim p [ err e ↦ (err e, s2) | ok _ ↦ copy_and_merge events s2 ]
      ]

  -- WriteLogBatch. The deferred Rollback runs behind every end of the transaction, with its error
  -- ignored.
  unfoldable pub write_log_batch : List LogEvent → Op S Unit
  write_log_batch events s =
      if is_empty events
      then (ok tt, s)
      else (let (b, s1) = db.begin_tx s in
          elim b [
            | err e ↦ (err e, s1)
            | ok _ ↦ let (r, s2) = import_batch events s1 in let (_, s3) = db.rollback s2 in (r, s3)
          ])

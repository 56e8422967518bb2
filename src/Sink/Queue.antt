-- ===== src/Sink/Queue.antt =====
-- internal/adapter/repository/postgres/log_repository.go: the methods that make tables of the
-- database a buffer, over the statements that they send.
pub mod Claimed
pub mod Buried
use watch_tower.Common.{
  ℕ, false, List, [], ◌∷◌, map, Text, codes, Op, Done, Result, ok, err, is_empty, if◌then◌else◌,
}
use watch_tower.Domain.{LogEvent, LogRepository}
use watch_tower.Sink.{Row, row_of, Db, write_log_batch}

-- What rows.Next and rows.Scan yield, row by row, and what rows.Err returns behind the last.
pub record Rows : Type 0 where
  pub scanned : List (Result Row)
  pub end : Done

-- A row of log_dlq; failed_at is the database's now().
pub record DeadRow : Type 0 where
  pub id : Text
  pub reason : Text
  pub event_time : ℕ
  pub source : Text
  pub level : Text
  pub message : Text
  pub metadata : Text

abbrev pub dead_row : LogEvent → DeadRow
dead_row e = record {
  id = e.id;
  reason = codes "manual DLQ move";
  event_time = e.event_time;
  source = e.source;
  level = e.level;
  message = e.message;
  metadata = e.metadata;
}

-- `mark` sets the consumer group of a row, and stands, as `insert_dead` and `delete` do, within a
-- transaction.
pub record QueueDb (S : Type 0) : Type 0 where
  pub insert_buffer : Row → Op S Unit
  pub select_buffer : Text → ℕ → Op S Rows
  pub acknowledge : List Text → Text → Op S Unit
  pub begin_tx : Op S Unit
  pub mark : Text → Text → Op S Unit
  pub insert_dead : DeadRow → Op S Unit
  pub delete : Text → Op S Unit
  pub commit : Op S Unit
  pub rollback : Op S Unit

-- rows.Scan into a new LogEvent.
abbrev pub event_of : Row → LogEvent
event_of row = record {
  id = row.event_id;
  received_at = row.received_at;
  event_time = row.event_time;
  source = row.source;
  level = row.level;
  message = row.message;
  metadata = row.metadata;
  raw_event = [];
  pii_redacted = false;
  stream_message_id = [];
}

abbrev pub cons_result : {A : Type 0} → A → Result (List A) → Result (List A)
cons_result a (ok as') = ok (a ∷ as')
cons_result a (err e) = err e

-- The loop over the rows, with rows.Err behind it.
unfoldable pub collect : List (Result Row) → Done → Result (List LogEvent)
collect [] (ok _) = ok []
collect [] (err e) = err e
collect (err e ∷ rows) end = err e
collect (ok row ∷ rows) end = cons_result (event_of row) (collect rows end)

module _ {S : Type 0} (db : QueueDb S) where
  unfoldable pub buffer_log : LogEvent → Op S Unit
  buffer_log event s = db.insert_buffer (row_of event) s

  -- The loop that marks the rows; an error rolls the transaction back.
  unfoldable pub mark_rows : Text → List LogEvent → Op S Unit
  mark_rows group [] s = db.commit s
  mark_rows group (e ∷ es) s =
      let (r, s1) = db.mark group e.id s in
      elim r [ err x ↦ let (_, s2) = db.rollback s1 in (err x, s2) | ok _ ↦ mark_rows group es s1 ]

  unfoldable pub claim_rows : Text → List LogEvent → Op S (List LogEvent)
  unfolding mark_rows
  claim_rows group events s =
      if is_empty events
      then (ok events, s)
      else (let (b, s1) = db.begin_tx s in
          elim b [
            | err x ↦ (err x, s1)
            | ok _ ↦
                let (r, s2) = mark_rows group events s1 in
                elim r [ err x ↦ (err x, s2) | ok _ ↦ (ok events, s2) ]
          ])

  unfoldable pub read_log_batch : Text → Text → ℕ → Op S (List LogEvent)
  unfolding collect
  read_log_batch group consumer count s =
      let (q, s1) = db.select_buffer group count s in
      elim q [
        | err x ↦ (err x, s1)
        | ok rows ↦ elim (collect rows.scanned rows.end) [
          | err x ↦ (err x, s1)
          | ok events ↦ claim_rows group events s1
        ]
      ]

  unfoldable pub acknowledge_logs : Text → List Text → Op S Unit
  acknowledge_logs group ids s = if is_empty ids then (ok tt, s) else db.acknowledge ids group s

  -- The loop of MoveToDLQ; the error of the deletion is ignored.
  unfoldable pub bury_rows : List LogEvent → Op S Unit
  bury_rows [] s = db.commit s
  bury_rows (e ∷ es) s =
      let (r, s1) = db.insert_dead (dead_row e) s in
      elim r [
        | err x ↦ let (_, s2) = db.rollback s1 in (err x, s2)
        | ok _ ↦ let (_, s2) = db.delete e.id s1 in bury_rows es s2
      ]

  unfoldable pub move_to_dlq : List LogEvent → Op S Unit
  unfolding bury_rows
  move_to_dlq events s =
      if is_empty events
      then (ok tt, s)
      else (let (b, s1) = db.begin_tx s in
          elim b [ err x ↦ (err x, s1) | ok _ ↦ bury_rows events s1 ])

-- The repository that NewLogRepository returns.
abbrev pub log_repository : {S : Type 0} → Db S → QueueDb S → LogRepository S
log_repository db queue = record {
  buffer_log = buffer_log queue;
  read_log_batch = read_log_batch queue;
  write_log_batch = write_log_batch db;
  acknowledge_logs = acknowledge_logs queue;
  move_to_dlq = move_to_dlq queue;
}

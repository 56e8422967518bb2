-- ===== src/Consumer.antt =====
-- internal/usecase/process_logs.go: a batch is read from the buffer, written to the sink with
-- retries, moved to the dead-letter queue where that fails, and acknowledged.
pub mod Trace
pub mod Loop
use watch_tower.Common.{
  ℕ, zero, suc, ◌+◌, ◌-◌, ◌*◌, ◌^◌, List, [], ◌∷◌, map, ◌==◌, if◌then◌else◌, is_empty, length, Text,
  Op, Done, Result, ok, err, true, false,
}
use watch_tower.Domain.{LogEvent, LogRepository}

abbrev pub default_batch_size : ℕ
default_batch_size = 1000

-- `ctx_err` is ctx.Err(), and `wait` the select between a timer and ctx.Done(), which yields
-- ctx.Err() where the context ends first. A count below zero makes no attempt, as zero does.
pub record ProcessLogs (S : Type 0) : Type 0 where
  pub buffer_repo : LogRepository S
  pub sink_repo : LogRepository S
  pub ctx_err : Op S Unit
  pub wait : ℕ → Op S Unit
  pub group : Text
  pub consumer : Text
  pub retry_count : ℕ
  pub retry_backoff : ℕ

-- The loop that collects the ids of the messages.
abbrev pub message_ids : List LogEvent → List Text
message_ids = map (λ e. e.stream_message_id)

module _ {S : Type 0} (u : ProcessLogs S) where
  -- The loop of writeWithRetry with `left` rounds to go, in round `i`; `last` is lastErr. The delay
  -- is a product by a power of two, which float64 computes exactly below 2^53 ns.
  unfoldable pub attempts : List LogEvent → (left i : ℕ) → Done → Op S Unit
  attempts events zero i last s = (last, s)
  attempts events (suc left) i last s =
      let (r, s1) = u.sink_repo.write_log_batch events s in
      elim r [
        | ok _ ↦ (ok tt, s1)
        | err e ↦ elim (i == u.retry_count - 1) [
          | true ↦ (err e, s1)
          | false ↦
              let (c, s2) = u.ctx_err s1 in
              elim c [
                | err _ ↦ (err e, s2)
                | ok _ ↦
                    let (t, s3) = u.wait (u.retry_backoff * 2 ^ i) s2 in
                    elim t [ err d ↦ (err d, s3) | ok _ ↦ attempts events left (i + 1) (err e) s3 ]
              ]
        ]
      ]

  unfoldable pub write_with_retry : List LogEvent → Op S Unit
  write_with_retry events = attempts events u.retry_count 0 (ok tt)

  unfoldable pub acknowledge : List LogEvent → Op S ℕ
  acknowledge events s =
      let (a, s1) = u.buffer_repo.acknowledge_logs u.group (message_ids events) s in
      elim a [ err e ↦ (err e, s1) | ok _ ↦ (ok (length events), s1) ]

  -- ProcessBatch behind the write: the batch that was not written is moved to the DLQ first.
  unfoldable pub after_write : List LogEvent → Done × S → Result ℕ × S
  after_write events (ok _, s) = acknowledge events s
  after_write events (err _, s) =
      let (d, s1) = u.buffer_repo.move_to_dlq events s in
      elim d [ err e ↦ (err e, s1) | ok _ ↦ acknowledge events s1 ]

  -- ProcessBatch behind a read that returned events.
  unfoldable pub settle : List LogEvent → Op S ℕ
  settle events s = after_write events (write_with_retry events s)

  unfoldable pub process_batch : Op S ℕ
  process_batch s =
      let (b, s1) = u.buffer_repo.read_log_batch u.group u.consumer default_batch_size s in
      elim b [
        | err e ↦ (err e, s1)
        | ok events ↦ if is_empty events then (ok 0, s1) else settle events s1
      ]

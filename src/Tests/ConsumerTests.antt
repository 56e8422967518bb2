-- ===== src/Tests/ConsumerTests.antt =====
-- The consumer's theorems at a batch of one event, and the sink's.
use watch_tower.Common.{
  ℕ, zero, suc, ◌≡◌, refl, List, [], ◌∷◌, ◌++◌, arith, codes, ok, err, failure,
}
use watch_tower.Domain.{LogEvent, LogRepository}
use watch_tower.Consumer.{
  ProcessLogs, process_batch, write_with_retry, acknowledge, settle, after_write, attempts,
}
use watch_tower.Consumer.Trace.{Call, watch}
use watch_tower.Consumer.Trace.Settled.{IsSettled, process_batch-IsSettled}
use watch_tower.Consumer.Trace.Attempts.{
  IsBackedOff, write_with_retry-IsBackedOff, no_attempts_acknowledges,
}
use watch_tower.Sink.{Db, write_log_batch, import_batch, copy_and_merge, copy_rows, merge}
use watch_tower.Sink.Trace.{watch_db, IsAtomic, write_log_batch-IsAtomic}
use watch_tower.Tests.Data.{with_message}

abbrev hello : LogEvent
hello = with_message (codes "hi")

-- A buffer with one event, and a sink that fails `s` times. The state is what is left of them.
abbrev flaky : LogRepository ℕ
flaky = record {
  buffer_log = λ _ s. (ok tt, s);
  read_log_batch = λ _ _ _ s. (ok (hello ∷ []), s);
  write_log_batch =
      λ _ s. elim s [ zero ↦ (ok tt, zero) | suc n ↦ (err (failure (codes "down")), n) ];
  acknowledge_logs = λ _ _ s. (ok tt, s);
  move_to_dlq = λ _ s. (ok tt, s);
}

abbrev consumer : ℕ → ProcessLogs ℕ
consumer n = record {
  buffer_repo = flaky;
  sink_repo = flaky;
  ctx_err = λ s. (ok tt, s);
  wait = λ _ s. (ok tt, s);
  group = codes "g";
  consumer = codes "c";
  retry_count = n;
  retry_backoff = 100;
}

process_batch-IsSettled_example : IsSettled (process_batch (watch (consumer 3)) (2, [])).1.1
process_batch-IsSettled_example = process_batch-IsSettled (consumer 3) 2 [] (omega arith) tt

write_with_retry-IsBackedOff_example :
    (calls : List Call) × ((write_with_retry (watch (consumer 3)) (hello ∷ []) (2, [])).1.1
      ≡ calls ++ [])
    × IsBackedOff 100 3
        (hello ∷ [])
        (write_with_retry (watch (consumer 3)) (hello ∷ []) (2, [])).0
        calls
write_with_retry-IsBackedOff_example =
    write_with_retry-IsBackedOff (consumer 3) (hello ∷ []) 2 [] (omega arith)

no_attempts_acknowledges_example :
    process_batch (consumer 0) 1 ≡ acknowledge (consumer 0) (hello ∷ []) 1
no_attempts_acknowledges_example = no_attempts_acknowledges (consumer 0) 1 hello [] refl refl

-- Two failures are retried, three end in the dead-letter queue; both batches are acknowledged.
retried : process_batch (consumer 3) 2 ≡ (ok 1, 0)
unfolding process_batch settle write_with_retry attempts after_write acknowledge
retried = refl

given_up : write_with_retry (consumer 3) (hello ∷ []) 5 ≡ (err (failure (codes "down")), 2)
unfolding write_with_retry attempts
given_up = refl

-- A database that takes every statement; the state counts the statements.
abbrev database : Db ℕ
database = record {
  begin_tx = λ s. (ok tt, suc s);
  create_temp = λ _ s. (ok tt, suc s);
  prepare_copy = λ _ s. (ok tt, suc s);
  copy_row = λ _ s. (ok tt, suc s);
  close = λ s. (ok tt, suc s);
  upsert = λ _ s. (ok tt, suc s);
  commit = λ s. (ok tt, suc s);
  rollback = λ s. (err (failure (codes "done")), suc s);
}

write_log_batch-IsAtomic_example :
    IsAtomic database (hello ∷ []) [] (write_log_batch (watch_db database) (hello ∷ []) (0, []))
write_log_batch-IsAtomic_example = write_log_batch-IsAtomic database hello [] 0 []

one_transaction : (write_log_batch database (hello ∷ hello ∷ []) 0).1 ≡ 9
unfolding write_log_batch import_batch copy_and_merge copy_rows merge
one_transaction = refl

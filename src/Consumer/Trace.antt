-- ===== src/Consumer/Trace.antt =====
-- An observer of the consumer's calls: the same use case over a state with a record of the calls
-- made, the last one first (internal/usecase/process_logs.go).
pub mod Settled
pub mod Attempts
use watch_tower.Common.{ℕ, List, [], ◌∷◌, Text, Op, Done, Result, ok, err}
use watch_tower.Domain.{LogEvent, LogRepository}
use watch_tower.Consumer.{ProcessLogs}

pub data Call : Type 0 where
  read : Result (List LogEvent) → Call
  wrote : List LogEvent → Done → Call
  buried : List LogEvent → Done → Call
  acked : List Text → Done → Call
  asked : Done → Call  -- of the context, for its end
  waited : ℕ → Done → Call
  other : Call

abbrev pub Watched : Type 0 → Type 0
Watched S = S × List Call

-- A call, and its record with what it returned.
abbrev pub noted : {S A : Type 0} → (Result A → Call) → Op S A → Op (Watched S) A
noted c m (s, t) = let (r, s') = m s in (r, (s', c r ∷ t))

abbrev pub watch_repo : {S : Type 0} → LogRepository S → LogRepository (Watched S)
watch_repo repo = record {
  buffer_log = λ e. noted (λ _. other) (repo.buffer_log e);
  read_log_batch = λ g c n. noted read (repo.read_log_batch g c n);
  write_log_batch = λ es. noted (wrote es) (repo.write_log_batch es);
  acknowledge_logs = λ g ids. noted (acked ids) (repo.acknowledge_logs g ids);
  move_to_dlq = λ es. noted (buried es) (repo.move_to_dlq es);
}

abbrev pub watch : {S : Type 0} → ProcessLogs S → ProcessLogs (Watched S)
watch u = record {
  buffer_repo = watch_repo u.buffer_repo;
  sink_repo = watch_repo u.sink_repo;
  ctx_err = noted asked u.ctx_err;
  wait = λ d. noted (waited d) (u.wait d);
  group = u.group;
  consumer = u.consumer;
  retry_count = u.retry_count;
  retry_backoff = u.retry_backoff;
}

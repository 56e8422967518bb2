-- ===== src/Consumer/Trace/Attempts.antt =====
-- The attempts, their number and the delays between them (internal/usecase/process_logs.go).
use mathlib.Core.Path.{subst}
use watch_tower.Common.{
  ℕ, zero, suc, ◌+◌, ◌-◌, ◌*◌, ◌^◌, ◌<◌, ◌≡◌, refl, sym, ap, ◌∙◌, inl, inr, List, [], ◌∷◌, ◌++◌,
  length, Done, Error, Result-cases, Bool-cases, ok, err, arith, ◌==◌,
}
use watch_tower.Domain.{LogEvent}
use watch_tower.Consumer.{
  ProcessLogs, attempts, write_with_retry, acknowledge, settle, process_batch, after_write,
  default_batch_size,
}
use watch_tower.Consumer.Trace.{Call, wrote, waited, asked, Watched, watch}

-- The rounds that met these errors of the sink, the last one first, and whose waits ran to their
-- ends: an attempt, a look at the context, and the wait, of b, 2b, 4b, ...
pub rounds : ℕ → List LogEvent → List Error → List Call
rounds b es [] = []
rounds b es (x ∷ xs) =
    waited (b * 2 ^ length xs) (ok tt) ∷ asked (ok tt) ∷ wrote es (err x) ∷ rounds b es xs

-- A result of at most `limit` attempts, with all the calls that led to it, the last one first.
pub data IsBackedOff (b limit : ℕ) (es : List LogEvent) : Done → List Call → Type 0 where
  written :
      (xs : List Error)
      → length xs < limit
      → IsBackedOff b limit es (ok tt) (wrote es (ok tt) ∷ rounds b es xs)
  given_up :
      (xs : List Error) (x : Error)
      → length xs + 1 ≡ limit
      → IsBackedOff b limit es (err x) (wrote es (err x) ∷ rounds b es xs)
  ended :
      (xs : List Error) (x y : Error)
      → length xs + 1 < limit
      → IsBackedOff b limit es (err x) (asked (err y) ∷ wrote es (err x) ∷ rounds b es xs)
  interrupted :
      (xs : List Error) (x y : Error)
      → length xs + 1 < limit
      → IsBackedOff b limit es
          (err y)
          (waited (b * 2 ^ length xs) (err y) ∷ asked (ok tt) ∷ wrote es (err x) ∷ rounds b es xs)

module _ {S : Type 0} (u : ProcessLogs S) (es : List LogEvent) (t : List Call) where
  -- A run from the record `t`, and the calls that it added.
  abbrev pub BacksOff : Done × Watched S → Type 0
  BacksOff go =
      (calls : List Call) × (go.1.1 ≡ calls ++ t)
      × IsBackedOff u.retry_backoff u.retry_count es go.0 calls

  ends_with :
      (go : Done × Watched S) (r : Done) (s' : S) (calls : List Call)
      → go ≡ (r, (s', calls ++ t))
      → IsBackedOff u.retry_backoff u.retry_count es r calls
      → BacksOff go
  ends_with go r s' calls e h = (
    calls,
    ap (λ q. q.1.1) e,
    subst (λ d. IsBackedOff u.retry_backoff u.retry_count es d calls) (sym (ap (λ q. q.0) e)) h,
  )

  attempts-BacksOff :
      (left i : ℕ) (xs : List Error) (last : Done) (s : S)
      → i ≡ length xs
      → i + left ≡ u.retry_count
      → i < u.retry_count
      → BacksOff (attempts (watch u) es left i last (s, rounds u.retry_backoff es xs ++ t))
  unfolding attempts rounds
  attempts-BacksOff zero i xs last s at sum lt = absurd (omega arith)
  attempts-BacksOff (suc left) i xs last s at sum lt =
      let before = rounds u.retry_backoff es xs in
      let go = attempts (watch u) es (suc left) i last (s, before ++ t) in
      let (r, s1) = u.sink_repo.write_log_batch es s in
      let (c, s2) = u.ctx_err s1 in
      let delay = u.retry_backoff * 2 ^ i in
      let same : delay ≡ u.retry_backoff * 2 ^ length xs = ap (λ j. u.retry_backoff * 2 ^ j) at in
      let (w, s3) = u.wait delay s2 in
      elim (Result-cases r) [
        | inl (_, stored) ↦
            ends_with go (ok tt) s1 (wrote es (ok tt) ∷ before) (ground arith)
              (written xs (omega arith))
        | inr (x, failed) ↦ elim (Bool-cases (i == u.retry_count - 1)) [
          | inl final ↦
              ends_with go (err x) s1 (wrote es (err x) ∷ before) (ground arith)
                (given_up xs x (ground arith))
          | inr more ↦
              let bound : length xs + 1 < u.retry_count = ground arith in
              elim (Result-cases c) [
                | inr (y, over) ↦
                    ends_with go (err x) s2 (asked (err y) ∷ wrote es (err x) ∷ before)
                      (ground arith) (ended xs x y bound)
                | inl (_, running) ↦ elim (Result-cases w) [
                  | inr (d, stopped) ↦
                      let calls =
                        waited (u.retry_backoff * 2 ^ length xs) (err d)
                        ∷ asked (ok tt)
                        ∷ wrote es (err x)
                        ∷ before in
                      ends_with go (err d) s3 calls (ground (arith, same))
                        (interrupted xs x d bound)
                  | inl (_, woken) ↦
                      let e : go
                          ≡ attempts (watch u) es left (i + 1) (err x)
                              (s3, rounds u.retry_backoff es (x ∷ xs) ++ t) =
                        ground (arith, same) in
                      subst BacksOff (sym e) (
                        attempts-BacksOff left (i + 1) (x ∷ xs) (err x) s3 (omega arith)
                          (omega arith) (omega arith))
                ]
              ]
        ]
      ]

module _ {S : Type 0} (u : ProcessLogs S) where
  -- Whatever the sink, the context and the clock answer, with at least one attempt configured, the
  -- write with retries adds to the record exactly these calls: some rounds of an attempt that failed,
  -- a look at the context, which has not ended, and a wait to its end, of the configured backoff in
  -- the first round and twice the wait before in each further one; and then an attempt that succeeds,
  -- behind fewer failed rounds than the configured count, and the result is no error; or the attempt
  -- that makes up the configured count and fails, and the result is its error; or an attempt that
  -- fails while more are left, with the error of that attempt where the context is found ended behind
  -- it, and with that of the context where it ends the wait.
  pub write_with_retry-IsBackedOff :
      (es : List LogEvent) (s : S) (t : List Call)
      → 0 < u.retry_count
      → (calls : List Call) × ((write_with_retry (watch u) es (s, t)).1.1 ≡ calls ++ t)
        × IsBackedOff u.retry_backoff u.retry_count es
            (write_with_retry (watch u) es (s, t)).0
            calls
  unfolding write_with_retry rounds
  write_with_retry-IsBackedOff es s t positive =
      attempts-BacksOff u es t u.retry_count 0 [] (ok tt) s (omega arith) (omega arith) positive

  no_attempts :
      (es : List LogEvent) (n i : ℕ) (last : Done) (s : S)
      → n ≡ 0
      → attempts u es n i last s ≡ (last, s)
  unfolding attempts
  no_attempts es zero i last s h = refl
  no_attempts es (suc n) i last s h = absurd (omega arith)

  -- With a retry count of zero `ProcessBatch` does with a batch that it read nothing but acknowledge
  -- it: it returns what the acknowledgement returns, and makes no attempt to write the batch and no
  -- move to the dead-letter queue.
  pub no_attempts_acknowledges :
      (s : S) (e : LogEvent) (es : List LogEvent)
      → u.retry_count ≡ 0
      → (u.buffer_repo.read_log_batch u.group u.consumer default_batch_size s).0 ≡ ok (e ∷ es)
      → process_batch u s
        ≡ acknowledge u
            (e ∷ es)
            (u.buffer_repo.read_log_batch u.group u.consumer default_batch_size s).1
  unfolding process_batch settle write_with_retry after_write
  no_attempts_acknowledges s e es none_left got =
      let s1 = (u.buffer_repo.read_log_batch u.group u.consumer default_batch_size s).1 in
      let through : settle u (e ∷ es) s1 ≡ acknowledge u (e ∷ es) s1 =
        ap (after_write u (e ∷ es)) (no_attempts (e ∷ es) u.retry_count 0 (ok tt) s1 none_left) in
      let reached : process_batch u s ≡ settle u (e ∷ es) s1 = ground arith in reached ∙ through

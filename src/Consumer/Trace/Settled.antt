-- ===== src/Consumer/Trace/Settled.antt =====
-- No event is acknowledged before it is stored (internal/usecase/process_logs.go).
use watch_tower.Common.{
  ℕ, zero, suc, ◌+◌, ◌-◌, ◌*◌, ◌^◌, ◌<◌, ◌≡◌, ◌⊎◌, inl, inr, refl, List, [], ◌∷◌, Done,
  Result-cases, Bool-cases, ok, err, arith, is_empty, ◌==◌,
}
use watch_tower.Domain.{LogEvent}
use watch_tower.Consumer.{
  ProcessLogs, attempts, write_with_retry, message_ids, acknowledge, settle, process_batch,
  after_write, default_batch_size,
}
use watch_tower.Consumer.Trace.{Call, read, wrote, buried, acked, waited, asked, Watched, watch}

-- Among these calls, the batch was written to the sink or moved to the dead-letter queue without
-- an error.
abbrev pub IsStored : List LogEvent → List Call → Type 0
IsStored es [] = ⊥
IsStored es (wrote fs (ok _) ∷ t) = (fs ≡ es) ⊎ IsStored es t
IsStored es (buried fs (ok _) ∷ t) = (fs ≡ es) ⊎ IsStored es t
IsStored es (_ ∷ t) = IsStored es t

-- Each acknowledgement in the record is of the events of a batch that was stored before it.
abbrev pub IsSettled : List Call → Type 0
IsSettled [] = Unit
IsSettled (acked ids _ ∷ t) =
    ((es : List LogEvent) × (ids ≡ message_ids es) × IsStored es t) × IsSettled t
IsSettled (_ ∷ t) = IsSettled t

-- A call that keeps what is settled, and stores the batch if it succeeds.
abbrev Stores : {S : Type 0} → List LogEvent → Done × Watched S → Type 0
Stores es (ok _, (s, t)) = IsSettled t × IsStored es t
Stores es (err _, (s, t)) = IsSettled t

module _ {S : Type 0} (u : ProcessLogs S) where
  attempts-Stores :
      (es : List LogEvent) (left i : ℕ) (last : Done) (s : S) (t : List Call)
      → IsSettled t
      → (left ≡ 0 → Stores es (last, (s, t)))
      → Stores es (attempts (watch u) es left i last (s, t))
  unfolding attempts
  attempts-Stores es zero i last s t h base = base refl
  attempts-Stores es (suc left) i last s t h base =
      let go = attempts (watch u) es (suc left) i last (s, t) in
      let (r, s1) = u.sink_repo.write_log_batch es s in
      let (c, s2) = u.ctx_err s1 in
      let delay = u.retry_backoff * 2 ^ i in
      let (w, s3) = u.wait delay s2 in
      elim (Result-cases r) [
        | inl (_, written) ↦
            let e : go ≡ (ok tt, (s1, wrote es (ok tt) ∷ t)) = ground arith in rw e (h, inl refl)
        | inr (x, failed) ↦ elim (Bool-cases (i == u.retry_count - 1)) [
          | inl final ↦ let e : go ≡ (err x, (s1, wrote es (err x) ∷ t)) = ground arith in rw e h
          | inr more ↦ elim (Result-cases c) [
            | inr (y, ended) ↦
                let e : go ≡ (err x, (s2, asked (err y) ∷ wrote es (err x) ∷ t)) = ground arith in
                rw e h
            | inl (_, running) ↦
                let calls = waited delay w ∷ asked (ok tt) ∷ wrote es (err x) ∷ t in
                elim (Result-cases w) [
                  | inr (d, stopped) ↦ let e : go ≡ (err d, (s3, calls)) = ground arith in rw e h
                  | inl (_, woken) ↦
                      let e : go ≡ attempts (watch u) es left (i + 1) (err x) (s3, calls) =
                        ground arith in
                      rw e (attempts-Stores es left (i + 1) (err x) s3 calls h (λ _. h))
                ]
          ]
        ]
      ]

  write_with_retry-Stores :
      (es : List LogEvent) (s : S) (t : List Call)
      → 0 < u.retry_count
      → IsSettled t
      → Stores es (write_with_retry (watch u) es (s, t))
  unfolding write_with_retry
  write_with_retry-Stores es s t positive h =
      attempts-Stores es u.retry_count 0 (ok tt) s t h (λ z. absurd (omega arith))

  acknowledge-IsSettled :
      (es : List LogEvent) (s : S) (t : List Call)
      → IsSettled t
      → IsStored es t
      → IsSettled (acknowledge (watch u) es (s, t)).1.1
  unfolding acknowledge
  acknowledge-IsSettled es s t h stored =
      let (a, s1) = u.buffer_repo.acknowledge_logs u.group (message_ids es) s in
      let e : (acknowledge (watch u) es (s, t)).1.1 ≡ acked (message_ids es) a ∷ t = ground arith in
      rw e ((es, refl, stored), h)

  after_write-IsSettled :
      (es : List LogEvent) (p : Done × Watched S)
      → Stores es p
      → IsSettled (after_write (watch u) es p).1.1
  unfolding after_write
  after_write-IsSettled es (ok _, (s, t)) stores = acknowledge-IsSettled es s t stores.0 stores.1
  after_write-IsSettled es (err x, (s, t)) stores =
      let (d, s1) = u.buffer_repo.move_to_dlq es s in
      let after = after_write (watch u) es (err x, (s, t)) in
      elim (Result-cases d) [
        | inl (_, moved) ↦
            let e : after ≡ acknowledge (watch u) es (s1, buried es (ok tt) ∷ t) = ground arith in
            rw e (acknowledge-IsSettled es s1 (buried es (ok tt) ∷ t) stores (inl refl))
        | inr (y, refused) ↦ let e : after.1.1 ≡ buried es (err y) ∷ t = ground arith in rw e stores
      ]

  -- Whatever the repositories, the context and the clock answer, if at least one attempt is
  -- configured, then `ProcessBatch` keeps this true of the record of calls: messages are
  -- acknowledged only as the whole of a batch that was written to the sink, or moved to the
  -- dead-letter queue, without an error before.
  pub process_batch-IsSettled :
      (s : S) (t : List Call)
      → 0 < u.retry_count
      → IsSettled t
      → IsSettled (process_batch (watch u) (s, t)).1.1
  unfolding process_batch settle
  process_batch-IsSettled s t positive h =
      let (b, s1) = u.buffer_repo.read_log_batch u.group u.consumer default_batch_size s in
      let run = process_batch (watch u) (s, t) in
      elim (Result-cases b) [
        | inr (x, failed) ↦ let e : run.1.1 ≡ read (err x) ∷ t = ground arith in rw e h
        | inl (es, got) ↦ elim (Bool-cases (is_empty es)) [
          | inl nothing ↦ let e : run.1.1 ≡ read (ok es) ∷ t = ground arith in rw e h
          | inr some_events ↦
              let p = write_with_retry (watch u) es (s1, read (ok es) ∷ t) in
              let e : run ≡ after_write (watch u) es p = ground arith in
              rw e (
                after_write-IsSettled es p
                  (write_with_retry-Stores es s1 (read (ok es) ∷ t) positive h))
        ]
      ]

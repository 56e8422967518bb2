-- ===== src/Consumer/Loop/Drained.antt =====
-- The loop drains a buffer that is served (cmd/consumer/main.go and internal/usecase/process_logs.go).
use mathlib.Core.Path.{subst}
use watch_tower.Common.{
  ℕ, zero, suc, ◌+◌, ◌-◌, ◌*◌, ◌^◌, ◌≤◌, ◌≡◌, refl, sym, ap, ◌∙◌, inl, inr, List, [], ◌∷◌, ◌++◌,
  arith, length, take, Text, Done, Result-cases, Bool-cases, ◌==◌, ok, err, append_assoc,
  append-nil,
}
use watch_tower.Domain.{LogEvent}
use watch_tower.Consumer.{
  ProcessLogs, attempts, write_with_retry, message_ids, acknowledge, settle, process_batch,
  after_write, default_batch_size,
}
use watch_tower.Consumer.Loop.{Turn, tick, work}

abbrev pub drop {ℓ} : {A : Type ℓ} → ℕ → List A → List A
drop zero xs = xs
drop (suc n) [] = []
drop (suc n) (x ∷ xs) = drop n xs

length-drop {ℓ} : {A : Type ℓ} (n : ℕ) (xs : List A) → length (drop n xs) ≡ length xs - n
length-drop zero xs = omega arith
length-drop (suc n) [] = omega arith
length-drop (suc n) (x ∷ xs) = omega (arith, length-drop n xs)

message_ids-split :
    (n : ℕ) (es : List LogEvent)
    → message_ids (take n es) ++ message_ids (drop n es) ≡ message_ids es
message_ids-split zero es = refl
message_ids-split (suc n) [] = refl
message_ids-split (suc n) (e ∷ es) = ap (◌∷◌ e.stream_message_id) (message_ids-split n es)

nothing {ℓ} : {A : Type ℓ} (xs : List A) → length xs ≤ 0 → xs ≡ []
nothing [] h = refl
nothing (x ∷ xs) h = absurd (omega arith)

-- The group that the worker reads from while it is served: `is_at es ids s` says that it is in `s`,
-- with the events `es` not delivered yet, and the messages with `ids` acknowledged.
pub record Group {S : Type 0} (u : ProcessLogs S) : Type 1 where
  pub is_at : List LogEvent → List Text → S → Type 0
  pub reads :
      (n : ℕ) (es : List LogEvent) (ids : List Text) (s : S)
      → is_at es ids s
      → ((u.buffer_repo.read_log_batch u.group u.consumer n s).0 ≡ ok (take n es))
        × is_at (drop n es) ids (u.buffer_repo.read_log_batch u.group u.consumer n s).1
  pub acks :
      (new : List Text) (es : List LogEvent) (ids : List Text) (s : S)
      → is_at es ids s
      → ((u.buffer_repo.acknowledge_logs u.group new s).0 ≡ ok tt)
        × is_at es (ids ++ new) (u.buffer_repo.acknowledge_logs u.group new s).1
  pub moves :
      (batch es : List LogEvent) (ids : List Text) (s : S)
      → is_at es ids s
      → ((u.buffer_repo.move_to_dlq batch s).0 ≡ ok tt)
        × is_at es ids (u.buffer_repo.move_to_dlq batch s).1
  pub writes :
      (batch es : List LogEvent) (ids : List Text) (s : S)
      → is_at es ids s
      → is_at es ids (u.sink_repo.write_log_batch batch s).1
  pub asks :
      (es : List LogEvent) (ids : List Text) (s : S) → is_at es ids s → is_at es ids (u.ctx_err s).1
  pub waits :
      (d : ℕ) (es : List LogEvent) (ids : List Text) (s : S)
      → is_at es ids s
      → is_at es ids (u.wait d s).1

module _ {S : Type 0} (u : ProcessLogs S) (g : Group u) (es : List LogEvent) (ids : List Text) where
  attempts-is_at :
      (batch : List LogEvent) (left i : ℕ) (last : Done) (s : S)
      → g.is_at es ids s
      → g.is_at es ids (attempts u batch left i last s).1
  unfolding attempts
  attempts-is_at batch zero i last s h = h
  attempts-is_at batch (suc left) i last s h =
      let go = attempts u batch (suc left) i last s in
      let (r, s1) = u.sink_repo.write_log_batch batch s in
      let h1 = g.writes batch es ids s h in
      let (c, s2) = u.ctx_err s1 in
      let h2 = g.asks es ids s1 h1 in
      let delay = u.retry_backoff * 2 ^ i in
      let (w, s3) = u.wait delay s2 in
      let h3 = g.waits delay es ids s2 h2 in
      let at : (s' : S) → g.is_at es ids s' → go.1 ≡ s' → g.is_at es ids go.1 =
        λ s' h' e. subst (g.is_at es ids) (sym e) h' in
      elim (Result-cases r) [
        | inl (_, written) ↦ at s1 h1 (ground arith)
        | inr (x, failed) ↦ elim (Bool-cases (i == u.retry_count - 1)) [
          | inl final ↦ at s1 h1 (ground arith)
          | inr more ↦ elim (Result-cases c) [
            | inr (y, ended) ↦ at s2 h2 (ground arith)
            | inl (_, running) ↦ elim (Result-cases w) [
              | inr (d, stopped) ↦ at s3 h3 (ground arith)
              | inl (_, woken) ↦
                  at _ (attempts-is_at batch left (i + 1) (err x) s3 h3) (ground arith)
            ]
          ]
        ]
      ]

  -- Behind a batch that was read, its ids are acknowledged, one for each event.
  acknowledge-is_at :
      (batch : List LogEvent) (s : S)
      → g.is_at es ids s
      → g.is_at es (ids ++ message_ids batch) (acknowledge u batch s).1
  unfolding acknowledge
  acknowledge-is_at batch s h =
      let (done, h') = g.acks (message_ids batch) es ids s h in
      let e : (acknowledge u batch s).1
          ≡ (u.buffer_repo.acknowledge_logs u.group (message_ids batch) s).1 =
        ground (arith, done) in
      subst (g.is_at es (ids ++ message_ids batch)) (sym e) h'

  after_write-is_at :
      (batch : List LogEvent) (p : Done × S)
      → g.is_at es ids p.1
      → g.is_at es (ids ++ message_ids batch) (after_write u batch p).1
  unfolding after_write
  after_write-is_at batch (ok _, s) h = acknowledge-is_at batch s h
  after_write-is_at batch (err x, s) h =
      let (done, h') = g.moves batch es ids s h in
      let s1 = (u.buffer_repo.move_to_dlq batch s).1 in
      let e : after_write u batch (err x, s) ≡ acknowledge u batch s1 = ground (arith, done) in
      subst (λ p. g.is_at es (ids ++ message_ids batch) p.1) (sym e) (acknowledge-is_at batch s1 h')

  settle-is_at :
      (batch : List LogEvent) (s : S)
      → g.is_at es ids s
      → g.is_at es (ids ++ message_ids batch) (settle u batch s).1
  unfolding settle write_with_retry
  settle-is_at batch s h =
      after_write-is_at batch (attempts u batch u.retry_count 0 (ok tt) s)
        (attempts-is_at batch u.retry_count 0 (ok tt) s h)

  -- What follows the read of these events.
  read-is_at :
      (batch : List LogEvent) (s s1 : S)
      → u.buffer_repo.read_log_batch u.group u.consumer default_batch_size s ≡ (ok batch, s1)
      → g.is_at es ids s1
      → g.is_at es (ids ++ message_ids batch) (process_batch u s).1
  unfolding process_batch
  read-is_at [] s s1 got h =
      let e : (process_batch u s).1 ≡ s1 = ground (arith, got) in
      subst (λ l. g.is_at es l (process_batch u s).1) (sym (append-nil ids))
        (subst (g.is_at es ids) (sym e) h)
  read-is_at (x ∷ xs) s s1 got h =
      let e : process_batch u s ≡ settle u (x ∷ xs) s1 = ground (arith, got) in
      subst (λ p. g.is_at es (ids ++ message_ids (x ∷ xs)) p.1) (sym e) (settle-is_at (x ∷ xs) s1 h)

abbrev pub ticks : ℕ → List Turn
ticks zero = []
ticks (suc k) = tick ∷ ticks k

module _ {S : Type 0} (u : ProcessLogs S) (g : Group u) where
  process_batch-is_at :
      (es : List LogEvent) (ids : List Text) (s : S)
      → g.is_at es ids s
      → g.is_at
          (drop default_batch_size es)
          (ids ++ message_ids (take default_batch_size es))
          (process_batch u s).1
  process_batch-is_at es ids s h =
      let n = default_batch_size in
      let (reply, h1) = g.reads n es ids s h in
      let s1 = (u.buffer_repo.read_log_batch u.group u.consumer n s).1 in
      read-is_at u g (drop n es) ids (take n es) s s1 (ap (λ r. (r, s1)) reply) h1

  -- While it is served, a backlog of n events is empty after k ticks with n ≤ 1000 k.
  pub work-is_at :
      (k : ℕ) (es : List LogEvent) (ids : List Text) (s : S)
      → length es ≤ default_batch_size * k
      → g.is_at es ids s
      → g.is_at [] (ids ++ message_ids es) (work u (ticks k) s).1
  unfolding work
  work-is_at zero es ids s few h =
      let e = nothing es few in
      let same : ids ≡ ids ++ message_ids es =
        sym (ap (λ l. ids ++ message_ids l) e ∙ append-nil ids) in
      subst (λ l. g.is_at [] l s) same (subst (λ l. g.is_at l ids s) e h)
  work-is_at (suc k) es ids s few h =
      let n = default_batch_size in
      let now = message_ids (take n es) in
      let later = message_ids (drop n es) in
      let rest =
        work-is_at k (drop n es) (ids ++ now) (process_batch u s).1
          (omega (arith, length-drop n es)) (process_batch-is_at es ids s h) in
      let same : (ids ++ now) ++ later ≡ ids ++ message_ids es =
        append_assoc ids now later ∙ ap (λ l. ids ++ l) (message_ids-split n es) in
      subst (λ l. g.is_at [] l (work u (ticks (suc k)) s).1) same rest

-- ===== src/Sink/Queue/Claimed.antt =====
-- What the buffer's transactions do with a batch
-- (internal/adapter/repository/postgres/log_repository.go).
use watch_tower.Common.{
  ℕ, ◌≡◌, refl, Bool, true, false, List, [], ◌∷◌, Text, Op, Done, Result, Result-cases, inl, inr,
  ok, err, arith,
}
use watch_tower.Domain.{LogEvent}
use watch_tower.Sink.Queue.{DeadRow, QueueDb, collect, mark_rows, claim_rows, read_log_batch}

-- A statement within a transaction, with what it returned; the other statements stand alone.
pub data Statement : Type 0 where
  began committed rolled_back : Done → Statement
  marked : Text → Text → Done → Statement
  buried : DeadRow → Done → Statement
  deleted : Text → Done → Statement

abbrev pub Watched : Type 0 → Type 0
Watched S = S × List Statement

-- A statement, and its record in front of the earlier ones.
abbrev noted : {S A : Type 0} → (Result A → Statement) → Op S A → Op (Watched S) A
noted c m (s, t) = let (r, s') = m s in (r, (s', c r ∷ t))

abbrev silent : {S A : Type 0} → Op S A → Op (Watched S) A
silent m (s, t) = let (r, s') = m s in (r, (s', t))

abbrev pub watch_queue : {S : Type 0} → QueueDb S → QueueDb (Watched S)
watch_queue db = record {
  insert_buffer = λ row. silent (db.insert_buffer row);
  select_buffer = λ group count. silent (db.select_buffer group count);
  acknowledge = λ ids group. silent (db.acknowledge ids group);
  begin_tx = noted began db.begin_tx;
  mark = λ group id. noted (marked group id) (db.mark group id);
  insert_dead = λ row. noted (buried row) (db.insert_dead row);
  delete = λ id. noted (deleted id) (db.delete id);
  commit = noted committed db.commit;
  rollback = noted rolled_back db.rollback;
}

-- A transaction was committed without an error.
abbrev pub has_commit : List Statement → Bool
has_commit [] = false
has_commit (committed (ok _) ∷ t) = true
has_commit (_ ∷ t) = has_commit t

-- The record behind the marks of these events.
abbrev pub after_marks : Text → List LogEvent → List Statement → List Statement
after_marks group [] t = t
after_marks group (e ∷ es) t = after_marks group es (marked group e.id (ok tt) ∷ t)

-- The record behind a transaction that claims these events; with none there is no transaction.
abbrev pub after_claim : Text → List LogEvent → List Statement → List Statement
after_claim group [] t = t
after_claim group (e ∷ es) t = committed (ok tt) ∷ after_marks group (e ∷ es) (began (ok tt) ∷ t)

module _ {S : Type 0} (db : QueueDb S) where
  -- What the record is behind a read: events are handed out only marked and committed, and an
  -- error commits nothing.
  abbrev pub IsClaimed : Text → List Statement → Result (List LogEvent) × Watched S → Type 0
  IsClaimed group t (ok es, (s, t')) = t' ≡ after_claim group es t
  IsClaimed group t (err _, (s, t')) = has_commit t' ≡ has_commit t

  -- The same of the loop that marks them.
  abbrev Marks : List Statement → List Statement → Done × Watched S → Type 0
  Marks want t (ok _, (s, t')) = t' ≡ committed (ok tt) ∷ want
  Marks want t (err _, (s, t')) = has_commit t' ≡ has_commit t

  mark_rows-Marks :
      (group : Text) (es : List LogEvent) (s : S) (t t0 : List Statement)
      → has_commit t ≡ has_commit t0
      → Marks (after_marks group es t) t0 (mark_rows (watch_queue db) group es (s, t))
  unfolding mark_rows
  mark_rows-Marks group [] s t t0 same =
      let go = mark_rows (watch_queue db) group [] (s, t) in
      let (c, s1) = db.commit s in
      elim (Result-cases c) [
        | inl (_, done) ↦
            let e : go ≡ (ok tt, (s1, committed (ok tt) ∷ t)) = ground arith in rw e refl
        | inr (x, failed) ↦
            let e : go ≡ (err x, (s1, committed (err x) ∷ t)) = ground arith in rw e same
      ]
  mark_rows-Marks group (event ∷ es) s t t0 same =
      let go = mark_rows (watch_queue db) group (event ∷ es) (s, t) in
      let (m, s1) = db.mark group event.id s in
      elim (Result-cases m) [
        | inl (_, done) ↦
            let t1 = marked group event.id (ok tt) ∷ t in
            let e : go ≡ mark_rows (watch_queue db) group es (s1, t1) = ground arith in
            rw e (mark_rows-Marks group es s1 t1 t0 same)
        | inr (x, failed) ↦
            let (b, s2) = db.rollback s1 in
            let e : go ≡ (err x, (s2, rolled_back b ∷ marked group event.id (err x) ∷ t)) =
              ground arith in
            rw e same
      ]

  marked-IsClaimed :
      (group : Text) (event : LogEvent) (es : List LogEvent) (t : List Statement)
      (p : Done × Watched S)
      → Marks (after_marks group (event ∷ es) (began (ok tt) ∷ t)) t p
      → IsClaimed group t (elim p.0 [ err x ↦ (err x, p.1) | ok _ ↦ (ok (event ∷ es), p.1) ])
  marked-IsClaimed group event es t (ok _, (s, t')) h = h
  marked-IsClaimed group event es t (err x, (s, t')) h = h

  claim_rows-IsClaimed :
      (group : Text) (es : List LogEvent) (s : S) (t : List Statement)
      → IsClaimed group t (claim_rows (watch_queue db) group es (s, t))
  unfolding claim_rows
  claim_rows-IsClaimed group [] s t = refl
  claim_rows-IsClaimed group (event ∷ es) s t =
      let go = claim_rows (watch_queue db) group (event ∷ es) (s, t) in
      let (b, s1) = db.begin_tx s in
      elim (Result-cases b) [
        | inr (x, failed) ↦
            let e : go ≡ (err x, (s1, began (err x) ∷ t)) = ground arith in rw e refl
        | inl (_, under_way) ↦
            let t1 = began (ok tt) ∷ t in
            let p = mark_rows (watch_queue db) group (event ∷ es) (s1, t1) in
            let e : go ≡ elim p.0 [ err x ↦ (err x, p.1) | ok _ ↦ (ok (event ∷ es), p.1) ] =
              ground arith in
            rw e (
              marked-IsClaimed group event es t p (mark_rows-Marks group (event ∷ es) s1 t1 t refl))
      ]

  -- Whatever the database answers, a `ReadLogBatch` that returns events has marked each of them
  -- for its group, in one transaction that was committed, and has made no other transaction; one
  -- that returns an error has had no commit that succeeded.
  pub read_log_batch-IsClaimed :
      (group consumer : Text) (count : ℕ) (s : S) (t : List Statement)
      → IsClaimed group t (read_log_batch (watch_queue db) group consumer count (s, t))
  unfolding read_log_batch
  read_log_batch-IsClaimed group consumer count s t =
      let go = read_log_batch (watch_queue db) group consumer count (s, t) in
      let (q, s1) = db.select_buffer group count s in
      elim (Result-cases q) [
        | inr (x, failed) ↦ let e : go ≡ (err x, (s1, t)) = ground arith in rw e refl
        | inl (rows, selected) ↦ elim (Result-cases (collect rows.scanned rows.end)) [
          | inr (x, broken) ↦ let e : go ≡ (err x, (s1, t)) = ground arith in rw e refl
          | inl (es, got) ↦
              let e : go ≡ claim_rows (watch_queue db) group es (s1, t) = ground arith in
              rw e (claim_rows-IsClaimed group es s1 t)
        ]
      ]

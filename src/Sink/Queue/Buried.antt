-- ===== src/Sink/Queue/Buried.antt =====
-- What moving events to the table of dead letters does with them
-- (internal/adapter/repository/postgres/log_repository.go).
use watch_tower.Common.{◌≡◌, refl, List, [], ◌∷◌, Done, Result-cases, inl, inr, ok, err, arith}
use watch_tower.Domain.{LogEvent}
use watch_tower.Sink.Queue.{dead_row, QueueDb, bury_rows, move_to_dlq}
use watch_tower.Sink.Queue.Claimed.{
  Statement, began, committed, rolled_back, buried, deleted, Watched, watch_queue, has_commit,
}

-- The record behind a transaction that buries these events: each is inserted, and then its deletion
-- from the buffer is tried, with whatever result.
abbrev pub AreBuried : List LogEvent → List Statement → List Statement → Type 0
AreBuried [] t t' = t' ≡ committed (ok tt) ∷ t
AreBuried (e ∷ es) t t' =
    (d : Done) × AreBuried es (deleted e.id d ∷ buried (dead_row e) (ok tt) ∷ t) t'

module _ {S : Type 0} (db : QueueDb S) where
  -- All of the events are buried, or nothing is committed.
  abbrev pub IsBuried : List LogEvent → List Statement → List Statement → Done × Watched S → Type 0
  IsBuried es t t0 (ok _, (s, t')) = AreBuried es t t'
  IsBuried es t t0 (err _, (s, t')) = has_commit t' ≡ has_commit t0

  buried_first :
      (e : LogEvent) (es : List LogEvent) (t t0 : List Statement) (d : Done) (p : Done × Watched S)
      → IsBuried es (deleted e.id d ∷ buried (dead_row e) (ok tt) ∷ t) t0 p
      → IsBuried (e ∷ es) t t0 p
  buried_first e es t t0 d (ok _, (s, t')) rest = (d, rest)
  buried_first e es t t0 d (err x, (s, t')) rest = rest

  bury_rows-IsBuried :
      (es : List LogEvent) (s : S) (t t0 : List Statement)
      → has_commit t ≡ has_commit t0
      → IsBuried es t t0 (bury_rows (watch_queue db) es (s, t))
  unfolding bury_rows
  bury_rows-IsBuried [] s t t0 same =
      let go = bury_rows (watch_queue db) [] (s, t) in
      let (c, s1) = db.commit s in
      elim (Result-cases c) [
        | inl (_, done) ↦
            let e : go ≡ (ok tt, (s1, committed (ok tt) ∷ t)) = ground arith in rw e refl
        | inr (x, failed) ↦
            let e : go ≡ (err x, (s1, committed (err x) ∷ t)) = ground arith in rw e same
      ]
  bury_rows-IsBuried (event ∷ es) s t t0 same =
      let go = bury_rows (watch_queue db) (event ∷ es) (s, t) in
      let (r, s1) = db.insert_dead (dead_row event) s in
      elim (Result-cases r) [
        | inl (_, inserted) ↦
            let (d, s2) = db.delete event.id s1 in
            let t2 = deleted event.id d ∷ buried (dead_row event) (ok tt) ∷ t in
            let e : go ≡ bury_rows (watch_queue db) es (s2, t2) = ground arith in
            rw e (
              buried_first event es t t0 d (bury_rows (watch_queue db) es (s2, t2))
                (bury_rows-IsBuried es s2 t2 t0 same))
        | inr (x, failed) ↦
            let (u, s2) = db.rollback s1 in
            let e : go ≡ (err x, (s2, rolled_back u ∷ buried (dead_row event) (err x) ∷ t)) =
              ground arith in
            rw e same
      ]

  -- Whatever the database answers, a `MoveToDLQ` of events that returns no error has made exactly the
  -- statements of one transaction: begin, for each event in order an insertion of its row with success
  -- and then its deletion, and a commit with success; and one that returns an error has committed
  -- nothing.
  pub move_to_dlq-IsBuried :
      (event : LogEvent) (es : List LogEvent) (s : S) (t : List Statement)
      → IsBuried
          (event ∷ es)
          (began (ok tt) ∷ t)
          t
          (move_to_dlq (watch_queue db) (event ∷ es) (s, t))
  unfolding move_to_dlq
  move_to_dlq-IsBuried event es s t =
      let go = move_to_dlq (watch_queue db) (event ∷ es) (s, t) in
      let (b, s1) = db.begin_tx s in
      elim (Result-cases b) [
        | inl (_, started) ↦
            let e : go ≡ bury_rows (watch_queue db) (event ∷ es) (s1, began (ok tt) ∷ t) =
              ground arith in
            rw e (bury_rows-IsBuried (event ∷ es) s1 (began (ok tt) ∷ t) t refl)
        | inr (x, failed) ↦
            let e : go ≡ (err x, (s1, began (err x) ∷ t)) = ground arith in rw e refl
      ]

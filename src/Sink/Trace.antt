-- ===== src/Sink/Trace.antt =====
-- What the database is asked to do with a batch, and in which order
-- (internal/adapter/repository/postgres/log_repository.go).
use watch_tower.Common.{
  ◌≡◌, refl, ap, ◌∙◌, List, [], ◌∷◌, Op, Done, Result-cases, inl, inr, ok, err, arith, Bool, false,
  true,
}
use watch_tower.Domain.{LogEvent}
use watch_tower.Sink.{
  Row, row_of, temp_table_name, Db, copy_rows, merge, copy_and_merge, import_batch, write_log_batch,
}

-- A call, with whether it succeeded.
pub data Call : Type 0 where
  began created prepared closed upserted committed rolled_back : Done → Call
  copied : Row → Done → Call

abbrev pub Watched : Type 0 → Type 0
Watched S = S × List Call

-- A call, and its record with what it returned, in front of the earlier ones.
abbrev noted : {S : Type 0} → (Done → Call) → Op S Unit → Op (Watched S) Unit
noted c m (s, t) = let (r, s') = m s in (r, (s', c r ∷ t))

abbrev pub watch_db : {S : Type 0} → Db S → Db (Watched S)
watch_db db = record {
  begin_tx = noted began db.begin_tx;
  create_temp = λ n. noted created (db.create_temp n);
  prepare_copy = λ n. noted prepared (db.prepare_copy n);
  copy_row = λ r. noted (copied r) (db.copy_row r);
  close = noted closed db.close;
  upsert = λ n. noted upserted (db.upsert n);
  commit = noted committed db.commit;
  rollback = noted rolled_back db.rollback;
}

-- The record behind the successful copies of the rows of these events.
abbrev pub after_copies : List LogEvent → List Call → List Call
after_copies [] t = t
after_copies (event ∷ events) t = after_copies events (copied (row_of event) (ok tt) ∷ t)

-- The record behind a whole transaction that succeeds.
abbrev pub after_import : List LogEvent → List Call → List Call
after_import events t =
    committed (ok tt)
    ∷ upserted (ok tt)
    ∷ closed (ok tt)
    ∷ after_copies events (prepared (ok tt) ∷ created (ok tt) ∷ t)

-- A transaction was committed without an error.
abbrev pub has_commit : List Call → Bool
has_commit [] = false
has_commit (committed (ok _) ∷ t) = true
has_commit (_ ∷ t) = has_commit t

-- A run that makes the calls `want` where it succeeds, and else commits nothing.
abbrev Ends : {S : Type 0} → List Call → List Call → Done × Watched S → Type 0
Ends want t (ok _, (s, t')) = t' ≡ want
Ends want t (err _, (s, t')) = has_commit t' ≡ has_commit t

Ends-change :
    {S : Type 0} (a b t t' : List Call) (p : Done × Watched S)
    → a ≡ b
    → has_commit t' ≡ has_commit t
    → Ends a t' p
    → Ends b t p
Ends-change a b t t' (ok _, (s, t'')) e same ends = ends ∙ e
Ends-change a b t t' (err x, (s, t'')) e same ends = ends ∙ same

has_commit-after_copies :
    (es : List LogEvent) (t : List Call) → has_commit (after_copies es t) ≡ has_commit t
has_commit-after_copies [] t = refl
has_commit-after_copies (event ∷ es) t =
    has_commit-after_copies es (copied (row_of event) (ok tt) ∷ t)

module _ {S : Type 0} (db : Db S) where
  copy_rows-Ends :
      (es : List LogEvent) (s : S) (t : List Call)
      → Ends (after_copies es t) t (copy_rows (watch_db db) es (s, t))
  unfolding copy_rows
  copy_rows-Ends [] s t = refl
  copy_rows-Ends (event ∷ es) s t =
      let go = copy_rows (watch_db db) (event ∷ es) (s, t) in
      let row = row_of event in
      let (r, s1) = db.copy_row row s in
      elim (Result-cases r) [
        | inl (_, written) ↦
            let t1 = copied row (ok tt) ∷ t in
            let e : go ≡ copy_rows (watch_db db) es (s1, t1) = ground arith in
            rw e (copy_rows-Ends es s1 t1)
        | inr (x, failed) ↦
            let (c, s2) = db.close s1 in
            let e : go ≡ (err x, (s2, closed c ∷ copied row (err x) ∷ t)) = ground arith in
            rw e refl
      ]

  merge-Ends :
      (s : S) (t : List Call)
      → Ends
          (committed (ok tt) ∷ upserted (ok tt) ∷ closed (ok tt) ∷ t)
          t
          (merge (watch_db db) (s, t))
  unfolding merge
  merge-Ends s t =
      let go = merge (watch_db db) (s, t) in
      let (c, s1) = db.close s in
      let (u, s2) = db.upsert temp_table_name s1 in
      let (k, s3) = db.commit s2 in
      elim (Result-cases c) [
        | inr (x, failed) ↦
            let e : go ≡ (err x, (s1, closed (err x) ∷ t)) = ground arith in rw e refl
        | inl (_, ended) ↦ elim (Result-cases u) [
          | inr (x, failed) ↦
              let e : go ≡ (err x, (s2, upserted (err x) ∷ closed (ok tt) ∷ t)) = ground arith in
              rw e refl
          | inl (_, merged) ↦
              let calls = upserted (ok tt) ∷ closed (ok tt) ∷ t in
              elim (Result-cases k) [
                | inr (x, failed) ↦
                    let e : go ≡ (err x, (s3, committed (err x) ∷ calls)) = ground arith in
                    rw e refl
                | inl (_, done) ↦
                    let e : go ≡ (ok tt, (s3, committed (ok tt) ∷ calls)) = ground arith in
                    rw e refl
              ]
        ]
      ]

  -- The merge behind the copies, as a function of what those returned.
  then_merge-Ends :
      (want t : List Call) (p : Done × Watched S)
      → has_commit want ≡ has_commit t
      → Ends want t p
      → Ends {S = S}
          (committed (ok tt) ∷ upserted (ok tt) ∷ closed (ok tt) ∷ want)
          t
          (elim p.0 [ err e ↦ (err e, p.1) | ok _ ↦ merge (watch_db db) p.1 ])
  then_merge-Ends want t (err x, (s, t')) same ends = ends
  then_merge-Ends want t (ok _, (s, t')) same ends =
      let add = λ (c : List Call). committed (ok tt) ∷ upserted (ok tt) ∷ closed (ok tt) ∷ c in
      Ends-change (add t') (add want) t t' (merge (watch_db db) (s, t')) (ap add ends)
        (ap has_commit ends ∙ same) (merge-Ends s t')

  copy_and_merge-Ends :
      (es : List LogEvent) (s : S) (t : List Call)
      → Ends
          (committed (ok tt) ∷ upserted (ok tt) ∷ closed (ok tt) ∷ after_copies es t)
          t
          (copy_and_merge (watch_db db) es (s, t))
  unfolding copy_and_merge
  copy_and_merge-Ends es s t =
      then_merge-Ends (after_copies es t) t (copy_rows (watch_db db) es (s, t))
        (has_commit-after_copies es t) (copy_rows-Ends es s t)

  import_batch-Ends :
      (es : List LogEvent) (s : S) (t : List Call)
      → Ends (after_import es t) t (import_batch (watch_db db) es (s, t))
  unfolding import_batch
  import_batch-Ends es s t =
      let go = import_batch (watch_db db) es (s, t) in
      let (c, s1) = db.create_temp temp_table_name s in
      let (p, s2) = db.prepare_copy temp_table_name s1 in
      elim (Result-cases c) [
        | inr (x, failed) ↦
            let e : go ≡ (err x, (s1, created (err x) ∷ t)) = ground arith in rw e refl
        | inl (_, made) ↦ elim (Result-cases p) [
          | inr (x, failed) ↦
              let e : go ≡ (err x, (s2, prepared (err x) ∷ created (ok tt) ∷ t)) = ground arith in
              rw e refl
          | inl (_, ready) ↦
              let t1 = prepared (ok tt) ∷ created (ok tt) ∷ t in
              let e : go ≡ copy_and_merge (watch_db db) es (s2, t1) = ground arith in
              rw e (copy_and_merge-Ends es s2 t1)
        ]
      ]

  -- What the record is behind `WriteLogBatch` of a batch that is not empty.
  abbrev pub IsAtomic : List LogEvent → List Call → Done × Watched S → Type 0
  IsAtomic es t (ok _, (s, t')) =
      (r : Done) × (t' ≡ rolled_back r ∷ after_import es (began (ok tt) ∷ t))
  IsAtomic es t (err _, (s, t')) = has_commit t' ≡ has_commit t

  rolled_back-IsAtomic :
      (es : List LogEvent) (t : List Call) (p : Done × Watched S)
      → Ends (after_import es (began (ok tt) ∷ t)) (began (ok tt) ∷ t) p
      → IsAtomic es t (p.0, ((watch_db db).rollback p.1).1)
  rolled_back-IsAtomic es t (ok _, (s, t')) ends =
      ((db.rollback s).0, ap (◌∷◌ (rolled_back (db.rollback s).0)) ends)
  rolled_back-IsAtomic es t (err x, (s, t')) ends = ends

  -- Whatever the database answers, a `WriteLogBatch` of events that returns no error has made
  -- exactly the calls of one transaction, each of them with success: begin, create the temporary
  -- table, prepare the copy, one row for each event in order, close, merge, commit (and the deferred
  -- rollback behind it); and one that returns an error has committed nothing.
  pub write_log_batch-IsAtomic :
      (e : LogEvent) (es : List LogEvent) (s : S) (t : List Call)
      → IsAtomic (e ∷ es) t (write_log_batch (watch_db db) (e ∷ es) (s, t))
  unfolding write_log_batch
  write_log_batch-IsAtomic event es s t =
      let go = write_log_batch (watch_db db) (event ∷ es) (s, t) in
      let (b, s1) = db.begin_tx s in
      elim (Result-cases b) [
        | inr (x, failed) ↦
            let e : go ≡ (err x, (s1, began (err x) ∷ t)) = ground arith in rw e refl
        | inl (_, under_way) ↦
            let p = import_batch (watch_db db) (event ∷ es) (s1, began (ok tt) ∷ t) in
            let e : go ≡ (p.0, ((watch_db db).rollback p.1).1) = ground arith in
            rw e (
              rolled_back-IsAtomic (event ∷ es) t p
                (import_batch-Ends (event ∷ es) s1 (began (ok tt) ∷ t)))
      ]

-- ===== src/Sink/Kept.antt =====
-- What the statements of a database keep, WriteLogBatch keeps
-- (internal/adapter/repository/postgres/log_repository.go).
use mathlib.Core.Path.{subst}
use watch_tower.Common.{
  ◌≡◌, sym, inl, inr, List, [], ◌∷◌, arith, Text, Result-cases, Bool-cases, is_empty,
}
use watch_tower.Domain.{LogEvent}
use watch_tower.Sink.{
  Row, row_of, Db, copy_rows, merge, copy_and_merge, import_batch, write_log_batch, temp_table_name,
}

-- Every statement keeps a predicate on the state, whatever it answers.
pub record KeptBy {S : Type 0} (db : Db S) (P : S → Type 0) : Type 0 where
  pub begin_tx : (s : S) → P s → P (db.begin_tx s).1
  pub create_temp : (t : Text) (s : S) → P s → P (db.create_temp t s).1
  pub prepare_copy : (t : Text) (s : S) → P s → P (db.prepare_copy t s).1
  pub copy_row : (r : Row) (s : S) → P s → P (db.copy_row r s).1
  pub close : (s : S) → P s → P (db.close s).1
  pub upsert : (t : Text) (s : S) → P s → P (db.upsert t s).1
  pub commit : (s : S) → P s → P (db.commit s).1
  pub rollback : (s : S) → P s → P (db.rollback s).1

module _ {S : Type 0} (db : Db S) (P : S → Type 0) (kept : KeptBy db P) where
  copy_rows-keeps : (es : List LogEvent) (s : S) → P s → P (copy_rows db es s).1
  unfolding copy_rows
  copy_rows-keeps [] s h = h
  copy_rows-keeps (event ∷ es) s h =
      let (r, s1) = db.copy_row (row_of event) s in
      let h1 = kept.copy_row (row_of event) s h in
      let go = copy_rows db (event ∷ es) s in
      elim (Result-cases r) [
        | inr (x, failed) ↦
            let e : go.1 ≡ (db.close s1).1 = ground arith in subst P (sym e) (kept.close s1 h1)
        | inl (_, taken) ↦
            let e : go.1 ≡ (copy_rows db es s1).1 = ground arith in
            subst P (sym e) (copy_rows-keeps es s1 h1)
      ]

  merge-keeps : (s : S) → P s → P (merge db s).1
  unfolding merge
  merge-keeps s h =
      let (c, s1) = db.close s in
      let h1 = kept.close s h in
      let (u, s2) = db.upsert temp_table_name s1 in
      let h2 = kept.upsert temp_table_name s1 h1 in
      elim (Result-cases c) [
        | inr (x, failed) ↦ let e : (merge db s).1 ≡ s1 = ground arith in subst P (sym e) h1
        | inl (_, closed) ↦ elim (Result-cases u) [
          | inr (x, failed) ↦ let e : (merge db s).1 ≡ s2 = ground arith in subst P (sym e) h2
          | inl (_, merged) ↦
              let e : (merge db s).1 ≡ (db.commit s2).1 = ground arith in
              subst P (sym e) (kept.commit s2 h2)
        ]
      ]

  copy_and_merge-keeps : (es : List LogEvent) (s : S) → P s → P (copy_and_merge db es s).1
  unfolding copy_and_merge
  copy_and_merge-keeps es s h =
      let (r, s1) = copy_rows db es s in
      let h1 = copy_rows-keeps es s h in
      elim (Result-cases r) [
        | inr (x, failed) ↦
            let e : (copy_and_merge db es s).1 ≡ s1 = ground arith in subst P (sym e) h1
        | inl (_, copied) ↦
            let e : (copy_and_merge db es s).1 ≡ (merge db s1).1 = ground arith in
            subst P (sym e) (merge-keeps s1 h1)
      ]

  import_batch-keeps : (es : List LogEvent) (s : S) → P s → P (import_batch db es s).1
  unfolding import_batch
  import_batch-keeps es s h =
      let go = import_batch db es s in
      let (t, s1) = db.create_temp temp_table_name s in
      let h1 = kept.create_temp temp_table_name s h in
      let (p, s2) = db.prepare_copy temp_table_name s1 in
      let h2 = kept.prepare_copy temp_table_name s1 h1 in
      elim (Result-cases t) [
        | inr (x, failed) ↦ let e : go.1 ≡ s1 = ground arith in subst P (sym e) h1
        | inl (_, created) ↦ elim (Result-cases p) [
          | inr (x, failed) ↦ let e : go.1 ≡ s2 = ground arith in subst P (sym e) h2
          | inl (_, prepared) ↦
              let e : go.1 ≡ (copy_and_merge db es s2).1 = ground arith in
              subst P (sym e) (copy_and_merge-keeps es s2 h2)
        ]
      ]

  pub write_log_batch-keeps : (es : List LogEvent) (s : S) → P s → P (write_log_batch db es s).1
  unfolding write_log_batch
  write_log_batch-keeps es s h =
      let go = write_log_batch db es s in
      let (b, s1) = db.begin_tx s in
      let h1 = kept.begin_tx s h in
      let s2 = (import_batch db es s1).1 in
      elim (Bool-cases (is_empty es)) [
        | inl nothing ↦ let e : go.1 ≡ s = ground arith in subst P (sym e) h
        | inr some_events ↦ elim (Result-cases b) [
          | inr (x, failed) ↦ let e : go.1 ≡ s1 = ground arith in subst P (sym e) h1
          | inl (_, begun) ↦
              let e : go.1 ≡ (db.rollback s2).1 = ground arith in
              subst P (sym e) (kept.rollback s2 (import_batch-keeps es s1 h1))
        ]
      ]

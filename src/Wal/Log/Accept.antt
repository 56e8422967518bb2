-- ===== src/Wal/Log/Accept.antt =====
-- What `Write` does to the view, on success and on failure
-- (internal/adapter/repository/wal/wal_repository.go).
use watch_tower.Common.{
  ℕ, ◌≡◌, refl, sym, ap, ◌∙◌, true, none, some, List, [], ◌∷◌, ◌++◌, arith, if◌then◌else◌, Text,
  append-nil, Option-cases, Result-cases, inl, inr, ok, err, is_ok, Error, Result, Op, Done, ◌>>◌,
}
use watch_tower.Scanner.{split_lines, whole}
use watch_tower.Scanner.Laws.{split_lines-line, whole-line}
use watch_tower.Domain.{LogEvent}
use watch_tower.Domain.Codec.{Codec, CodecLaws}
use watch_tower.Wal.Files.{segment_name}
use watch_tower.Wal.Segments.{Wal}
use watch_tower.Wal.Methods.{
  WriteEnv, ensure_segment, check_budget, write_segment, rotate_if_full, write_line, write,
}
use watch_tower.Wal.Log.{log_lines, IsReady, IsFresh}
use watch_tower.Wal.Log.Write.{IsAdvancing, IsSame, ensure_segment-IsSame, ensure_segment-IsOpened}
use watch_tower.Wal.Log.Written.{write_segment_full, write_segment-IsWritten, rotate_if_full-IsSame}

-- The view and the result of a write that is not cut short: one line more, or none.
pub record IsLogged (added : List Text) (w : Wal) (r : Done) (w' : Wal) : Type 0 where
  pub ready : IsReady w'
  pub view : log_lines w'.dir ≡ log_lines w.dir ++ (if is_ok r then added else [])

unchanged-IsLogged :
    (added : List Text) (w w' : Wal) (e : Error) → IsSame w w' → IsLogged added w (err e) w'
unchanged-IsLogged added w w' e s = record {
  ready = s.ready;
  view = s.view ∙ sym (append-nil (log_lines w.dir));
}

abbrev tail_of : WriteEnv → Text → Op Wal Unit
tail_of env line = write_segment env line >> rotate_if_full env

write_then_rotate-IsLogged :
    (env : WriteEnv) (line : Text) (w : Wal) (c : Text)
    → w.current ≡ some c
    → IsReady w
    → IsFresh (segment_name env.after.now) w.dir
    → whole line ≡ true
    → env.short ≡ none
    → IsLogged (split_lines line) w (tail_of env line w).0 (tail_of env line w).1
write_then_rotate-IsLogged env line w c held r f ends short =
    let (done, _, _, _) = write_segment_full env line w c held r.open_handle short in
    let t = write_segment-IsWritten env line w c held r f ends short in
    let s = rotate_if_full-IsSame env (write_segment env line w).1 t.ready t.fresh in
    let both : (tail_of env line w) ≡ (ok tt, (rotate_if_full env (write_segment env line w).1).1) =
      (unfold rotate_if_full in ground arith) in
    rw both (record { ready = s.ready; view = s.view ∙ t.view })

budget_result : (env : WriteEnv) (line : Text) (w : Wal) → (check_budget env line w).1 ≡ w
unfolding check_budget
budget_result env line w = ground arith

checked-IsLogged :
    (env : WriteEnv) (line : Text) (w : Wal) (c : Text)
    → w.current ≡ some c
    → IsReady w
    → IsFresh (segment_name env.after.now) w.dir
    → whole line ≡ true
    → env.short ≡ none
    → IsLogged
        (split_lines line)
        w
        ((check_budget env line >> tail_of env line) w).0
        ((check_budget env line >> tail_of env line) w).1
checked-IsLogged env line w c held r f ends short =
    elim (Result-cases (check_budget env line w).0) [
      | inl (_, passed) ↦
          rw (passed, budget_result env line w)
            (write_then_rotate-IsLogged env line w c held r f ends short)
      | inr (e, refused) ↦
          rw (refused, budget_result env line w)
            (unchanged-IsLogged _ w w e (record { ready = r; view = refl }))
    ]

-- Steps that leave the view alone may come first.
IsLogged-after :
    {added : List Text} {w w1 w' : Wal} {r : Done}
    → IsSame w w1
    → IsLogged added w1 r w'
    → IsLogged added w r w'
IsLogged-after {added} {r = r} s l = record {
  ready = l.ready;
  view = l.view ∙ ap (λ ls. ls ++ (if is_ok r then added else [])) s.view;
}

write_line-IsLogged :
    (env : WriteEnv) (line : Text) (w : Wal)
    → IsReady w
    → IsAdvancing env w.dir
    → whole line ≡ true
    → env.short ≡ none
    → IsLogged (split_lines line) w (write_line env line w).0 (write_line env line w).1
unfolding write_line
write_line-IsLogged env line w r a ends short = elim (Result-cases (ensure_segment env w).0) [
  | inl (tt, opened) ↦
      let o = ensure_segment-IsOpened env w r a opened in
      rw opened (
        IsLogged-after o.same (
          checked-IsLogged env line (ensure_segment env w).1 o.name o.handle o.same.ready o.fresh
            ends short))
  | inr (e, refused) ↦
      rw refused
        (unchanged-IsLogged _ w (ensure_segment env w).1 e (ensure_segment-IsSame env w r a))
]

-- The line that `Write` stores for an event, if the event can be encoded.
abbrev pub lines_of : Result Text → List Text
lines_of (ok body) = body ∷ []
lines_of (err e) = []

-- If the log is ready, encoded events are single lines, the clock moves on, and the write to the file
-- is not cut short, then `Write` leaves the log ready, and adds to the view the encoded event as one
-- line at the end if it returns no error, and nothing if it returns one.
pub write-IsLogged :
    (codec : Codec) (laws : CodecLaws codec) (env : WriteEnv) (event : LogEvent) (w : Wal)
    → IsReady w
    → IsAdvancing env w.dir
    → env.short ≡ none
    → IsLogged
        (lines_of (codec.marshal event))
        w
        (write codec env event w).0
        (write codec env event w).1
unfolding write
write-IsLogged codec laws env event w r a short = elim (Result-cases (codec.marshal event)) [
  | inl (body, encoded) ↦
      let line = body ++ 10 ∷ [] in
      let plain = laws.one_line event body encoded in
      let logged = write_line-IsLogged env line w r a (whole-line body) short in
      rw (encoded, write) (rw (split_lines-line body plain) at logged)
  | inr (e, refused) ↦
      rw (refused, write) (unchanged-IsLogged [] w w _ (record { ready = r; view = refl }))
]

short_is_refused :
    (env : WriteEnv) (line : Text) (w : Wal) (f : ℕ × Error)
    → env.short ≡ some f
    → (write_line env line w).0 ≡ ok tt
    → ⊥
unfolding write_line write_segment
short_is_refused env line w f short done = ground arith

write_encoded :
    (codec : Codec) (env : WriteEnv) (event : LogEvent) (w : Wal) (body : Text)
    → codec.marshal event ≡ ok body
    → write codec env event w ≡ write_line env (body ++ 10 ∷ []) w
unfolding write
write_encoded codec env event w body h = ground arith

write_refused :
    (codec : Codec) (env : WriteEnv) (event : LogEvent) (w : Wal) (e : Error)
    → codec.marshal event ≡ err e
    → (write codec env event w).0 ≡ ok tt
    → ⊥
unfolding write
write_refused codec env event w e h done = ground arith

-- If the log is ready, encoded events are single lines, and the clock moves on, then an event whose
-- `Write` returns no error is the last line of the view, encoded, behind what was there, and the log
-- is ready again.
pub write_acknowledged :
    (codec : Codec) (laws : CodecLaws codec) (env : WriteEnv) (event : LogEvent) (w : Wal)
    → IsReady w
    → IsAdvancing env w.dir
    → (write codec env event w).0 ≡ ok tt
    → (body : Text) × (codec.marshal event ≡ ok body)
      × (log_lines (write codec env event w).1.dir ≡ log_lines w.dir ++ body ∷ [])
      × IsReady (write codec env event w).1
write_acknowledged codec laws env event w r a done = elim (Result-cases (codec.marshal event)) [
  | inr (e, refused) ↦ absurd (write_refused codec env event w e refused done)
  | inl (body, encoded) ↦ elim (Option-cases env.short) [
    | inr (f, cut) ↦
        let line = write_encoded codec env event w body encoded in
        absurd (short_is_refused env (body ++ 10 ∷ []) w f cut (ap (λ p. p.0) (sym line) ∙ done))
    | inl short ↦
        let l = write-IsLogged codec laws env event w r a short in
        (body, encoded, rw (done, encoded) at l.view, l.ready)
  ]
]

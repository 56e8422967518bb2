-- ===== src/Wal/Torn.antt =====
-- What a write leaves that is cut short (internal/adapter/repository/wal/wal_repository.go).
use mathlib.Core.Path.{subst}
use watch_tower.Common.{
  ℕ, zero, suc, ◌≤◌, ◌≡◌, ◌≢◌, ◌⊎◌, inl, inr, refl, sym, ap, ◌∙◌, false, none, some, [], ◌∷◌, ◌++◌,
  arith, All, All-append, append_assoc, length, length-append, take, Text, Error, ok, is_ok,
}
use watch_tower.Scanner.Laws.{split_lines-line, whole-line}
use watch_tower.Domain.{LogEvent}
use watch_tower.Domain.Codec.{Codec, CodecLaws}
use watch_tower.Wal.Files.{Dir, append_file, segment_name}
use watch_tower.Wal.Segments.{Wal}
use watch_tower.Wal.Methods.{
  WriteEnv, ensure_segment, check_budget, write_segment, rotate_if_full, write_line, write,
}
use watch_tower.Wal.Log.{log_lines, IsNewest, IsReady, IsFresh}
use watch_tower.Wal.Log.Append.{log_lines-append_file, whole-append_file, IsNewest-append_file}
use watch_tower.Wal.Log.Write.{IsFresh-append_file}
use watch_tower.Wal.Log.Written.{newest_whole, rotate_if_full-IsSame}

take_within : (k : ℕ) (xs ys : Text) → k ≤ length xs → take k (xs ++ ys) ≡ take k xs
take_within zero xs ys h = refl
take_within (suc k) [] ys h = absurd (omega arith)
take_within (suc k) (x ∷ xs) ys h = ap (◌∷◌ x) (take_within k xs ys (omega arith))

-- What is put before a text makes another of it.
torn_differs : (k : ℕ) (xs ys : Text) → k ≤ length xs → (k ≡ 0) ⊎ ((take k xs ++ ys) ≢ ys)
torn_differs zero xs ys h = inl refl
torn_differs (suc k) [] ys h = absurd (omega arith)
torn_differs (suc k) (x ∷ xs) ys h =
    inr (λ e. absurd (omega (arith, ap length e, length-append (take k xs) ys)))

All-take : (P : ℕ → Type 0) (k : ℕ) (xs : Text) → All P xs → All P (take k xs)
All-take P zero xs h = tt
All-take P (suc k) [] h = tt
All-take P (suc k) (x ∷ xs) h = (h.0, All-take P k xs h.1)

-- Two writes to a file are one of both.
append_file-append_file :
    (c a b : Text) (d : Dir) → append_file c b (append_file c a d) ≡ append_file c (a ++ b) d
unfolding append_file
append_file-append_file c a b [] = refl
append_file-append_file c a b (f ∷ d) =
    let apart = append_assoc f.content a b in
    let f' = λ (t : Text). record f { content = t } in
    ground (arith, ap (λ t. f' t ∷ d) apart, append_file-append_file c a b d)

module _ (codec : Codec) (laws : CodecLaws codec) where
  cut_write :
      (env : WriteEnv) (event : LogEvent) (w : Wal) (c body : Text) (k : ℕ) (x : Error)
      → w.current ≡ some c
      → w.is_closed ≡ false
      → codec.marshal event ≡ ok body
      → (check_budget env (body ++ 10 ∷ []) w).0 ≡ ok tt
      → env.short ≡ some (k, x)
      → k ≤ length body
      → ((write codec env event w).1 ≡ record w { dir = append_file c (take k body) w.dir })
        × (is_ok (write codec env event w).0 ≡ false)
  unfolding write write_line ensure_segment check_budget write_segment
  cut_write env event w c body k x held unclosed encoded within cut le =
      let t = take_within k body (10 ∷ []) le in ground (arith, t)

  whole_write :
      (env : WriteEnv) (event : LogEvent) (w : Wal) (c body : Text)
      → w.current ≡ some c
      → codec.marshal event ≡ ok body
      → (write codec env event w).0 ≡ ok tt
      → (write codec env event w).1
        ≡ (rotate_if_full env (write_segment env (body ++ 10 ∷ []) w).1).1
  unfolding write write_line ensure_segment check_budget write_segment
  whole_write env event w c body held encoded accepted = ground arith

  -- The state behind both: one line more, of the torn bytes and the second event.
  merged-IsSame :
      (env : WriteEnv) (w : Wal) (c torn body : Text)
      → w.current ≡ some c
      → IsReady w
      → IsFresh (segment_name env.after.now) w.dir
      → env.short ≡ none
      → All (λ x. (x ≢ 10) × (x ≢ 13)) (torn ++ body)
      → log_lines
          (rotate_if_full env
            (write_segment env
              (body ++ 10 ∷ [])
              (record w { dir = append_file c torn w.dir })).1).1.dir
        ≡ log_lines w.dir ++ (torn ++ body) ∷ []
  unfolding write_segment
  merged-IsSame env w c torn body held r fresh whole_write plain =
      let line = (torn ++ body) ++ 10 ∷ [] in
      let d = append_file c line w.dir in
      let newest = subst (λ o. IsNewest o w.dir) held r.newest in
      let go =
        (write_segment env (body ++ 10 ∷ []) (record w { dir = append_file c torn w.dir })).1 in
      let both =
        append_file-append_file c torn (body ++ 10 ∷ []) w.dir
        ∙ ap (λ t. append_file c t w.dir) (sym (append_assoc torn body (10 ∷ []))) in
      let dir : go.dir ≡ d = ground (arith, r.open_handle, both) in
      let current : go.current ≡ some c = ground (arith, r.open_handle) in
      let ready : IsReady go = record {
        open_handle = ground (arith, r.open_handle);
        newest = rw (current, dir) (IsNewest-append_file w.dir c line newest);
        no_torn =
            rw dir (whole-append_file w.dir c line newest (whole-line (torn ++ body)) r.no_torn);
      } in
      let f : IsFresh (segment_name env.after.now) go.dir =
        rw dir (IsFresh-append_file (segment_name env.after.now) c line w.dir fresh) in
      let s = rotate_if_full-IsSame env go ready f in
      s.view
      ∙ ap log_lines dir
      ∙ log_lines-append_file w.dir c line newest (newest_whole w.dir c newest r.no_torn)
      ∙ ap (λ ls. log_lines w.dir ++ ls) (split_lines-line (torn ++ body) plain)

  -- If a ready log with a handle meets a write that is within the budget and is cut short within the
  -- event, and the next write is accepted, then the first returns an error, but the view has one line
  -- more: what was written of the first with the second, that was accepted, behind it. Unless nothing
  -- was written of the first, that is not the line of the second.
  pub torn_write_merges :
      (env next : WriteEnv) (event event' : LogEvent) (w : Wal) (c body body' : Text) (k : ℕ)
      (x : Error)
      → w.current ≡ some c
      → IsReady w
      → IsFresh (segment_name next.after.now) w.dir
      → codec.marshal event ≡ ok body
      → codec.marshal event' ≡ ok body'
      → (check_budget env (body ++ 10 ∷ []) w).0 ≡ ok tt
      → env.short ≡ some (k, x)
      → k ≤ length body
      → next.short ≡ none
      → (write codec next event' (write codec env event w).1).0 ≡ ok tt
      → (is_ok (write codec env event w).0 ≡ false)
        × (log_lines (write codec next event' (write codec env event w).1).1.dir
            ≡ log_lines w.dir ++ (take k body ++ body') ∷ [])
        × ((k ≡ 0) ⊎ ((take k body ++ body') ≢ body'))
  torn_write_merges env next event event' w c body body' k x held r fresh encoded encoded' within
        cut le whole_next accepted =
      let torn = take k body in
      let w1 = record w { dir = append_file c torn w.dir } in
      let (left, failed) =
        cut_write env event w c body k x held r.open_handle encoded within cut le in
      let plain =
        All-append _ torn body' (All-take _ k body (laws.one_line event body encoded))
          (laws.one_line event' body' encoded') in
      let second =
        whole_write next event' w1 c body' held encoded'
          (ap (λ v. (write codec next event' v).0) (sym left) ∙ accepted) in
      (
        failed,
        ap (λ v. log_lines (write codec next event' v).1.dir) left
            ∙ ap (λ v. log_lines v.dir) second
            ∙ merged-IsSame next w c torn body' held r fresh whole_next plain,
        torn_differs k body body' le,
      )

-- ===== src/Wal/Emptied.antt =====
-- What `Truncate` leaves of the log (internal/adapter/repository/wal/wal_repository.go).
use mathlib.Core.Path.{subst}
use watch_tower.Common.{
  ◌≡◌, refl, sym, ap, ◌∙◌, true, false, none, [], arith, All, Text, text_le, Option-cases, inl, inr,
  ok, concat_map, last?,
}
use watch_tower.Scanner.{whole}
use watch_tower.Wal.Files.{
  content_of, content?, sort_names, segment_names, sorted_segments, segment_name,
}
use watch_tower.Wal.Segments.{Wal, OpenEnv, rotate, open_latest_segment}
use watch_tower.Wal.Methods.{TruncateEnv, remove_segments, truncate}
use watch_tower.Wal.Log.{log_lines, lines_in, IsNewest, IsReady, IsFresh}
use watch_tower.Wal.Log.Write.{rotate-IsSame}
use watch_tower.Wal.Removal.{
  IsDistinct, segment_names-remove_segments, sort_names-Covers, segment_names-Covers,
  absent-remove_segments,
}

-- A log without segments that holds no handle is opened as an empty one.
open_empty :
    (env : OpenEnv) (w : Wal)
    → segment_names w.dir ≡ []
    → w.current ≡ none
    → w.is_closed ≡ false
    → content? (segment_name env.rotation.now) w.dir ≡ none
    → (log_lines (open_latest_segment env w).1.dir ≡ []) × IsReady (open_latest_segment env w).1
unfolding open_latest_segment log_lines sorted_segments sort_names last? concat_map
open_empty env w bare idle unclosed absent =
    let sorted : sorted_segments w.dir ≡ [] = ap sort_names bare in
    let torn = subst (All (λ n. whole (content_of n w.dir) ≡ true)) (sym sorted) tt in
    let nothing : log_lines w.dir ≡ [] = ap (lines_in w.dir) sorted in
    elim (Option-cases env.read_dir) [
      | inr (e, failed) ↦
          let same : (open_latest_segment env w).1 ≡ w = ground arith in
          rw same (
            nothing,
            record {
              open_handle = unclosed;
              newest = subst (λ c. IsNewest c w.dir) (sym idle) tt;
              no_torn = torn;
            },
          )
      | inl read ↦
          let e : (open_latest_segment env w).1 ≡ (rotate env.rotation w).1 = ground arith in
          let fresh : IsFresh (segment_name env.rotation.now) w.dir = record {
            absent = absent;
            above =
                subst (All (λ m. text_le m (segment_name env.rotation.now) ≡ true)) (sym bare) tt;
          } in
          let rotated = rotate-IsSame env.rotation w fresh torn in
          rw e (rotated.view ∙ nothing, rotated.ready)
    ]

-- If the directory can be listed, has no two entries of one name and none of the name that the
-- clock gives a new segment, and every removal succeeds, then after `Truncate` the log holds no
-- line, whatever was written to it before, and is ready for the next write, also where the new
-- segment cannot be created.
pub truncate_empties :
    (env : TruncateEnv) (w : Wal)
    → env.read_dir ≡ none
    → ((n : Text) → env.keeps n ≡ false)
    → IsDistinct w.dir
    → content? (segment_name env.reopen.rotation.now) w.dir ≡ none
    → (log_lines (truncate env w).1.dir ≡ []) × IsReady (truncate env w).1
unfolding truncate sorted_segments
truncate_empties env w listed_dir removed distinct absent =
    let ns = sorted_segments w.dir in
    let w' = record w {
      current = none;
      is_closed = false;
      dir = remove_segments env.keeps ns w.dir;
    } in
    let e : truncate env w ≡ open_latest_segment env.reopen w' = ground arith in
    rw e (
      open_empty env.reopen w'
        (segment_names-remove_segments env.keeps ns w.dir removed distinct
          (sort_names-Covers (segment_names w.dir) w.dir (segment_names-Covers w.dir)))
        refl refl (absent-remove_segments env.keeps _ ns w.dir absent))

-- Where also the segment behind can be created, `Truncate` returns no error.
pub truncate_succeeds :
    (env : TruncateEnv) (w : Wal)
    → env.read_dir ≡ none
    → ((n : Text) → env.keeps n ≡ false)
    → IsDistinct w.dir
    → env.reopen.read_dir ≡ none
    → env.reopen.rotation.create ≡ none
    → (truncate env w).0 ≡ ok tt
unfolding truncate open_latest_segment rotate sorted_segments sort_names last?
truncate_succeeds env w listed_dir removed distinct listed_again created =
    let ns = sorted_segments w.dir in
    let bare =
      segment_names-remove_segments env.keeps ns w.dir removed distinct
        (sort_names-Covers (segment_names w.dir) w.dir (segment_names-Covers w.dir)) in
    let sorted : sorted_segments (remove_segments env.keeps ns w.dir) ≡ [] = ap sort_names bare in
    ground arith

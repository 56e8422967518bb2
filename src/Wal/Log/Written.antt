-- ===== src/Wal/Log/Written.antt =====
-- The write to the segment within `Write`, and the rotation behind it
-- (internal/adapter/repository/wal/wal_repository.go).
use mathlib.Core.Path.{subst}
use watch_tower.Common.{
  ◌≡◌, refl, true, false, none, some, [], ◌∷◌, ◌++◌, arith, All, All-right, Text, Bool-cases, inl,
  inr, ok, leb,
}
use watch_tower.Scanner.{split_lines, whole}
use watch_tower.Wal.Files.{Dir, segment_name, content_of, append_file, sorted_segments}
use watch_tower.Wal.Segments.{Wal}
use watch_tower.Wal.Methods.{WriteEnv, write_segment, rotate_if_full}
use watch_tower.Wal.Log.{log_lines, IsNewest, IsReady, IsFresh}
use watch_tower.Wal.Log.Append.{log_lines-append_file, whole-append_file, IsNewest-append_file}
use watch_tower.Wal.Log.Write.{IsSame, rotate-IsSame, IsFresh-append_file}

pub newest_whole :
    (d : Dir) (c : Text)
    → IsNewest (some c) d
    → All (λ n. whole (content_of n d) ≡ true) (sorted_segments d)
    → whole (content_of c d) ≡ true
newest_whole d c (older, bytes, names, others, there) torn =
    let P = λ (n : Text). whole (content_of n d) ≡ true in
    (All-right P older (c ∷ []) (subst (All P) names torn)).0

-- The state behind a write of whole lines that is not cut short.
pub record IsWritten (env : WriteEnv) (line : Text) (w w' : Wal) : Type 0 where
  pub ready : IsReady w'
  pub fresh : IsFresh (segment_name env.after.now) w'.dir
  pub view : log_lines w'.dir ≡ log_lines w.dir ++ split_lines line

pub write_segment_full :
    (env : WriteEnv) (line : Text) (w : Wal) (c : Text)
    → w.current ≡ some c
    → w.is_closed ≡ false
    → env.short ≡ none
    → ((write_segment env line w).0 ≡ ok tt)
      × ((write_segment env line w).1.dir ≡ append_file c line w.dir)
      × ((write_segment env line w).1.current ≡ some c)
      × ((write_segment env line w).1.is_closed ≡ false)
unfolding write_segment
write_segment_full env line w c held opened whole_write = ground arith

pub write_segment-IsWritten :
    (env : WriteEnv) (line : Text) (w : Wal) (c : Text)
    → w.current ≡ some c
    → IsReady w
    → IsFresh (segment_name env.after.now) w.dir
    → whole line ≡ true
    → env.short ≡ none
    → IsWritten env line w (write_segment env line w).1
write_segment-IsWritten env line w c held r f ends short =
    let (_, dir, current, opened) = write_segment_full env line w c held r.open_handle short in
    let newest = subst (λ o. IsNewest o w.dir) held r.newest in
    record {
      ready = record {
        open_handle = opened;
        newest = rw (current, dir) (IsNewest-append_file w.dir c line newest);
        no_torn = rw dir (whole-append_file w.dir c line newest ends r.no_torn);
      };
      fresh = rw dir (IsFresh-append_file (segment_name env.after.now) c line w.dir f);
      view =
          rw dir
            (log_lines-append_file w.dir c line newest (newest_whole w.dir c newest r.no_torn));
    }

pub rotate_if_full-IsSame :
    (env : WriteEnv) (w : Wal)
    → IsReady w
    → IsFresh (segment_name env.after.now) w.dir
    → IsSame w (rotate_if_full env w).1
unfolding rotate_if_full
rotate_if_full-IsSame env w r f = elim (Bool-cases (leb w.max_segment_size w.current_size)) [
  | inl full ↦ rw (full, rotate_if_full) (rotate-IsSame env.after w f r.no_torn)
  | inr room ↦ rw (room, rotate_if_full) (record { ready = r; view = refl })
]

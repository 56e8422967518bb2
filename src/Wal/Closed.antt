-- ===== src/Wal/Closed.antt =====
-- What holds of a directory through the methods, where it holds through the calls of package os that
-- they make (internal/adapter/repository/wal/wal_repository.go).
use mathlib.Core.Path.{subst}
use watch_tower.Common.{
  ℕ, Bool, ◌≡◌, false, none, List, [], ◌∷◌, ◌++◌, arith, Text, ◌>>◌, Option-cases, inl, inr,
  Bool-cases, Result-cases, take, Option, ok, Error,
}
use watch_tower.Domain.{LogEvent}
use watch_tower.Domain.Codec.{Codec}
use watch_tower.Wal.Files.{
  Dir, append_file, create_file, remove_file, segment_name, sorted_segments,
}
use watch_tower.Wal.Segments.{Wal, RotateEnv, OpenEnv, rotate, open_segment, open_latest_segment}
use watch_tower.Wal.Methods.{
  WriteEnv, new_wal, ensure_segment, check_budget, write_segment, rotate_if_full, write_line, write,
  TruncateEnv, remove_segments, truncate,
}

module _ (P : Dir → Type 0) where
  abbrev pub Creates : ℕ → Type 0
  Creates now = (d : Dir) → P d → P (create_file (segment_name now) d)

  rotate-P : (env : RotateEnv) (w : Wal) → Creates env.now → P w.dir → P (rotate env w).1.dir
  unfolding rotate
  rotate-P env w creates h = ground (arith, creates w.dir)

  open_latest_segment-P :
      (env : OpenEnv) (w : Wal)
      → Creates env.rotation.now
      → P w.dir
      → P (open_latest_segment env w).1.dir
  unfolding open_latest_segment open_segment rotate
  open_latest_segment-P env w creates h = ground (arith, creates w.dir)

  pub new_wal-closed :
      (mkdir : Option Error) (env : OpenEnv) (max_segment max_total : ℕ) (d : Dir) (w : Wal)
      → (new_wal mkdir env max_segment max_total d tt).0 ≡ ok w
      → Creates env.rotation.now
      → P d
      → P w.dir
  unfolding new_wal
  new_wal-closed mkdir env max_segment max_total d w opened creates h =
      let start : Wal = record {
        max_segment_size = max_segment;
        max_total_size = max_total;
        current = none;
        is_closed = false;
        current_size = 0;
        dir = d;
      } in
      let e : (open_latest_segment env start).1 ≡ w = ground arith in
      subst (λ w'. P w'.dir) e (open_latest_segment-P env start creates h)

  remove_segments-P :
      (keeps : Text → Bool) (ns : List Text) (d : Dir)
      → ((n : Text) (d' : Dir) → P d' → P (remove_file n d'))
      → P d
      → P (remove_segments keeps ns d)
  unfolding remove_segments
  remove_segments-P keeps [] d removes h = h
  remove_segments-P keeps (n ∷ ns) d removes h = elim (Bool-cases (keeps n)) [
    | inl kept ↦ rw kept (remove_segments-P keeps ns d removes h)
    | inr removed ↦
        rw removed (remove_segments-P keeps ns (remove_file n d) removes (removes n d h))
  ]

  pub truncate-closed :
      (env : TruncateEnv) (w : Wal)
      → ((n : Text) (d : Dir) → P d → P (remove_file n d))
      → Creates env.reopen.rotation.now
      → P w.dir
      → P (truncate env w).1.dir
  unfolding truncate
  truncate-closed env w removes creates h =
      let w' = record w {
        current = none;
        is_closed = false;
        dir = remove_segments env.keeps (sorted_segments w.dir) w.dir;
      } in
      let bare = remove_segments-P env.keeps (sorted_segments w.dir) w.dir removes h in
      ground (arith, open_latest_segment-P env.reopen w' creates bare)

  module _ (env : WriteEnv)
      (appends : (n bytes : Text) (d : Dir) → P d → P (append_file n bytes d)) where
    write_segment-P : (line : Text) (w : Wal) → P w.dir → P (write_segment env line w).1.dir
    unfolding write_segment
    write_segment-P line w h =
        let any : (n bytes : Text) → P (append_file n bytes w.dir) =
          λ n bytes. appends n bytes w.dir h in
        elim (Option-cases w.current) [
          | inl idle ↦ ground arith
          | inr (n, held) ↦ elim (Option-cases env.short) [
            | inl whole ↦ ground (arith, any n line)
            | inr ((k, e), cut) ↦ ground (arith, any n (take k line))
          ]
        ]

    ensure_segment-P : (w : Wal) → Creates env.before.now → P w.dir → P (ensure_segment env w).1.dir
    unfolding ensure_segment
    ensure_segment-P w before h = ground (arith, rotate-P env.before w before h)

    rotate_if_full-P : (w : Wal) → Creates env.after.now → P w.dir → P (rotate_if_full env w).1.dir
    unfolding rotate_if_full
    rotate_if_full-P w after h = ground (arith, rotate-P env.after w after h)

    -- The rest of `write_line` behind the choice of the segment.
    append_line-P :
        (line : Text) (w : Wal)
        → Creates env.after.now
        → P w.dir
        → P ((check_budget env line >> (write_segment env line >> rotate_if_full env)) w).1.dir
    unfolding check_budget
    append_line-P line w after h =
        let written = write_segment-P line w h in
        ground (arith, rotate_if_full-P (write_segment env line w).1 after written)

    write_line-P :
        (line : Text) (w : Wal)
        → Creates env.before.now
        → Creates env.after.now
        → P w.dir
        → P (write_line env line w).1.dir
    unfolding write_line
    write_line-P line w before after h =
        let ensured = ensure_segment-P w before h in
        ground (arith, append_line-P line (ensure_segment env w).1 after ensured)

    pub write-closed :
        (codec : Codec) (event : LogEvent) (w : Wal)
        → Creates env.before.now
        → Creates env.after.now
        → P w.dir
        → P (write codec env event w).1.dir
    unfolding write
    write-closed codec event w before after h = elim (Result-cases (codec.marshal event)) [
      | inr (e, refused) ↦ ground arith
      | inl (body, encoded) ↦ ground (arith, write_line-P (body ++ 10 ∷ []) w before after h)
    ]

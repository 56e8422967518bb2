-- ===== src/Wal/Budget.antt =====
-- The size of the log on disk: no method lets it pass the budget of the configuration
-- (internal/adapter/repository/wal/wal_repository.go).
use watch_tower.Common.{
  ◌+◌, ◌≤◌, ◌≡◌, Bool, false, none, List, [], ◌∷◌, ◌++◌, arith, length, length-take-le,
  length-append, Text, ◌>>◌,
}
use watch_tower.Domain.{LogEvent}
use watch_tower.Domain.Codec.{Codec}
use watch_tower.Wal.Files.{
  Dir, is_segment, append_file, create_file, remove_file, total_size, sorted_segments, segment_name,
}
use watch_tower.Wal.Segments.{Wal, RotateEnv, OpenEnv, rotate, open_latest_segment}
use watch_tower.Wal.Methods.{
  WriteEnv, ensure_segment, check_budget, write_segment, rotate_if_full, write_line, write,
  TruncateEnv, remove_segments, truncate,
}

total_size-append_file :
    (n bytes : Text) (d : Dir) → total_size (append_file n bytes d) ≤ total_size d + length bytes
unfolding total_size append_file is_segment
total_size-append_file n bytes [] = omega arith
total_size-append_file n bytes (f ∷ d) =
    ground (arith, total_size-append_file n bytes d, length-append f.content bytes)

total_size-snoc_empty :
    (n : Text) (d : Dir)
    → total_size (d ++ record { name = n; is_dir = false; content = [] } ∷ []) ≡ total_size d
unfolding total_size is_segment
total_size-snoc_empty n [] = ground arith
total_size-snoc_empty n (f ∷ d) = ground (arith, total_size-snoc_empty n d)

total_size-create_file : (n : Text) (d : Dir) → total_size (create_file n d) ≡ total_size d
unfolding create_file
total_size-create_file n d = ground (arith, total_size-snoc_empty n d)

total_size-remove_file : (n : Text) (d : Dir) → total_size (remove_file n d) ≤ total_size d
unfolding total_size remove_file is_segment
total_size-remove_file n [] = omega arith
total_size-remove_file n (f ∷ d) = ground (arith, total_size-remove_file n d)

total_size-remove_segments :
    (keeps : Text → Bool) (ns : List Text) (d : Dir)
    → total_size (remove_segments keeps ns d) ≤ total_size d
unfolding remove_segments
total_size-remove_segments keeps [] d = omega arith
total_size-remove_segments keeps (n ∷ ns) d = ground (
  arith,
  total_size-remove_file n d,
  total_size-remove_segments keeps ns d,
  total_size-remove_segments keeps ns (remove_file n d),
)

-- The files of the log fit the budget.
abbrev pub IsWithinBudget : Wal → Type 0
IsWithinBudget w = total_size w.dir ≤ w.max_total_size

rotate-IsWithinBudget :
    (env : RotateEnv) (w : Wal) → IsWithinBudget w → IsWithinBudget (rotate env w).1
unfolding rotate
rotate-IsWithinBudget env w h = ground (arith, total_size-create_file (segment_name env.now) w.dir)

open_latest_segment-IsWithinBudget :
    (env : OpenEnv) (w : Wal) → IsWithinBudget w → IsWithinBudget (open_latest_segment env w).1
unfolding open_latest_segment
open_latest_segment-IsWithinBudget env w h =
    ground (arith, total_size-create_file (segment_name env.rotation.now) w.dir)

-- Behind the check, a write of the line or of a part of it stays in the budget.
write_segment-IsWithinBudget :
    (env : WriteEnv) (line : Text) (w : Wal)
    → total_size w.dir + length line ≤ w.max_total_size
    → IsWithinBudget (write_segment env line w).1
unfolding write_segment
write_segment-IsWithinBudget env line w h =
    grind (arith, total_size-append_file, length-take-le {0})

rotate_if_full-IsWithinBudget :
    (env : WriteEnv) (w : Wal) → IsWithinBudget w → IsWithinBudget (rotate_if_full env w).1
unfolding rotate_if_full
rotate_if_full-IsWithinBudget env w h = ground (arith, rotate-IsWithinBudget env.after w)

ensure_segment-IsWithinBudget :
    (env : WriteEnv) (w : Wal) → IsWithinBudget w → IsWithinBudget (ensure_segment env w).1
unfolding ensure_segment
ensure_segment-IsWithinBudget env w h = ground (arith, rotate-IsWithinBudget env.before w)

-- The rest of `write_line` behind the check.
append_line-IsWithinBudget :
    (env : WriteEnv) (line : Text) (w : Wal)
    → IsWithinBudget w
    → IsWithinBudget ((check_budget env line >> (write_segment env line >> rotate_if_full env)) w).1
unfolding check_budget
append_line-IsWithinBudget env line w h = ground (
  arith,
  write_segment-IsWithinBudget env line w,
  rotate_if_full-IsWithinBudget env (write_segment env line w).1,
)

write_line-IsWithinBudget :
    (env : WriteEnv) (line : Text) (w : Wal)
    → IsWithinBudget w
    → IsWithinBudget (write_line env line w).1
unfolding write_line
write_line-IsWithinBudget env line w h = ground (
  arith,
  ensure_segment-IsWithinBudget env w,
  append_line-IsWithinBudget env line (ensure_segment env w).1,
)

-- A `Write` leaves the log within its disk budget if it was so before: whatever the event, the
-- encoder, the clock and the failing calls are, also where a write is cut short.
pub write-IsWithinBudget :
    (codec : Codec) (env : WriteEnv) (event : LogEvent) (w : Wal)
    → IsWithinBudget w
    → IsWithinBudget (write codec env event w).1
unfolding write
write-IsWithinBudget codec env event w h = grind (arith, write_line-IsWithinBudget)

-- A `Truncate` leaves the log within its disk budget if it was so before, whichever calls fail.
pub truncate-IsWithinBudget :
    (env : TruncateEnv) (w : Wal) → IsWithinBudget w → IsWithinBudget (truncate env w).1
unfolding truncate
truncate-IsWithinBudget env w h = ground (
  arith,
  total_size-remove_segments env.keeps (sorted_segments w.dir) w.dir,
  open_latest_segment-IsWithinBudget env.reopen (record w {
    current = none;
    is_closed = false;
    dir = remove_segments env.keeps (sorted_segments w.dir) w.dir;
  }),
)

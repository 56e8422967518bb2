-- ===== src/Wal/Segments.antt =====
-- The WAL's state and its unexported methods
-- (internal/adapter/repository/wal/wal_repository.go).
-- What the operating system answers to a method's calls is an argument of it, `...Env`.
use watch_tower.Common.{
  ℕ, Bool, false, Option, none, some, leb, if◌then◌else◌, Text, codes, length, last?, Op, ok, err,
  wrapped, Error,
}
use watch_tower.Wal.Files.{Dir, segment_name, content_of, create_file, sorted_segments}

-- `current` is the name of the file behind the handle currentSegment, none for nil; `is_closed`
-- says that the handle was closed by `Close`, which leaves it in place.
pub record Wal : Type 0 where
  pub max_segment_size : ℕ
  pub max_total_size : ℕ
  pub current : Option Text
  pub is_closed : Bool
  pub current_size : ℕ
  pub dir : Dir

-- The clock, and the error of os.OpenFile.
pub record RotateEnv : Type 0 where
  pub now : ℕ
  pub create : Option Error

-- The errors of Sync and Close are only logged.
unfoldable pub rotate : RotateEnv → Op Wal Unit
rotate env w = elim env.create [
  | some e ↦ (
    err (wrapped (codes "failed to create new WAL segment: ") e),
    record w { current = none; is_closed = false },
  )
  | none ↦ (
    ok tt,
    record w {
      current = some (segment_name env.now);
      is_closed = false;
      current_size = 0;
      dir = create_file (segment_name env.now) w.dir;
    },
  )
]

pub record OpenEnv : Type 0 where
  pub read_dir : Option Error
  pub stat : Option Error
  pub open_file : Option Error
  pub rotation : RotateEnv

abbrev pub opened : Text → Wal → Wal
opened name w = record w {
  current = some name;
  is_closed = false;
  current_size = length (content_of name w.dir);
}

-- The end of openLatestSegment, with the newest segment.
unfoldable pub open_segment : OpenEnv → Text → Op Wal Unit
unfolding rotate
open_segment env name w = elim env.stat [
  | some e ↦ (err (wrapped (codes "failed to stat latest segment: ") e), w)
  | none ↦ elim env.open_file [
    | some e ↦ (err (wrapped (codes "failed to open latest segment: ") e), w)
    | none ↦
        if leb w.max_segment_size (length (content_of name w.dir))
        then rotate env.rotation (opened name w)
        else (ok tt, opened name w)
  ]
]

unfoldable pub open_latest_segment : OpenEnv → Op Wal Unit
unfolding open_segment
open_latest_segment env w = elim env.read_dir [
  | some e ↦ (err (wrapped (codes "failed to read WAL directory: ") e), w)
  | none ↦ elim (last? (sorted_segments w.dir)) [
    | none ↦ rotate env.rotation w
    | some name ↦ open_segment env name w
  ]
]

-- ===== src/Wal/Log.antt =====
-- The abstract view of the WAL: the lines of its segments in the order in which `Replay` reads
-- them, and the states in which the next write adds exactly one line at the end
-- (internal/adapter/repository/wal/wal_repository.go).
pub mod Append
pub mod Write
pub mod RoundTrip
pub mod LongLine
pub mod Replay
pub mod Written
pub mod Accept
use watch_tower.Common.{
  ◌≡◌, true, false, Option, none, some, List, [], ◌∷◌, ◌++◌, All, concat_map, Text, text_eq,
  text_le,
}
use watch_tower.Scanner.{split_lines, whole}
use watch_tower.Wal.Files.{Dir, content?, content_of, sorted_segments, segment_names}
use watch_tower.Wal.Segments.{Wal}

abbrev pub lines_in : Dir → List Text → List Text
lines_in d ns = concat_map (λ n. split_lines (content_of n d)) ns

unfoldable pub log_lines : Dir → List Text
log_lines d = lines_in d (sorted_segments d)

-- The handle, if there is one, is open and belongs to the last of the segments.
abbrev pub IsNewest : Option Text → Dir → Type 0
IsNewest none d = Unit
IsNewest (some c) d =
    (older : List Text) × (bytes : Text) × (sorted_segments d ≡ older ++ c ∷ [])
    × All (λ n. text_eq c n ≡ false) older
    × (content? c d ≡ some bytes)

pub record IsReady (w : Wal) : Type 0 where
  pub open_handle : w.is_closed ≡ false
  pub newest : IsNewest w.current w.dir
  pub no_torn : All (λ n. whole (content_of n w.dir) ≡ true) (sorted_segments w.dir)

-- A name that no entry of the directory has, and that is above those of the segments.
pub record IsFresh (n : Text) (d : Dir) : Type 0 where
  pub absent : content? n d ≡ none
  pub above : All (λ m. text_le m n ≡ true) (segment_names d)

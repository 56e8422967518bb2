-- ===== src/Wal/Files.antt =====
-- The WAL directory, as the calls of package os see it, and the names of segments
-- (internal/adapter/repository/wal/wal_repository.go).
pub mod Contents
pub mod Sorting
use watch_tower.Common.{
  ℕ, zero, suc, ◌+◌, ◌/◌, ◌%◌, ◌≡◌, refl, Bool, true, false, not, ◌&&◌, Option, none, some, List,
  [], ◌∷◌, ◌++◌, map, arith, ltb, if◌then◌else◌, length, keep, Text, codes, text_eq, has_prefix,
  text_le,
}

pub record File : Type 0 where
  pub name : Text
  pub is_dir : Bool
  pub content : Text

abbrev pub Dir : Type 0
Dir = List File

abbrev pub segment_prefix : Text
segment_prefix = codes "segment-"

-- The decimal digits of a number: `%d` of fmt.Sprintf. The fuel is more than the digits.
unfoldable pub digits_from : ℕ → ℕ → Text
digits_from zero n = []
digits_from (suc f) n =
    let rest = digits_from f (n / 10) in
    if ltb n 10 then (48 + n) ∷ [] else rest ++ (48 + n % 10) ∷ []

unfoldable pub segment_name : ℕ → Text
unfolding digits_from
segment_name now = segment_prefix ++ (digits_from (suc now) now ++ codes ".log")

unfoldable pub is_segment : File → Bool
is_segment f = not f.is_dir && has_prefix segment_prefix f.name

-- The content of the first file with a name.
unfoldable pub content? : Text → Dir → Option Text
content? n [] = none
content? n (f ∷ d) = if text_eq f.name n then some f.content else content? n d

abbrev pub or_empty : Option Text → Text
or_empty none = []
or_empty (some c) = c

abbrev pub content_of : Text → Dir → Text
content_of n d = or_empty (content? n d)

-- A write through a handle that was opened with O_APPEND.
unfoldable pub append_file : Text → Text → Dir → Dir
append_file n bytes [] = []
append_file n bytes (f ∷ d) =
    if text_eq f.name n
    then record f { content = f.content ++ bytes } ∷ d
    else f ∷ append_file n bytes d

-- os.OpenFile with O_CREATE and without O_TRUNC: what exists is kept.
unfoldable pub create_file : Text → Dir → Dir
unfolding content?
create_file n d = elim (content? n d) [
  | none ↦ d ++ record { name = n; is_dir = false; content = [] } ∷ []
  | some _ ↦ d
]

-- os.Remove
unfoldable pub remove_file : Text → Dir → Dir
remove_file n [] = []
remove_file n (f ∷ d) = if text_eq f.name n then d else f ∷ remove_file n d

-- sort.Strings: the result is determined by the names.
unfoldable pub insert_name : Text → List Text → List Text
unfolding text_le
insert_name n [] = n ∷ []
insert_name n (m ∷ ms) = if text_le n m then n ∷ m ∷ ms else m ∷ insert_name n ms

unfoldable pub sort_names : List Text → List Text
unfolding insert_name
sort_names [] = []
sort_names (n ∷ ns) = insert_name n (sort_names ns)

-- The loop of getSortedSegments.
unfoldable pub segment_names : Dir → List Text
unfolding is_segment
segment_names [] = []
segment_names (f ∷ d) = if is_segment f then f.name ∷ segment_names d else segment_names d

-- The value that getSortedSegments returns where os.ReadDir succeeds.
unfoldable pub sorted_segments : Dir → List Text
sorted_segments d = sort_names (segment_names d)

-- The loop of calculateTotalSize.
unfoldable pub total_size : Dir → ℕ
unfolding is_segment
total_size [] = 0
total_size (f ∷ d) =
    let rest = total_size d in if is_segment f then length f.content + rest else rest

-- ===== src/Wal/Files/Contents.antt =====
-- What a write, a creation and a removal do to the contents and to the names of a directory.
use watch_tower.Common.{
  ◌≡◌, refl, true, false, none, some, List, [], ◌∷◌, ◌++◌, arith, if◌then◌else◌, Text, text_eq,
  text_eq_iff, text_eq_refl, has_prefix, All, inl, inr, Bool-cases,
}
use mathlib.Core.Option
use watch_tower.Wal.Files.Sorting.{sort_names-All}
use watch_tower.Wal.Files.{
  File, Dir, segment_prefix, is_segment, content?, append_file, create_file, segment_names,
  sorted_segments,
}

pub content?-append_file :
    (n m bytes : Text) (d : Dir)
    → content? m (append_file n bytes d)
      ≡ (if text_eq n m then Option.map (λ c. c ++ bytes) (content? m d) else content? m d)
unfolding content? append_file
content?-append_file n m bytes [] = ground arith
content?-append_file n m bytes (f ∷ d) = ground (
  arith,
  content?-append_file n m bytes d,
  text_eq_iff n m,
  text_eq_iff f.name n,
  text_eq_iff f.name m,
)

pub segment_names-append_file :
    (n bytes : Text) (d : Dir) → segment_names (append_file n bytes d) ≡ segment_names d
unfolding append_file segment_names
segment_names-append_file n bytes [] = refl
segment_names-append_file n bytes (f ∷ d) = ground (arith, segment_names-append_file n bytes d)

pub content?-snoc :
    (n m : Text) (d : Dir)
    → content? n d ≡ none
    → content? m (d ++ record { name = n; is_dir = false; content = [] } ∷ [])
      ≡ (if text_eq n m then some [] else content? m d)
unfolding content?
content?-snoc n m [] h = refl
content?-snoc n m (f ∷ d) h =
    ground (arith, content?-snoc n m d, text_eq_iff n m, text_eq_iff f.name n, text_eq_iff f.name m)

-- A segment that is created anew is empty, and the other files are as they were.
pub content?-create_file :
    (n m : Text) (d : Dir)
    → content? n d ≡ none
    → content? m (create_file n d) ≡ (if text_eq n m then some [] else content? m d)
unfolding create_file
content?-create_file n m d h = ground (arith, content?-snoc n m d h)

segment_names-snoc :
    (n : Text) (d : Dir)
    → has_prefix segment_prefix n ≡ true
    → segment_names (d ++ record { name = n; is_dir = false; content = [] } ∷ [])
      ≡ segment_names d ++ n ∷ []
unfolding segment_names
segment_names-snoc n [] h = ground arith
segment_names-snoc n (f ∷ d) h = ground (arith, segment_names-snoc n d h)

pub segment_names-create_file :
    (n : Text) (d : Dir)
    → has_prefix segment_prefix n ≡ true
    → content? n d ≡ none
    → segment_names (create_file n d) ≡ segment_names d ++ n ∷ []
unfolding create_file
segment_names-create_file n d p h = ground (arith, segment_names-snoc n d p)

abbrev pub IsPresent : Dir → Text → Type 0
IsPresent d n = (c : Text) × (content? n d ≡ some c)

IsPresent-cons : (f : File) (d : Dir) (n : Text) → IsPresent d n → IsPresent (f ∷ d) n
unfolding content?
IsPresent-cons f d n (c, p) = elim (Bool-cases (text_eq f.name n)) [
  | inl same ↦ (f.content, ground arith)
  | inr other ↦ (c, ground arith)
]

All-IsPresent-cons :
    (f : File) (d : Dir) (ns : List Text) → All (IsPresent d) ns → All (IsPresent (f ∷ d)) ns
All-IsPresent-cons f d [] h = tt
All-IsPresent-cons f d (n ∷ ns) h = (IsPresent-cons f d n h.0, All-IsPresent-cons f d ns h.1)

IsPresent-head : (f : File) (d : Dir) → IsPresent (f ∷ d) f.name
unfolding content?
IsPresent-head f d = (f.content, rw (text_eq_refl f.name))

-- Every segment of the listing can be opened.
pub segment_names-IsPresent : (d : Dir) → All (IsPresent d) (segment_names d)
unfolding segment_names
segment_names-IsPresent [] = tt
segment_names-IsPresent (f ∷ d) = elim (Bool-cases (is_segment f)) [
  | inl yes_segment ↦
      rw (yes_segment, segment_names)
        ((IsPresent-head f d, All-IsPresent-cons f d (segment_names d) (segment_names-IsPresent d)))
  | inr no_segment ↦
      rw (no_segment, segment_names)
        (All-IsPresent-cons f d (segment_names d) (segment_names-IsPresent d))
]

pub sorted_segments-IsPresent : (d : Dir) → All (IsPresent d) (sorted_segments d)
unfolding sorted_segments
sorted_segments-IsPresent d =
    sort_names-All (IsPresent d) (segment_names d) (segment_names-IsPresent d)

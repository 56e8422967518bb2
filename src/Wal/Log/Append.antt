-- ===== src/Wal/Log/Append.antt =====
-- How the two writes to the directory, of a line and of a new segment, change the view.
use watch_tower.Common.{
  ◌≡◌, refl, sym, ap, ◌∙◌, true, false, none, some, List, [], ◌∷◌, ◌++◌, arith, All, All-append,
  All-left, All-right, concat_map, Text, text_eq, text_eq_iff, text_eq_refl, has_prefix,
  append_assoc, append-nil, Bool-cases, inl, inr,
}
use mathlib.Core.Path.{ap₂, subst}
use watch_tower.Scanner.{split_lines, whole}
use watch_tower.Scanner.Laws.{split_lines-append, whole-append}
use watch_tower.Wal.Files.{
  Dir, segment_prefix, content?, content_of, or_empty, append_file, create_file, sorted_segments,
  segment_names,
}
use watch_tower.Wal.Files.Contents.{
  content?-append_file, segment_names-append_file, content?-create_file, segment_names-create_file,
  sorted_segments-IsPresent, IsPresent,
}
use watch_tower.Wal.Files.Sorting.{sort_names-snoc}
use watch_tower.Wal.Log.{lines_in, log_lines, IsNewest, IsFresh}

sorted_segments-append_file :
    (n bytes : Text) (d : Dir) → sorted_segments (append_file n bytes d) ≡ sorted_segments d
unfolding sorted_segments
sorted_segments-append_file n bytes d = rw segment_names-append_file

pub sorted_segments-create_file :
    (n : Text) (d : Dir)
    → has_prefix segment_prefix n ≡ true
    → IsFresh n d
    → sorted_segments (create_file n d) ≡ sorted_segments d ++ n ∷ []
unfolding sorted_segments
sorted_segments-create_file n d p f =
    rw (segment_names-create_file n d p f.absent) (sort_names-snoc n (segment_names d) f.above)

lines_in-append :
    (d : Dir) (xs ys : List Text) → lines_in d (xs ++ ys) ≡ lines_in d xs ++ lines_in d ys
unfolding concat_map
lines_in-append d [] ys = refl
lines_in-append d (x ∷ xs) ys =
    rw (lines_in-append d xs ys)
      (sym (append_assoc (split_lines (content_of x d)) (lines_in d xs) (lines_in d ys)))

-- Segments whose content is the same in two directories.
abbrev Agree : Dir → Dir → List Text → Type 0
Agree d d' = All (λ n. content? n d' ≡ content? n d)

lines_in-Agree : (d d' : Dir) (ns : List Text) → Agree d d' ns → lines_in d' ns ≡ lines_in d ns
unfolding concat_map
lines_in-Agree d d' [] h = refl
lines_in-Agree d d' (n ∷ ns) h =
    ap₂ (λ c ls. split_lines c ++ ls) (ap or_empty h.0) (lines_in-Agree d d' ns h.1)

whole-Agree :
    (d d' : Dir) (ns : List Text)
    → Agree d d' ns
    → All (λ n. whole (content_of n d) ≡ true) ns
    → All (λ n. whole (content_of n d') ≡ true) ns
whole-Agree d d' [] h k = tt
whole-Agree d d' (n ∷ ns) h k =
    (ap (λ c. whole (or_empty c)) h.0 ∙ k.0, whole-Agree d d' ns h.1 k.1)

Agree-append_file :
    (c bytes : Text) (d : Dir) (ns : List Text)
    → All (λ n. text_eq c n ≡ false) ns
    → Agree d (append_file c bytes d) ns
Agree-append_file c bytes d [] h = tt
Agree-append_file c bytes d (n ∷ ns) h =
    (rw (content?-append_file, h.0) refl, Agree-append_file c bytes d ns h.1)

-- A name that is absent differs from those that are present.
absent_ne :
    (n : Text) (d : Dir) (ns : List Text)
    → content? n d ≡ none
    → All (IsPresent d) ns
    → All (λ m. text_eq n m ≡ false) ns
absent_ne n d [] h k = tt
absent_ne n d (m ∷ ns) h k = (
  elim (Bool-cases (text_eq n m)) [
    | inl same ↦ ground (arith, k.0.1, ap (λ x. content? x d) ((text_eq_iff n m).0 same))
    | inr other ↦ other
  ],
  absent_ne n d ns h k.1,
)

fresh_ne : (n : Text) (d : Dir) → IsFresh n d → All (λ m. text_eq n m ≡ false) (sorted_segments d)
fresh_ne n d f = absent_ne n d (sorted_segments d) f.absent (sorted_segments-IsPresent d)

Agree-create_file :
    (n : Text) (d : Dir) (ns : List Text)
    → content? n d ≡ none
    → All (λ m. text_eq n m ≡ false) ns
    → Agree d (create_file n d) ns
Agree-create_file n d [] h k = tt
Agree-create_file n d (m ∷ ns) h k =
    (rw (content?-create_file n m d h, k.0) refl, Agree-create_file n d ns h k.1)

newest_lines :
    (d : Dir) (older : List Text) (c bytes : Text)
    → content? c d ≡ some bytes
    → lines_in d (older ++ c ∷ []) ≡ lines_in d older ++ split_lines bytes
unfolding concat_map
newest_lines d older c bytes e =
    lines_in-append d older (c ∷ [])
    ∙ ap (λ x. lines_in d older ++ x) (append-nil _ ∙ ap (λ o. split_lines (or_empty o)) e)

appended_content :
    (d : Dir) (c bytes line : Text)
    → content? c d ≡ some bytes
    → content? c (append_file c line d) ≡ some (bytes ++ line)
appended_content d c bytes line e = rw (content?-append_file c c line d, text_eq_refl c, e) refl

-- A write of whole lines to the newest segment adds their tokens at the end of the view.
pub log_lines-append_file :
    (d : Dir) (c line : Text)
    → IsNewest (some c) d
    → whole (content_of c d) ≡ true
    → log_lines (append_file c line d) ≡ log_lines d ++ split_lines line
unfolding log_lines
log_lines-append_file d c line (older, bytes, names, others, there) torn =
    let d' = append_file c line d in
    ap (lines_in d') (sorted_segments-append_file c line d ∙ names)
    ∙ newest_lines d' older c (bytes ++ line) (appended_content d c bytes line there)
    ∙ ap₂ (λ x y. x ++ y) (lines_in-Agree d d' older (Agree-append_file c line d older others))
        (split_lines-append bytes line (ap (λ o. whole (or_empty o)) (sym there) ∙ torn))
    ∙ sym (append_assoc (lines_in d older) (split_lines bytes) (split_lines line))
    ∙ ap (λ x. x ++ split_lines line)
        (sym (newest_lines d older c bytes there) ∙ ap (lines_in d) (sym names))

-- Nor does such a write tear a line.
pub whole-append_file :
    (d : Dir) (c line : Text)
    → IsNewest (some c) d
    → whole line ≡ true
    → All (λ n. whole (content_of n d) ≡ true) (sorted_segments d)
    → All
        (λ n. whole (content_of n (append_file c line d)) ≡ true)
        (sorted_segments (append_file c line d))
whole-append_file d c line (older, bytes, names, others, there) ends torn =
    let d' = append_file c line d in
    let torn' = subst (All (λ n. whole (content_of n d) ≡ true)) names torn in
    let last : whole bytes ≡ true =
      ap (λ o. whole (or_empty o)) (sym there)
      ∙ (All-right (λ n. whole (content_of n d) ≡ true) older (c ∷ []) torn').0 in
    rw (sorted_segments-append_file c line d, names)
      (All-append (λ n. whole (content_of n d') ≡ true) older (c ∷ [])
        (whole-Agree d d' older (Agree-append_file c line d older others)
          (All-left (λ n. whole (content_of n d) ≡ true) older (c ∷ []) torn'))
        (
          ap (λ o. whole (or_empty o)) (appended_content d c bytes line there)
              ∙ whole-append bytes line ends last,
          tt,
        ))

pub IsNewest-append_file :
    (d : Dir) (c line : Text) → IsNewest (some c) d → IsNewest (some c) (append_file c line d)
IsNewest-append_file d c line (older, bytes, names, others, there) = (
  older,
  bytes ++ line,
  sorted_segments-append_file c line d ∙ names,
  others,
  appended_content d c bytes line there,
)

created_content : (d : Dir) (n : Text) → IsFresh n d → content? n (create_file n d) ≡ some []
created_content d n f = rw (content?-create_file n n d f.absent, text_eq_refl n) refl

-- A new segment adds nothing to the view.
pub log_lines-create_file :
    (d : Dir) (n : Text)
    → has_prefix segment_prefix n ≡ true
    → IsFresh n d
    → log_lines (create_file n d) ≡ log_lines d
unfolding log_lines split_lines
log_lines-create_file d n p f =
    let d' = create_file n d in
    let ns = sorted_segments d in
    ap (lines_in d') (sorted_segments-create_file n d p f)
    ∙ newest_lines d' ns n [] (created_content d n f)
    ∙ append-nil (lines_in d' ns)
    ∙ lines_in-Agree d d' ns (Agree-create_file n d ns f.absent (fresh_ne n d f))

pub IsNewest-create_file :
    (d : Dir) (n : Text)
    → has_prefix segment_prefix n ≡ true
    → IsFresh n d
    → IsNewest (some n) (create_file n d)
IsNewest-create_file d n p f = (
  sorted_segments d,
  [],
  sorted_segments-create_file n d p f,
  fresh_ne n d f,
  created_content d n f,
)

pub whole-create_file :
    (d : Dir) (n : Text)
    → has_prefix segment_prefix n ≡ true
    → IsFresh n d
    → All (λ m. whole (content_of m d) ≡ true) (sorted_segments d)
    → All (λ m. whole (content_of m (create_file n d)) ≡ true) (sorted_segments (create_file n d))
unfolding whole
whole-create_file d n p f torn =
    let d' = create_file n d in
    let ns = sorted_segments d in
    rw (sorted_segments-create_file n d p f) (
      All-append (λ m. whole (content_of m d') ≡ true) ns (n ∷ [])
        (whole-Agree d d' ns (Agree-create_file n d ns f.absent (fresh_ne n d f)) torn)
        (ap (λ o. whole (or_empty o)) (created_content d n f), tt))

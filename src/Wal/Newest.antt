-- ===== src/Wal/Newest.antt =====
-- The newest segment of a directory, by the order of the names
-- (internal/adapter/repository/wal/wal_repository.go).
use watch_tower.Common.{
  ◌≡◌, ap, false, some, List, [], ◌∷◌, ◌++◌, arith, All, All-right, Text, text_eq, text_eq_iff,
  text_le, Bool-cases, inl, inr, last?,
}
use mathlib.Core.Path.{subst}
use watch_tower.Wal.Files.{Dir, is_segment, insert_name, sort_names, segment_names, sorted_segments}
use watch_tower.Wal.Files.Contents.{IsPresent, sorted_segments-IsPresent}
use watch_tower.Wal.Files.Sorting.{insert_name-All, sort_names-All}
use watch_tower.Wal.Removal.{IsDistinct}
use watch_tower.Wal.Log.{IsNewest}

-- No name stands twice in a list.
abbrev NoRepeat : List Text → Type 0
NoRepeat [] = Unit
NoRepeat (n ∷ ns) = All (λ m. text_eq n m ≡ false) ns × NoRepeat ns

insert_name-NoRepeat :
    (n : Text) (ns : List Text)
    → All (λ m. text_eq n m ≡ false) ns
    → NoRepeat ns
    → NoRepeat (insert_name n ns)
unfolding insert_name
insert_name-NoRepeat n [] a h = (tt, tt)
insert_name-NoRepeat n (m ∷ ms) a h = elim (Bool-cases (text_le n m)) [
  | inl le ↦ rw le (a, h)
  | inr gt ↦
      let other : text_eq m n ≡ false = ground (arith, a.0, text_eq_iff n m, text_eq_iff m n) in
      rw gt (
        insert_name-All (λ x. text_eq m x ≡ false) n ms other h.0,
        insert_name-NoRepeat n ms a.1 h.1,
      )
]

sort_names-NoRepeat : (ns : List Text) → NoRepeat ns → NoRepeat (sort_names ns)
unfolding sort_names
sort_names-NoRepeat [] h = tt
sort_names-NoRepeat (n ∷ ns) h =
    insert_name-NoRepeat n (sort_names ns) (sort_names-All (λ m. text_eq n m ≡ false) ns h.0)
      (sort_names-NoRepeat ns h.1)

other_names :
    (n : Text) (d : Dir)
    → All (λ g. text_eq n g.name ≡ false) d
    → All (λ m. text_eq n m ≡ false) (segment_names d)
unfolding segment_names
other_names n [] h = tt
other_names n (f ∷ d) h = elim (Bool-cases (is_segment f)) [
  | inl there ↦ rw there (h.0, other_names n d h.1)
  | inr other ↦ rw other (other_names n d h.1)
]

segment_names-NoRepeat : (d : Dir) → IsDistinct d → NoRepeat (segment_names d)
unfolding segment_names
segment_names-NoRepeat [] h = tt
segment_names-NoRepeat (f ∷ d) h = elim (Bool-cases (is_segment f)) [
  | inl there ↦ rw there (other_names f.name d h.0, segment_names-NoRepeat d h.1)
  | inr other ↦ rw other (segment_names-NoRepeat d h.1)
]

last?-split :
    (xs : List Text) (z : Text) → last? xs ≡ some z → (older : List Text) × (xs ≡ older ++ z ∷ [])
unfolding last?
last?-split [] z h = absurd (ground arith)
last?-split (x ∷ []) z h = ([], ground arith)
last?-split (x ∷ y ∷ xs) z h =
    let (older, e) = last?-split (y ∷ xs) z h in (x ∷ older, ap (◌∷◌ x) e)

before_last :
    (older : List Text) (z : Text)
    → NoRepeat (older ++ z ∷ [])
    → All (λ n. text_eq z n ≡ false) older
before_last [] z h = tt
before_last (n ∷ older) z h = (
  ground (
    arith,
    (All-right (λ m. text_eq n m ≡ false) older (z ∷ []) h.0).0,
    text_eq_iff n z,
    text_eq_iff z n,
  ),
  before_last older z h.1,
)

-- The last of the segments is the newest one, for a handle to it.
pub last-IsNewest :
    (d : Dir) (z : Text) → IsDistinct d → last? (sorted_segments d) ≡ some z → IsNewest (some z) d
unfolding sorted_segments
last-IsNewest d z distinct last =
    let (older, e) = last?-split (sorted_segments d) z last in
    let fresh = sort_names-NoRepeat (segment_names d) (segment_names-NoRepeat d distinct) in
    let (c, there) =
      (All-right (IsPresent d) older (z ∷ [])
        (subst (All (IsPresent d)) e (sorted_segments-IsPresent d))).0 in
    (older, c, e, before_last older z (subst NoRepeat e fresh), there)

-- ===== src/Wal/Removal.antt =====
-- What is left of a directory when segments are removed
-- (internal/adapter/repository/wal/wal_repository.go).
use mathlib.Core.Path.{subst}
use watch_tower.Common.{
  ◌≡◌, refl, sym, ◌∙◌, Bool, true, false, ◌||◌, none, List, [], ◌∷◌, arith, All, Text, text_eq,
  text_eq_iff, text_eq_refl, Bool-cases, inl, inr,
}
use watch_tower.Wal.Files.{
  File, Dir, is_segment, content?, remove_file, insert_name, sort_names, segment_names,
}
use watch_tower.Wal.Methods.{remove_segments}

-- No two entries of the directory have one name.
abbrev pub IsDistinct : Dir → Type 0
IsDistinct [] = Unit
IsDistinct (f ∷ d) = All (λ g. text_eq f.name g.name ≡ false) d × IsDistinct d

pub listed : Text → List Text → Bool
listed x [] = false
listed x (n ∷ ns) = text_eq x n || listed x ns

-- Each segment of the directory is in the list.
abbrev pub Covers : List Text → Dir → Type 0
Covers ns d = All (λ f. is_segment f ≡ true → listed f.name ns ≡ true) d

All-remove_file : (P : File → Type 0) (n : Text) (d : Dir) → All P d → All P (remove_file n d)
unfolding remove_file
All-remove_file P n [] h = tt
All-remove_file P n (f ∷ d) h = elim (Bool-cases (text_eq f.name n)) [
  | inl same ↦ rw same h.1
  | inr other ↦ rw other (h.0, All-remove_file P n d h.1)
]

pub IsDistinct-remove_file : (n : Text) (d : Dir) → IsDistinct d → IsDistinct (remove_file n d)
unfolding remove_file
IsDistinct-remove_file n [] h = tt
IsDistinct-remove_file n (f ∷ d) h = elim (Bool-cases (text_eq f.name n)) [
  | inl same ↦ rw same h.1
  | inr other ↦
      rw other (
        All-remove_file (λ g. text_eq f.name g.name ≡ false) n d h.0,
        IsDistinct-remove_file n d h.1,
      )
]

Covers-rest :
    (n : Text) (ns : List Text) (d : Dir)
    → All (λ g. text_eq n g.name ≡ false) d
    → Covers (n ∷ ns) d
    → Covers ns d
unfolding listed
Covers-rest n ns [] a h = tt
Covers-rest n ns (g ∷ d) a h = (
  λ s. ground (arith, h.0 s, a.0, text_eq_iff n g.name, text_eq_iff g.name n),
  Covers-rest n ns d a.1 h.1,
)

Covers-remove_file :
    (n : Text) (ns : List Text) (d : Dir)
    → IsDistinct d
    → Covers (n ∷ ns) d
    → Covers ns (remove_file n d)
unfolding remove_file listed
Covers-remove_file n ns [] u h = tt
Covers-remove_file n ns (f ∷ d) u h = elim (Bool-cases (text_eq f.name n)) [
  | inl same ↦
      let e : f.name ≡ n = (text_eq_iff f.name n).0 same in
      rw same (Covers-rest n ns d (rw e at u.0) h.1)
  | inr other ↦ rw other ((λ s. ground (arith, h.0 s)), Covers-remove_file n ns d u.1 h.1)
]

no_segments : (d : Dir) → Covers [] d → segment_names d ≡ []
unfolding segment_names listed
no_segments [] h = refl
no_segments (f ∷ d) h = ground (arith, no_segments d h.1, h.0)

pub segment_names-remove_segments :
    (keeps : Text → Bool) (ns : List Text) (d : Dir)
    → ((n : Text) → keeps n ≡ false)
    → IsDistinct d
    → Covers ns d
    → segment_names (remove_segments keeps ns d) ≡ []
unfolding remove_segments
segment_names-remove_segments keeps [] d k u h = no_segments d h
segment_names-remove_segments keeps (n ∷ ns) d k u h = rw (k n) (
    segment_names-remove_segments keeps ns (remove_file n d) k (IsDistinct-remove_file n d u)
      (Covers-remove_file n ns d u h))

listed-insert_name :
    (x n : Text) (ns : List Text) → listed x (insert_name n ns) ≡ (text_eq x n || listed x ns)
unfolding insert_name listed
listed-insert_name x n [] = refl
listed-insert_name x n (m ∷ ms) = ground (arith, listed-insert_name x n ms)

listed-sort_names : (x : Text) (ns : List Text) → listed x (sort_names ns) ≡ listed x ns
unfolding sort_names listed
listed-sort_names x [] = refl
listed-sort_names x (n ∷ ns) =
    ground (arith, listed-insert_name x n (sort_names ns), listed-sort_names x ns)

Covers-cons : (n : Text) (ns : List Text) (d : Dir) → Covers ns d → Covers (n ∷ ns) d
unfolding listed
Covers-cons n ns [] h = tt
Covers-cons n ns (f ∷ d) h = ((λ s. ground (arith, h.0 s)), Covers-cons n ns d h.1)

pub segment_names-Covers : (d : Dir) → Covers (segment_names d) d
unfolding segment_names listed
segment_names-Covers [] = tt
segment_names-Covers (f ∷ d) = elim (Bool-cases (is_segment f)) [
  | inl there ↦
      let e : segment_names (f ∷ d) ≡ f.name ∷ segment_names d = ground arith in
      subst (λ ns. Covers ns (f ∷ d)) (sym e)
        (
          (λ s. ground (arith, text_eq_refl f.name)),
          Covers-cons f.name (segment_names d) d (segment_names-Covers d),
        )
  | inr other ↦
      let e : segment_names (f ∷ d) ≡ segment_names d = ground arith in
      subst (λ ns. Covers ns (f ∷ d)) (sym e) ((λ s. absurd (ground arith)), segment_names-Covers d)
]

pub sort_names-Covers : (ns : List Text) (d : Dir) → Covers ns d → Covers (sort_names ns) d
sort_names-Covers ns [] h = tt
sort_names-Covers ns (f ∷ d) h =
    ((λ s. listed-sort_names f.name ns ∙ h.0 s), sort_names-Covers ns d h.1)

-- A name that no entry has, none has after a removal.
absent-remove_file :
    (m n : Text) (d : Dir) → content? m d ≡ none → content? m (remove_file n d) ≡ none
unfolding content? remove_file
absent-remove_file m n [] h = h
absent-remove_file m n (f ∷ d) h = ground (arith, absent-remove_file m n d)

pub absent-remove_segments :
    (keeps : Text → Bool) (m : Text) (ns : List Text) (d : Dir)
    → content? m d ≡ none
    → content? m (remove_segments keeps ns d) ≡ none
unfolding remove_segments
absent-remove_segments keeps m [] d h = h
absent-remove_segments keeps m (n ∷ ns) d h = elim (Bool-cases (keeps n)) [
  | inl kept ↦ rw kept (absent-remove_segments keeps m ns d h)
  | inr removed ↦
      rw removed (absent-remove_segments keeps m ns (remove_file n d) (absent-remove_file m n d h))
]

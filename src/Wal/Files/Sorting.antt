-- ===== src/Wal/Files/Sorting.antt =====
-- Sorting the names of segments: a name that is not below the others stands last.
use watch_tower.Common.{
  Bool-cases, inl, inr, ◌≡◌, refl, true, List, [], ◌∷◌, ◌++◌, arith, All, Text, text_le,
}
use watch_tower.Wal.Files.{insert_name, sort_names}

insert_name-snoc :
    (n z : Text) (ns : List Text)
    → text_le n z ≡ true
    → insert_name n (ns ++ z ∷ []) ≡ insert_name n ns ++ z ∷ []
unfolding insert_name
insert_name-snoc n z [] h = ground arith
insert_name-snoc n z (m ∷ ns) h = ground (arith, insert_name-snoc n z ns h)

pub sort_names-snoc :
    (z : Text) (ns : List Text)
    → All (λ n. text_le n z ≡ true) ns
    → sort_names (ns ++ z ∷ []) ≡ sort_names ns ++ z ∷ []
unfolding sort_names
sort_names-snoc z [] h = refl
sort_names-snoc z (n ∷ ns) h =
    ground (arith, sort_names-snoc z ns h.1, insert_name-snoc n z (sort_names ns) h.0)

pub insert_name-All {κ} :
    (P : Text → Type κ) (n : Text) (ns : List Text) → P n → All P ns → All P (insert_name n ns)
unfolding insert_name
insert_name-All P n [] h hs = (h, tt)
insert_name-All P n (m ∷ ns) h hs = elim (Bool-cases (text_le n m)) [
  | inl le ↦ rw le (h, hs)
  | inr gt ↦ rw gt (hs.0, insert_name-All P n ns h hs.1)
]

-- Sorting keeps what holds of every name.
pub sort_names-All {κ} : (P : Text → Type κ) (ns : List Text) → All P ns → All P (sort_names ns)
unfolding sort_names
sort_names-All P [] h = tt
sort_names-All P (n ∷ ns) h = insert_name-All P n (sort_names ns) h.0 (sort_names-All P ns h.1)

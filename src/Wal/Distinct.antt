-- ===== src/Wal/Distinct.antt =====
-- No two entries of the WAL directory get one name (internal/adapter/repository/wal/wal_repository.go).
use watch_tower.Common.{
  ℕ, ◌≡◌, false, Option, none, [], ◌∷◌, ◌++◌, arith, All, All-append, Text, text_eq, Bool-cases,
  Option-cases, inl, inr, Error, ok,
}
use watch_tower.Domain.{LogEvent}
use watch_tower.Domain.Codec.{Codec}
use watch_tower.Wal.Files.{File, Dir, content?, append_file, create_file, segment_name}
use watch_tower.Wal.Segments.{Wal, OpenEnv}
use watch_tower.Wal.Methods.{WriteEnv, write, TruncateEnv, truncate, new_wal}
use watch_tower.Wal.Removal.{IsDistinct, IsDistinct-remove_file}
use watch_tower.Wal.Closed.{Creates, write-closed, truncate-closed, new_wal-closed}

abbrev Others : Text → Dir → Type 0
Others n d = All (λ g. text_eq n g.name ≡ false) d

Others-append_file : (m n bytes : Text) (d : Dir) → Others m d → Others m (append_file n bytes d)
unfolding append_file
Others-append_file m n bytes [] h = tt
Others-append_file m n bytes (f ∷ d) h = elim (Bool-cases (text_eq f.name n)) [
  | inl same ↦ rw same h
  | inr other ↦ rw other (h.0, Others-append_file m n bytes d h.1)
]

IsDistinct-append_file :
    (n bytes : Text) (d : Dir) → IsDistinct d → IsDistinct (append_file n bytes d)
unfolding append_file
IsDistinct-append_file n bytes [] h = tt
IsDistinct-append_file n bytes (f ∷ d) h = elim (Bool-cases (text_eq f.name n)) [
  | inl same ↦ rw same h
  | inr other ↦
      rw other (Others-append_file f.name n bytes d h.0, IsDistinct-append_file n bytes d h.1)
]

abbrev empty_file : Text → File
empty_file n = record { name = n; is_dir = false; content = [] }

IsDistinct-snoc :
    (n : Text) (d : Dir) → content? n d ≡ none → IsDistinct d → IsDistinct (d ++ empty_file n ∷ [])
unfolding content?
IsDistinct-snoc n [] absent h = (tt, tt)
IsDistinct-snoc n (f ∷ d) absent h = elim (Bool-cases (text_eq f.name n)) [
  | inl same ↦ absurd (ground (arith))
  | inr other ↦ (
    All-append (λ g. text_eq f.name g.name ≡ false) d (empty_file n ∷ []) h.0 (other, tt),
    IsDistinct-snoc n d (rw other at absent) h.1,
  )
]

IsDistinct-create_file : (n : Text) (d : Dir) → IsDistinct d → IsDistinct (create_file n d)
unfolding create_file
IsDistinct-create_file n d h = elim (Option-cases (content? n d)) [
  | inl absent ↦ rw (absent, create_file) (IsDistinct-snoc n d absent h)
  | inr (c, there) ↦ rw (there, create_file) h
]

segment_created : (now : ℕ) → Creates IsDistinct now
segment_created now d = IsDistinct-create_file (segment_name now) d

pub write-IsDistinct :
    (codec : Codec) (env : WriteEnv) (event : LogEvent) (w : Wal)
    → IsDistinct w.dir
    → IsDistinct (write codec env event w).1.dir
write-IsDistinct codec env event w =
    write-closed IsDistinct env IsDistinct-append_file codec event w
      (segment_created env.before.now) (segment_created env.after.now)

pub truncate-IsDistinct :
    (env : TruncateEnv) (w : Wal) → IsDistinct w.dir → IsDistinct (truncate env w).1.dir
truncate-IsDistinct env w =
    truncate-closed IsDistinct env w IsDistinct-remove_file
      (segment_created env.reopen.rotation.now)

pub new_wal-IsDistinct :
    (mkdir : Option Error) (env : OpenEnv) (max_segment max_total : ℕ) (d : Dir) (w : Wal)
    → (new_wal mkdir env max_segment max_total d tt).0 ≡ ok w
    → IsDistinct d
    → IsDistinct w.dir
new_wal-IsDistinct mkdir env max_segment max_total d w opened =
    new_wal-closed IsDistinct mkdir env max_segment max_total d w opened
      (segment_created env.rotation.now)

-- ===== src/Wal/Dated.antt =====
-- Directories in which only the log creates files, each at its time
-- (internal/adapter/repository/wal/wal_repository.go).
use watch_tower.Common.{
  ℕ, suc, ◌≤◌, ◌<◌, ◌≡◌, refl, ap, ◌∙◌, true, false, none, [], ◌∷◌, ◌++◌, arith, All, Text, text_eq,
  text_eq_iff, text_le, text_le_refl, Bool-cases, inl, inr, Option, Error, ok,
}
use watch_tower.Domain.{LogEvent}
use watch_tower.Domain.Codec.{Codec}
use watch_tower.Wal.Files.{
  File, Dir, is_segment, content?, append_file, create_file, remove_file, segment_name,
  segment_names,
}
use watch_tower.Wal.Segments.{Wal, OpenEnv}
use watch_tower.Wal.Methods.{WriteEnv, write, TruncateEnv, truncate, new_wal}
use watch_tower.Wal.Log.{IsFresh}
use watch_tower.Wal.Log.Write.{IsAdvancing}
use watch_tower.Wal.Clock.{IsCurrent, segment_name-order}
use watch_tower.Wal.Closed.{write-closed, truncate-closed, new_wal-closed}

-- A file that was created as a segment at a time before `t`.
abbrev pub IsDatedFile : ℕ → File → Type 0
IsDatedFile t f = (k : ℕ) × (f.name ≡ segment_name k) × IsCurrent k × (k < t)

abbrev pub IsDated : ℕ → Dir → Type 0
IsDated t d = All (IsDatedFile t) d

pub IsDated-later : (t t' : ℕ) (d : Dir) → t ≤ t' → IsDated t d → IsDated t' d
IsDated-later t t' [] le h = tt
IsDated-later t t' (f ∷ d) le ((k, name, current, before), h) =
    ((k, name, current, omega arith), IsDated-later t t' d le h)

IsDated-append_file :
    (t : ℕ) (n bytes : Text) (d : Dir) → IsDated t d → IsDated t (append_file n bytes d)
unfolding append_file
IsDated-append_file t n bytes [] h = tt
IsDated-append_file t n bytes (f ∷ d) h = elim (Bool-cases (text_eq f.name n)) [
  | inl same ↦ rw same h
  | inr other ↦ rw other (h.0, IsDated-append_file t n bytes d h.1)
]

IsDated-snoc :
    (t now : ℕ) (d : Dir)
    → IsCurrent now
    → now < t
    → IsDated t d
    → IsDated t (d ++ record { name = segment_name now; is_dir = false; content = [] } ∷ [])
IsDated-snoc t now [] c lt h = ((now, refl, c, lt), tt)
IsDated-snoc t now (f ∷ d) c lt h = (h.0, IsDated-snoc t now d c lt h.1)

IsDated-create_file :
    (t now : ℕ) (d : Dir)
    → IsCurrent now
    → now < t
    → IsDated t d
    → IsDated t (create_file (segment_name now) d)
unfolding create_file
IsDated-create_file t now d c lt h = ground (arith, IsDated-snoc t now d c lt h)

IsDated-remove_file : (t : ℕ) (n : Text) (d : Dir) → IsDated t d → IsDated t (remove_file n d)
unfolding remove_file
IsDated-remove_file t n [] h = tt
IsDated-remove_file t n (f ∷ d) h = elim (Bool-cases (text_eq f.name n)) [
  | inl same ↦ rw same h.1
  | inr other ↦ rw other (h.0, IsDated-remove_file t n d h.1)
]

-- A later time gives a name that no file has.
ne_earlier :
    (k now : ℕ)
    → IsCurrent k
    → IsCurrent now
    → k < now
    → text_eq (segment_name k) (segment_name now) ≡ false
ne_earlier k now ck cn lt = elim (Bool-cases (text_eq (segment_name k) (segment_name now))) [
  | inr other ↦ other
  | inl same ↦
      let e = (text_eq_iff (segment_name k) (segment_name now)).0 same in
      let back = segment_name-order now k cn ck in
      absurd
        (ground (arith, back, ap (text_le (segment_name now)) e, text_le_refl (segment_name now)))
]

absent_later :
    (t now : ℕ) (d : Dir)
    → IsDated t d
    → t ≤ now
    → IsCurrent now
    → content? (segment_name now) d ≡ none
unfolding content?
absent_later t now [] h le c = refl
absent_later t now (f ∷ d) ((k, name, current, before), h) le c =
    let other : text_eq f.name (segment_name now) ≡ false =
      ap (λ n. text_eq n (segment_name now)) name ∙ ne_earlier k now current c (omega arith) in
    rw other (absent_later t now d h le c)

above_earlier :
    (t now : ℕ) (d : Dir)
    → IsDated t d
    → t ≤ now
    → IsCurrent now
    → All (λ m. text_le m (segment_name now) ≡ true) (segment_names d)
unfolding segment_names
above_earlier t now [] h le c = tt
above_earlier t now (f ∷ d) ((k, name, current, before), h) le c =
    let below : text_le f.name (segment_name now) ≡ true =
      ap (λ n. text_le n (segment_name now)) name
      ∙ segment_name-order k now current c
      ∙ (ground arith) in
    let rest = above_earlier t now d h le c in
    elim (Bool-cases (is_segment f)) [
      | inl there ↦ rw there (below, rest)
      | inr other ↦ rw other rest
    ]

pub IsDated-IsFresh :
    (t now : ℕ) (d : Dir) → IsDated t d → t ≤ now → IsCurrent now → IsFresh (segment_name now) d
IsDated-IsFresh t now d h le c = record {
  absent = absent_later t now d h le c;
  above = above_earlier t now d h le c;
}

-- The clock of a write: it does not go back, and moves on between the two rotations.
pub record IsTimed (t : ℕ) (env : WriteEnv) : Type 0 where
  pub start : t ≤ env.before.now
  pub moves : env.before.now < env.after.now
  pub before : IsCurrent env.before.now
  pub after : IsCurrent env.after.now

pub IsTimed-IsAdvancing :
    (t : ℕ) (env : WriteEnv) (d : Dir) → IsDated t d → IsTimed t env → IsAdvancing env d
IsTimed-IsAdvancing t env d h c = record {
  before_fresh = IsDated-IsFresh t env.before.now d h c.start c.before;
  after_fresh = IsDated-IsFresh t env.after.now d h (omega (arith, c.start, c.moves)) c.after;
  ordered =
      segment_name-order env.before.now env.after.now c.before c.after ∙ (ground (arith, c.moves));
  distinct = ne_earlier env.before.now env.after.now c.before c.after c.moves;
}

pub write-IsDated :
    (t : ℕ) (codec : Codec) (env : WriteEnv) (event : LogEvent) (w : Wal)
    → IsTimed t env
    → IsDated t w.dir
    → IsDated (suc env.after.now) (write codec env event w).1.dir
write-IsDated t codec env event w c h =
    let t' = suc env.after.now in
    write-closed (IsDated t') env (λ n bytes d. IsDated-append_file t' n bytes d) codec event w
      (λ d. IsDated-create_file t' env.before.now d c.before (omega (arith, c.moves)))
      (λ d. IsDated-create_file t' env.after.now d c.after (omega arith))
      (IsDated-later t t' w.dir (omega (arith, c.start, c.moves)) h)

pub truncate-IsDated :
    (t : ℕ) (env : TruncateEnv) (w : Wal)
    → t ≤ env.reopen.rotation.now
    → IsCurrent env.reopen.rotation.now
    → IsDated t w.dir
    → IsDated (suc env.reopen.rotation.now) (truncate env w).1.dir
truncate-IsDated t env w le c h =
    let t' = suc env.reopen.rotation.now in
    truncate-closed (IsDated t') env w (λ n d. IsDated-remove_file t' n d)
      (λ d. IsDated-create_file t' env.reopen.rotation.now d c (omega arith))
      (IsDated-later t t' w.dir (omega arith) h)

pub new_wal-IsDated :
    (t : ℕ) (mkdir : Option Error) (env : OpenEnv) (max_segment max_total : ℕ) (d : Dir) (w : Wal)
    → t ≤ env.rotation.now
    → IsCurrent env.rotation.now
    → (new_wal mkdir env max_segment max_total d tt).0 ≡ ok w
    → IsDated t d
    → IsDated (suc env.rotation.now) w.dir
new_wal-IsDated t mkdir env max_segment max_total d w le c opened h =
    let t' = suc env.rotation.now in
    new_wal-closed (IsDated t') mkdir env max_segment max_total d w opened
      (λ d. IsDated-create_file t' env.rotation.now d c (omega arith))
      (IsDated-later t t' d (omega arith) h)

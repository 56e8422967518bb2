-- ===== src/Wal/Log/Write.antt =====
-- A write adds its line at the end of the view, or nothing
-- (internal/adapter/repository/wal/wal_repository.go).
use watch_tower.Common.{
  ℕ, ◌≡◌, refl, true, false, none, some, [], ◌∷◌, ◌++◌, arith, All, All-append, Text, text_eq,
  text_le, has_prefix, Option-cases, inl, inr, ok,
}
use watch_tower.Scanner.{whole}
use watch_tower.Wal.Files.{
  Dir, segment_prefix, segment_name, segment_names, content_of, append_file, create_file,
  sorted_segments,
}
use watch_tower.Wal.Files.Contents.{
  content?-append_file, content?-create_file, segment_names-append_file, segment_names-create_file,
}
use watch_tower.Wal.Segments.{Wal, RotateEnv, rotate}
use watch_tower.Wal.Methods.{WriteEnv, ensure_segment}
use watch_tower.Wal.Log.{log_lines, IsReady, IsFresh}
use watch_tower.Wal.Log.Append.{log_lines-create_file, IsNewest-create_file, whole-create_file}

has_prefix_append : (p s : Text) → has_prefix p (p ++ s) ≡ true
unfolding has_prefix
has_prefix_append [] s = refl
has_prefix_append (a ∷ p) s = ground (arith, has_prefix_append p s)

pub segment_name_prefix : (now : ℕ) → has_prefix segment_prefix (segment_name now) ≡ true
unfolding segment_name
segment_name_prefix now = has_prefix_append segment_prefix _

-- The clock moves on between the rotations, and no segment has a name of a later time.
pub record IsAdvancing (env : WriteEnv) (d : Dir) : Type 0 where
  pub before_fresh : IsFresh (segment_name env.before.now) d
  pub after_fresh : IsFresh (segment_name env.after.now) d
  pub ordered : text_le (segment_name env.before.now) (segment_name env.after.now) ≡ true
  pub distinct : text_eq (segment_name env.before.now) (segment_name env.after.now) ≡ false

-- A rotation, also one that fails, changes nothing of the view.
pub record IsSame (w w' : Wal) : Type 0 where
  pub ready : IsReady w'
  pub view : log_lines w'.dir ≡ log_lines w.dir

pub rotate-IsSame :
    (env : RotateEnv) (w : Wal)
    → IsFresh (segment_name env.now) w.dir
    → All (λ n. whole (content_of n w.dir) ≡ true) (sorted_segments w.dir)
    → IsSame w (rotate env w).1
unfolding rotate
rotate-IsSame env w f torn = elim (Option-cases env.create) [
  | inl created ↦
      rw (created, rotate)
        (record {
          ready = record {
            open_handle = refl;
            newest =
                IsNewest-create_file w.dir (segment_name env.now) (segment_name_prefix env.now) f;
            no_torn =
                whole-create_file w.dir (segment_name env.now) (segment_name_prefix env.now) f torn;
          };
          view = log_lines-create_file w.dir (segment_name env.now) (segment_name_prefix env.now) f;
        })
  | inr (e, failed) ↦
      rw (failed, rotate)
        (record { ready = record { open_handle = refl; newest = tt; no_torn = torn }; view = refl })
]

pub IsFresh-append_file :
    (n c line : Text) (d : Dir) → IsFresh n d → IsFresh n (append_file c line d)
IsFresh-append_file n c line d f = record {
  absent = rw (content?-append_file, f.absent) (ground arith);
  above = rw segment_names-append_file f.above;
}

IsFresh-create_file :
    (n m : Text) (d : Dir)
    → has_prefix segment_prefix n ≡ true
    → IsFresh n d
    → IsFresh m d
    → text_le n m ≡ true
    → text_eq n m ≡ false
    → IsFresh m (create_file n d)
IsFresh-create_file n m d p f g le ne = record {
  absent = rw (content?-create_file n m d f.absent, ne) g.absent;
  above =
      rw (segment_names-create_file n d p f.absent)
        (All-append (λ k. text_le k m ≡ true) (segment_names d) (n ∷ []) g.above (le, tt));
}

-- What `ensure_segment` hands on where it succeeds.
pub record IsOpened (env : WriteEnv) (w w' : Wal) : Type 0 where
  pub same : IsSame w w'
  pub fresh : IsFresh (segment_name env.after.now) w'.dir
  pub name : Text
  pub handle : w'.current ≡ some name

ensure_closed :
    (env : WriteEnv) (w : Wal) → w.current ≡ none → ensure_segment env w ≡ rotate env.before w
unfolding ensure_segment
ensure_closed env w h = ground arith

ensure_open :
    (env : WriteEnv) (w : Wal) (c : Text) → w.current ≡ some c → ensure_segment env w ≡ (ok tt, w)
unfolding ensure_segment
ensure_open env w c h = ground arith

pub ensure_segment-IsSame :
    (env : WriteEnv) (w : Wal)
    → IsReady w
    → IsAdvancing env w.dir
    → IsSame w (ensure_segment env w).1
ensure_segment-IsSame env w r a = elim (Option-cases w.current) [
  | inl closed ↦
      rw (ensure_closed env w closed) (rotate-IsSame env.before w a.before_fresh r.no_torn)
  | inr (c, held) ↦ rw (ensure_open env w c held) (record { ready = r; view = refl })
]

rotate-IsOpened :
    (env : WriteEnv) (w : Wal)
    → IsReady w
    → IsAdvancing env w.dir
    → (rotate env.before w).0 ≡ ok tt
    → IsOpened env w (rotate env.before w).1
unfolding rotate
rotate-IsOpened env w r a h = elim (Option-cases env.before.create) [
  | inl created ↦ record {
    same = rotate-IsSame env.before w a.before_fresh r.no_torn;
    fresh =
        rw (created, rotate)
          (IsFresh-create_file (segment_name env.before.now) (segment_name env.after.now) w.dir
            (segment_name_prefix env.before.now) a.before_fresh a.after_fresh a.ordered a.distinct);
    name = segment_name env.before.now;
    handle = ground arith;
  }
  | inr (e, failed) ↦ absurd (ground arith)
]

pub ensure_segment-IsOpened :
    (env : WriteEnv) (w : Wal)
    → IsReady w
    → IsAdvancing env w.dir
    → (ensure_segment env w).0 ≡ ok tt
    → IsOpened env w (ensure_segment env w).1
ensure_segment-IsOpened env w r a h = elim (Option-cases w.current) [
  | inl closed ↦ let e = ensure_closed env w closed in rw e (rotate-IsOpened env w r a (rw e at h))
  | inr (c, held) ↦ rw (ensure_open env w c held) (record {
    same = record { ready = r; view = refl };
    fresh = a.after_fresh;
    name = c;
    handle = held;
  })
]

-- ===== src/Wal/Opened.antt =====
-- What `NewWALRepository` makes of a directory that is already there
-- (internal/adapter/repository/wal/wal_repository.go).
use watch_tower.Common.{
  ◌≡◌, refl, sym, true, false, Option, none, some, List, arith, All, Text, Option-cases, Bool-cases,
  inl, inr, ok, last?, Error, ℕ, leb, length,
}
use mathlib.Core.Path.{subst}
use watch_tower.Scanner.{whole}
use watch_tower.Domain.Codec.{Codec, CodecLaws}
use watch_tower.Domain.{LogEvent}
use watch_tower.Wal.Files.{content_of, sorted_segments, segment_name}
use watch_tower.Wal.Segments.{Wal, OpenEnv, rotate, opened, open_segment, open_latest_segment}
use watch_tower.Wal.Methods.{new_wal}
use watch_tower.Wal.Removal.{IsDistinct}
use watch_tower.Wal.Log.{IsNewest, IsFresh}
use watch_tower.Wal.Log.Write.{IsSame, rotate-IsSame}
use watch_tower.Wal.Log.Replay.{Fits, Decodes}
use watch_tower.Wal.Log.RoundTrip.{Holds}
use watch_tower.Wal.Newest.{last-IsNewest}

open_segment-IsSame :
    (env : OpenEnv) (z : Text) (w : Wal)
    → w.current ≡ none
    → w.is_closed ≡ false
    → IsNewest (some z) w.dir
    → IsFresh (segment_name env.rotation.now) w.dir
    → All (λ n. whole (content_of n w.dir) ≡ true) (sorted_segments w.dir)
    → IsSame w (open_segment env z w).1
unfolding open_segment
open_segment-IsSame env z w idle unclosed newest fresh torn =
    let as_before : IsSame w w = record {
      ready = record {
        open_handle = unclosed;
        newest = subst (λ c. IsNewest c w.dir) (sym idle) tt;
        no_torn = torn;
      };
      view = refl;
    } in
    elim (Option-cases env.stat) [
      | inr (e, failed) ↦
          let same : (open_segment env z w).1 ≡ w = ground arith in rw same as_before
      | inl stat ↦ elim (Option-cases env.open_file) [
        | inr (e, failed) ↦
            let same : (open_segment env z w).1 ≡ w = ground arith in rw same as_before
        | inl open_file ↦ elim (Bool-cases (leb w.max_segment_size (length (content_of z w.dir)))) [
          | inr room ↦
              let same : (open_segment env z w).1 ≡ opened z w = ground arith in
              rw same (record {
                ready = record { open_handle = refl; newest = newest; no_torn = torn };
                view = refl;
              })
          | inl full ↦
              let same : (open_segment env z w).1 ≡ (rotate env.rotation (opened z w)).1 =
                ground arith in
              let s = rotate-IsSame env.rotation (opened z w) fresh torn in
              rw same (record { ready = s.ready; view = s.view })
        ]
      ]
    ]

open_latest_segment-IsSame :
    (env : OpenEnv) (w : Wal)
    → w.current ≡ none
    → w.is_closed ≡ false
    → IsDistinct w.dir
    → IsFresh (segment_name env.rotation.now) w.dir
    → All (λ n. whole (content_of n w.dir) ≡ true) (sorted_segments w.dir)
    → IsSame w (open_latest_segment env w).1
unfolding open_latest_segment
open_latest_segment-IsSame env w idle unclosed distinct fresh torn =
    elim (Option-cases env.read_dir) [
      | inr (e, failed) ↦
          let same : (open_latest_segment env w).1 ≡ w = ground arith in
          rw same (record {
            ready = record {
              open_handle = unclosed;
              newest = subst (λ c. IsNewest c w.dir) (sym idle) tt;
              no_torn = torn;
            };
            view = refl;
          })
      | inl listable ↦ elim (Option-cases (last? (sorted_segments w.dir))) [
        | inl nothing ↦
            let same : (open_latest_segment env w).1 ≡ (rotate env.rotation w).1 = ground arith in
            rw same (rotate-IsSame env.rotation w fresh torn)
        | inr (z, last) ↦
            let same : (open_latest_segment env w).1 ≡ (open_segment env z w).1 = ground arith in
            rw same (
              open_segment-IsSame env z w idle unclosed (last-IsNewest w.dir z distinct last) fresh
                torn)
      ]
    ]

-- If a log holds certain events, and its directory has no two entries of one name, none of the name
-- that the clock gives a new segment, and no segment of a later name, then a repository that is
-- opened on that directory without an error holds the same events, and is ready for the next write:
-- a restart loses nothing, whatever sizes it is configured with.
pub new_wal-Holds :
    (codec : Codec) (laws : CodecLaws codec) (w : Wal) (es : List LogEvent) (mkdir : Option Error)
    (env : OpenEnv) (max_segment max_total : ℕ) (w' : Wal)
    → Holds codec laws w es
    → IsDistinct w.dir
    → IsFresh (segment_name env.rotation.now) w.dir
    → (new_wal mkdir env max_segment max_total w.dir tt).0 ≡ ok w'
    → Holds codec laws w' es
unfolding new_wal
new_wal-Holds codec laws w es mkdir env max_segment max_total w' holds distinct fresh opened =
    let start : Wal = record {
      max_segment_size = max_segment;
      max_total_size = max_total;
      current = none;
      is_closed = false;
      current_size = 0;
      dir = w.dir;
    } in
    let same = open_latest_segment-IsSame env start refl refl distinct fresh holds.ready.no_torn in
    let e : (open_latest_segment env start).1 ≡ w' = ground arith in
    let s = subst (IsSame start) e same in
    record {
      ready = s.ready;
      fits = subst Fits (sym s.view) holds.fits;
      decodes = subst (λ ls. Decodes codec ls es) (sym s.view) holds.decodes;
    }

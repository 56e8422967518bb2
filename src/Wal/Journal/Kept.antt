-- ===== src/Wal/Journal/Kept.antt =====
-- What was accepted is replayed, after any life of the log
-- (internal/adapter/repository/wal/wal_repository.go).
use watch_tower.Common.{◌≡◌, refl, arith, none, [], false, Op, concat_map}
use watch_tower.Domain.{LogEvent}
use watch_tower.Domain.Codec.{Codec, CodecLaws}
use watch_tower.Wal.Files.{sorted_segments, segment_names, sort_names}
use watch_tower.Wal.Segments.{Wal}
use watch_tower.Wal.Methods.{ReplayEnv, replay}
use watch_tower.Wal.Dated.{IsDated-IsFresh, new_wal-IsDated}
use watch_tower.Wal.Distinct.{new_wal-IsDistinct}
use watch_tower.Wal.Log.{log_lines}
use watch_tower.Wal.Log.Replay.{IsCalm, for_each, replay-for_each}
use watch_tower.Wal.Log.RoundTrip.{Holds}
use watch_tower.Wal.Opened.{new_wal-Holds}
use watch_tower.Wal.Journal.{
  Journal, Step, written, replayed, truncated, not_truncated, restarted, Reach, created, later,
}
use watch_tower.Wal.Journal.Invariant.{
  IsKept, released-IsKept, replay-released, truncate-released, written-IsKept, truncated-IsKept,
  restarted-IsKept,
}

module _ (codec : Codec) (laws : CodecLaws codec) where
  Step-IsKept :
      {H : Type 0} {ctx_err : Op H Unit} {handler : LogEvent → Op H Unit} {j k : Journal}
      → IsKept codec laws j
      → Step codec ctx_err handler j k
      → IsKept codec laws k
  Step-IsKept {j} kept (written env event timed short fits) =
      written-IsKept codec laws env event j kept timed short fits
  Step-IsKept {ctx_err} {handler} {j} kept (replayed env h) =
      released-IsKept codec laws j _ kept (replay-released codec laws ctx_err handler env j.wal h)
  Step-IsKept {j} kept (truncated env listed removed le current) =
      truncated-IsKept codec laws env j kept listed removed le current
  Step-IsKept {j} kept (not_truncated env e failed) =
      released-IsKept codec laws j _ kept (truncate-released codec laws env j.wal e failed)
  Step-IsKept {j} kept (restarted mkdir env max_segment max_total w le current opened) =
      restarted-IsKept codec laws j mkdir env max_segment max_total w kept le current opened

  -- A directory before its first segment.
  abbrev bare : Wal
  bare = record {
    max_segment_size = 0;
    max_total_size = 0;
    current = none;
    is_closed = false;
    current_size = 0;
    dir = [];
  }

  bare-Holds : Holds codec laws bare []
  unfolding log_lines sorted_segments segment_names sort_names concat_map
  bare-Holds = record {
    ready = record { open_handle = refl; newest = tt; no_torn = tt };
    fits = (tt, tt);
    decodes = tt;
  }

  Reach-IsKept :
      {H : Type 0} {ctx_err : Op H Unit} {handler : LogEvent → Op H Unit} {j : Journal}
      → Reach codec ctx_err handler j
      → IsKept codec laws j
  Reach-IsKept (created mkdir env max_segment max_total w current opened) =
      let fresh = IsDated-IsFresh 0 env.rotation.now [] tt (omega arith) current in
      record {
        holds =
            new_wal-Holds codec laws bare [] mkdir env max_segment max_total w bare-Holds tt fresh
              opened;
        distinct = new_wal-IsDistinct mkdir env max_segment max_total [] w opened tt;
        dated =
            new_wal-IsDated 0 mkdir env max_segment max_total [] w (omega arith) current opened tt;
      }
  Reach-IsKept (later r s) = Step-IsKept (Reach-IsKept r) s

  -- From an empty directory, after any sequence of calls of the log's methods, and of restarts with
  -- any sizes, a replay in which no system call fails hands its handler exactly the events whose
  -- writes were accepted since the last truncation, decoded and in the order of the writes, until
  -- the handler fails or the context ends. Within the sequence the calls of the operating system may
  -- fail, but a write is not cut short, no segment withstands its removal, each restart comes to an
  -- open log, the clock moves on, and each encoding is shorter than the scanner's buffer.
  pub replay-Reach :
      {H : Type 0} (ctx_err : Op H Unit) (handler : LogEvent → Op H Unit) (j : Journal)
      (env : ReplayEnv) (h : H)
      → Reach codec ctx_err handler j
      → IsCalm env
      → replay codec ctx_err handler env (j.wal, h) ≡ (
        (for_each codec ctx_err handler j.events h).0,
        (
          record j.wal { current = none; is_closed = false },
          (for_each codec ctx_err handler j.events h).1,
        ),
      )
  replay-Reach ctx_err handler j env h reach calm =
      let kept = Reach-IsKept reach in
      replay-for_each codec ctx_err handler env j.wal j.events h calm kept.holds.fits
        kept.holds.decodes

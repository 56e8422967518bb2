-- ===== src/Redis/Late.antt =====
-- What other goroutines write to the WAL while it is replayed
-- (internal/adapter/repository/redis/log_repository.go).
use watch_tower.Common.{
  ℕ, suc, ◌≤◌, ◌≡◌, ap, false, none, List, [], arith, Text, Op, Bool, ok, err, wrapped, codes,
  wrap_error,
}
use watch_tower.Domain.{LogEvent, WalRepository}
use watch_tower.Domain.Codec.{CodecLaws}
use watch_tower.Wal.Segments.{Wal}
use watch_tower.Wal.Methods
use watch_tower.Wal.Clock.{IsCurrent}
use watch_tower.Wal.Dated.{IsDated, IsDated-IsFresh, IsTimed, write-IsDated}
use watch_tower.Wal.Distinct.{write-IsDistinct}
use watch_tower.Wal.Emptied.{truncate_empties}
use watch_tower.Wal.Removal.{IsDistinct}
use watch_tower.Wal.Log.{log_lines}
use watch_tower.Wal.Log.Replay.{IsCalm}
use watch_tower.Wal.Log.RoundTrip.{Holds}
use watch_tower.Redis.Buffer.{
  Repository, Shared, buffer_log, buffer_while_down, write_wal, buffer_log_to_redis,
}
use watch_tower.Redis.Drain.{World, Answers, wal_repository, with_wal, push, replayed}

-- ReplayWAL with what other goroutines do between its two calls of the WAL, each of which holds the
-- mutex of the WAL.
unfoldable pub replay_wal_among :
    {S : Type 0} → Repository S → WalRepository S → (S → S) → Op S Unit
replay_wal_among r wal others s =
    let (e, s1) = wal.replay (buffer_log_to_redis r) s in
    elim e [
      | err x ↦ (err (wrapped (codes "WAL replay failed: ") x), s1)
      | ok _ ↦
          let (t, s2) = wal.truncate (others s1) in
          (wrap_error (codes "failed to truncate WAL after successful replay: ") t, s2)
    ]

module _ {H : Type 0} (r : Repository H) (ctx_err : Op H Unit) (answers : Answers) where
  -- The state of the repository while it recovers: Redis counts as down until the end of ReplayWAL.
  abbrev pub recovering : Bool → World H → Shared (World H)
  recovering active s = record { is_available = false; wal_active = active; world = s }

  -- A call of BufferLog meanwhile.
  abbrev pub buffered_late : Bool → LogEvent → World H → World H
  buffered_late active event s =
      (buffer_log (with_wal r ctx_err answers) event (recovering active s)).1.world

  late_write :
      (active : Bool) (event : LogEvent) (h : H) (w : Wal)
      → buffered_late active event (h, w) ≡ (h, (Methods.write r.codec answers.on_write event w).1)
  unfolding buffer_log buffer_while_down write_wal
  late_write active event h w = ground arith

  -- If the WAL holds certain events, all of which are pushed to Redis, no system call of the replay
  -- fails, the truncation removes every segment, the files of the WAL are its own and its clock moves
  -- on, then an event that `BufferLog` is given between the replay and the truncation, which goes to
  -- the WAL, is nowhere afterwards: the client is where pushing the old events alone leaves it, and
  -- the WAL is empty.
  pub late_event_is_lost :
      (laws : CodecLaws r.codec) (w : Wal) (es : List LogEvent) (h : H) (t : ℕ) (active : Bool)
      (event : LogEvent)
      → Holds r.codec laws w es
      → IsCalm answers.on_replay
      → answers.on_truncate.read_dir ≡ none
      → ((n : Text) → answers.on_truncate.keeps n ≡ false)
      → IsDistinct w.dir
      → IsDated t w.dir
      → IsTimed t answers.on_write
      → suc answers.on_write.after.now ≤ answers.on_truncate.reopen.rotation.now
      → IsCurrent answers.on_truncate.reopen.rotation.now
      → (push r ctx_err answers es h).0 ≡ ok tt
      → ((replay_wal_among
            (with_wal r ctx_err answers)
            (wal_repository r.codec ctx_err answers)
            (buffered_late active event)
            (h, w)).1.0
          ≡ (push r ctx_err answers es h).1)
        × (log_lines
              (replay_wal_among
                (with_wal r ctx_err answers)
                (wal_repository r.codec ctx_err answers)
                (buffered_late active event)
                (h, w)).1.1.dir
            ≡ [])
  unfolding replay_wal_among
  late_event_is_lost laws w es h t active event holds calm listable removed distinct dated timed
        later current pushed =
      let go =
        replay_wal_among (with_wal r ctx_err answers) (wal_repository r.codec ctx_err answers)
          (buffered_late active event) (h, w) in
      let w1 = record w { current = none; is_closed = false } in
      let w2 = (Methods.write r.codec answers.on_write event w1).1 in
      let h1 = (push r ctx_err answers es h).1 in
      let done = replayed r ctx_err answers laws w es h holds calm in
      let distinct2 = write-IsDistinct r.codec answers.on_write event w1 distinct in
      let dated2 = write-IsDated t r.codec answers.on_write event w1 timed dated in
      let fresh =
        IsDated-IsFresh _ answers.on_truncate.reopen.rotation.now w2.dir dated2 later current in
      let (empty, ready) =
        truncate_empties answers.on_truncate w2 listable removed distinct2 fresh.absent in
      let e : go.1 ≡ (h1, (Methods.truncate answers.on_truncate w2).1) =
        ground (arith, done, late_write active event h1 w1) in
      (ap (λ q. q.0) e, rw e empty)

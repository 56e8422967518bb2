-- ===== src/Redis/Outage/Lossless.antt =====
-- No accepted event is lost in an outage (internal/adapter/repository/redis/log_repository.go).
use watch_tower.Common.{ℕ, suc, ◌≡◌, ◌⊎◌, inl, inr, true, false, Bool-cases, List, [], ◌∷◌, All, Op}
use mathlib.Core.Path.{subst}
use watch_tower.Domain.{LogEvent}
use watch_tower.Domain.Codec.{CodecLaws}
use watch_tower.Wal.Journal.Invariant.{IsKept}
use watch_tower.Wal.Log.RoundTrip.{Holds}
use watch_tower.Redis.Buffer.{Repository, Shared, buffer_log}
use watch_tower.Redis.Drain.{World, with_wal}
use watch_tower.Redis.Outage.{Call, buffer, tick, Among, add_accepted, Stream, run, AreCalm}
use watch_tower.Redis.Outage.Safe.{All-map-to, IsSomewhere, IsSafeNow}
use watch_tower.Redis.Outage.Buffered.{buffer-IsSafeNow}
use watch_tower.Redis.Outage.Recovered.{ticked, tick-IsSafeNow}

module _ {H : Type 0} (r : Repository H) (ctx_err : Op H Unit) (laws : CodecLaws r.codec)
    (stream : Stream r ctx_err)
    (stable : (e : LogEvent) → r.codec.wire (r.codec.wire e) ≡ r.codec.wire e) where
  run-IsSafeNow :
      (cs : List Call) (t : ℕ) (acc : List LogEvent) (st : Shared (World H))
      → AreCalm r ctx_err t cs
      → IsSafeNow r ctx_err laws stream t acc st
      → (t' : ℕ) × IsSafeNow r ctx_err laws stream t'
          (run r ctx_err cs (acc, st)).0
          (run r ctx_err cs (acc, st)).1
  unfolding run
  run-IsSafeNow [] t acc st calm now = (t, now)
  run-IsSafeNow (buffer a e ∷ cs) t acc st (timed, short, fits, calm) now =
      let (d, st1) = buffer_log (with_wal r ctx_err a) e st in
      run-IsSafeNow cs (suc a.on_write.after.now) (add_accepted d e acc) st1 calm
        (buffer-IsSafeNow r ctx_err laws stream a e t acc st timed short fits now)
  run-IsSafeNow (tick a ∷ cs) t acc st (calm, listed, removed, le, current, others) now =
      run-IsSafeNow cs (suc a.on_truncate.reopen.rotation.now) acc
        (ticked r ctx_err laws stream a st) others
        (tick-IsSafeNow r ctx_err laws stream a t acc st stable calm listed removed le current now)

  pub only_stream :
      (h : H) (es : List LogEvent) (e : LogEvent)
      → es ≡ []
      → IsSomewhere r ctx_err laws stream h es e
      → stream.contains (r.codec.wire e) h
  only_stream h es e none_left (inl there) = there
  only_stream h es e none_left (inr logged) =
      absurd (subst (Among (r.codec.wire e)) none_left logged)

  -- If the log is in order at the start, and is empty where Redis counts as available, then after any
  -- sequence of calls of `BufferLog` and ticks of the health check, one behind the other, with Redis,
  -- the file system and the clock answering as they may, but for what is demanded of them here, the log
  -- is in order, and each event that a call accepted is, as it is decoded, in the stream or among the
  -- events that the log holds; and unless Redis counts as down at the end, each is in the stream.
  -- Demanded is that the stream keeps what it took, that an event that was decoded once is encoded and
  -- decoded without a change, that the clock moves on, that no write is cut short, that no call of the
  -- operating system in a replay fails, and that a truncation removes every segment.
  pub run_loses_nothing :
      (cs : List Call) (t : ℕ) (es : List LogEvent) (st : Shared (World H))
      → IsKept r.codec laws (record { clock = t; wal = st.world.1; events = es })
      → (st.is_available ≡ true → es ≡ [])
      → AreCalm r ctx_err t cs
      → (es' : List LogEvent) × Holds r.codec laws (run r ctx_err cs ([], st)).1.world.1 es'
        × All
            (λ e.
              stream.contains (r.codec.wire e) (run r ctx_err cs ([], st)).1.world.0
              ⊎ Among (r.codec.wire e) es')
            (run r ctx_err cs ([], st)).0
        × (((run r ctx_err cs ([], st)).1.is_available ≡ false)
            ⊎ All
                (λ e. stream.contains (r.codec.wire e) (run r ctx_err cs ([], st)).1.world.0)
                (run r ctx_err cs ([], st)).0)
  run_loses_nothing cs t es st kept empty calm =
      let (acc, st') = run r ctx_err cs ([], st) in
      let start : IsSafeNow r ctx_err laws stream t [] st = record {
        events = es;
        safe = record { kept = kept; all = tt };
        empty = empty;
      } in
      let (t', now) = run-IsSafeNow cs t [] st calm start in
      let h' = st'.world.0 in
      (
        now.events,
        now.safe.kept.holds,
        now.safe.all,
        elim (Bool-cases st'.is_available) [
          | inr down ↦ inl down
          | inl up ↦ inr (
              All-map-to (IsSomewhere r ctx_err laws stream h' now.events)
                (λ e. stream.contains (r.codec.wire e) h') acc
                (λ e. only_stream h' now.events e (now.empty up)) now.safe.all)
        ],
      )

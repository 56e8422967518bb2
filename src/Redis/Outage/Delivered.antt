-- ===== src/Redis/Outage/Delivered.antt =====
-- An outage comes to an end (internal/adapter/repository/redis/log_repository.go).
use watch_tower.Common.{
  ℕ, suc, ◌≡◌, refl, sym, true, false, none, List, [], ◌∷◌, ◌++◌, All, arith, Text, Op, ok,
}
use mathlib.Core.Path.{subst}
use watch_tower.Domain.{LogEvent}
use watch_tower.Domain.Codec.{CodecLaws}
use watch_tower.Wal.Segments.{Wal}
use watch_tower.Wal.Methods
use watch_tower.Wal.Emptied.{truncate_succeeds}
use watch_tower.Wal.Journal.Invariant.{IsKept}
use watch_tower.Wal.Log.{log_lines}
use watch_tower.Wal.Log.Replay.{IsCalm, Decodes, for_each}
use watch_tower.Redis.Client.{XAddArgs}
use watch_tower.Redis.Buffer.{
  Repository, Shared, log_entry, buffer_log, buffer_log_to_redis, replay_wal,
}
use watch_tower.Redis.Health.{health_tick-is_available}
use watch_tower.Redis.Drain.{World, Answers, with_wal, wal_repository, push, replayed}
use watch_tower.Redis.Outage.{Call, buffer, tick, add_accepted, Stream, run, AreCalm}
use watch_tower.Redis.Outage.Safe.{All-map-to, IsSomewhere, IsSafeNow}
use watch_tower.Redis.Outage.Buffered.{buffer-IsSafeNow}
use watch_tower.Redis.Outage.Recovered.{ticked, released, tick-IsSafeNow}
use watch_tower.Redis.Outage.Lossless.{only_stream}

module _ {H : Type 0} (r : Repository H) (ctx_err : Op H Unit) where
  -- From this world on Redis answers, and the context goes on: a ping leads to a world that is up, in
  -- such a world an entry is taken, and it stays so.
  pub record IsServing (h : H) : Type 1 where
    pub is_up : H → Type 0
    pub answers : ((r.client.ping h).0 ≡ ok tt) × is_up (r.client.ping h).1
    pub takes :
        (a : XAddArgs) (h' : H)
        → is_up h'
        → ((r.client.x_add a h').0 ≡ ok tt) × is_up (r.client.x_add a h').1
    pub goes_on : (h' : H) → is_up h' → ((ctx_err h').0 ≡ ok tt) × is_up (ctx_err h').1

  abbrev CanEncode : LogEvent → Type 0
  CanEncode e = (body : Text) × (r.codec.marshal e ≡ ok body)

  -- What was decoded can be encoded.
  abbrev pub CanEncodeDecoded : Type 0
  CanEncodeDecoded = (body : Text) (e : LogEvent) → r.codec.unmarshal body ≡ ok e → CanEncode e

  taken :
      (h0 : H) (serving : IsServing h0) (e : LogEvent) (h : H)
      → CanEncode e
      → serving.is_up h
      → ((buffer_log_to_redis r e h).0 ≡ ok tt) × serving.is_up (buffer_log_to_redis r e h).1
  unfolding buffer_log_to_redis
  taken h0 serving e h (body, encoded) up =
      let (added, still) = serving.takes (log_entry body) h up in
      let e0 : (buffer_log_to_redis r e h).0 ≡ ok tt = ground (arith, encoded, added) in
      let e1 : (buffer_log_to_redis r e h).1 ≡ (r.client.x_add (log_entry body) h).1 =
        ground (arith, encoded) in
      (e0, subst serving.is_up (sym e1) still)

  pushed :
      (h0 : H) (serving : IsServing h0) (a : Answers) (es : List LogEvent) (h : H)
      → All CanEncode es
      → serving.is_up h
      → (push r ctx_err a es h).0 ≡ ok tt
  unfolding for_each
  pushed h0 serving a [] h can up = refl
  pushed h0 serving a (e ∷ es) h (can, others) up =
      let (going, up1) = serving.goes_on h up in
      let h1 = (ctx_err h).1 in
      let (added, up2) = taken h0 serving e h1 can up1 in
      let rest = pushed h0 serving a es (buffer_log_to_redis r e h1).1 others up2 in
      ground (arith, going, added, rest)

  can_encode :
      (ls : List Text) (es : List LogEvent)
      → CanEncodeDecoded
      → Decodes r.codec ls es
      → All CanEncode es
  can_encode [] [] encodes d = tt
  can_encode [] (e ∷ es) encodes d = absurd d
  can_encode (l ∷ ls) [] encodes d = absurd d
  can_encode (l ∷ ls) (e ∷ es) encodes d = (encodes l e d.0, can_encode ls es encodes d.1)

module _ {H : Type 0} (r : Repository H) (ctx_err : Op H Unit) (laws : CodecLaws r.codec)
    (stream : Stream r ctx_err) where
  replay_succeeds :
      (a : Answers) (t : ℕ) (es : List LogEvent) (h : H) (w : Wal)
      → IsKept r.codec laws (record { clock = t; wal = w; events = es })
      → IsCalm a.on_replay
      → (push r ctx_err a es h).0 ≡ ok tt
      → (Methods.truncate a.on_truncate (released r ctx_err laws stream w)).0 ≡ ok tt
      → (replay_wal (with_wal r ctx_err a) (wal_repository r.codec ctx_err a) (h, w)).0 ≡ ok tt
  unfolding replay_wal
  replay_succeeds a t es h w kept calm done emptied =
      let e = replayed r ctx_err a laws w es h kept.holds calm in ground (arith, e, done, emptied)

  -- A tick at which Redis serves again leaves the flag up.
  tick_up :
      (a : Answers) (t : ℕ) (acc : List LogEvent) (st : Shared (World H))
      (serving : IsServing r ctx_err st.world.0)
      → CanEncodeDecoded r ctx_err
      → IsCalm a.on_replay
      → a.on_truncate.read_dir ≡ none
      → ((n : Text) → a.on_truncate.keeps n ≡ false)
      → a.on_truncate.reopen.read_dir ≡ none
      → a.on_truncate.reopen.rotation.create ≡ none
      → IsSafeNow r ctx_err laws stream t acc st
      → (ticked r ctx_err laws stream a st).is_available ≡ true
  tick_up a t acc st serving encodes calm listed removed listed_again created now =
      let (answered, up) = serving.answers in
      let h1 = (r.client.ping st.world.0).1 in
      let w = st.world.1 in
      let can =
        can_encode r ctx_err (log_lines w.dir) now.events encodes now.safe.kept.holds.decodes in
      let done = pushed r ctx_err st.world.0 serving a now.events h1 can up in
      let emptied =
        truncate_succeeds a.on_truncate (released r ctx_err laws stream w) listed removed
          now.safe.kept.distinct listed_again created in
      let replay = replay_succeeds a t now.events h1 w now.safe.kept calm done emptied in
      let flag =
        health_tick-is_available (with_wal r ctx_err a) (wal_repository r.codec ctx_err a) st in
      ground (arith, flag, replay, answered)

module _ {H : Type 0} (r : Repository H) (ctx_err : Op H Unit) (laws : CodecLaws r.codec)
    (stream : Stream r ctx_err)
    (stable : (e : LogEvent) → r.codec.wire (r.codec.wire e) ≡ r.codec.wire e)
    (encodes : CanEncodeDecoded r ctx_err) where
  -- Every accepted event is in the stream, and Redis counts as available.
  record IsDelivered (p : List LogEvent × Shared (World H)) : Type 0 where
    up : p.1.is_available ≡ true
    all : All (λ e. stream.contains (r.codec.wire e) p.1.world.0) p.0

  run-IsDelivered :
      (cs : List Call) (a : Answers) (t : ℕ) (acc : List LogEvent) (st : Shared (World H))
      → AreCalm r ctx_err t (cs ++ tick a ∷ [])
      → a.on_truncate.reopen.read_dir ≡ none
      → a.on_truncate.reopen.rotation.create ≡ none
      → IsServing r ctx_err (run r ctx_err cs (acc, st)).1.world.0
      → IsSafeNow r ctx_err laws stream t acc st
      → IsDelivered (run r ctx_err (cs ++ tick a ∷ []) (acc, st))
  unfolding run
  run-IsDelivered [] a t acc st (calm, listed, removed, le, current, others) listed_again created
        serving now =
      let st' = ticked r ctx_err laws stream a st in
      let up =
        tick_up r ctx_err laws stream a t acc st serving encodes calm listed removed listed_again
          created now in
      let then_on =
        tick-IsSafeNow r ctx_err laws stream a t acc st stable calm listed removed le current now in
      record {
        up = up;
        all =
            All-map-to (IsSomewhere r ctx_err laws stream st'.world.0 then_on.events)
              (λ e. stream.contains (r.codec.wire e) st'.world.0) acc
              (λ e.
                only_stream r ctx_err laws stream stable st'.world.0 then_on.events e
                  (then_on.empty up))
              then_on.safe.all;
      }
  run-IsDelivered (buffer b e ∷ cs) a t acc st (timed, short, fits, others) listed_again created
        serving now =
      let (d, st1) = buffer_log (with_wal r ctx_err b) e st in
      run-IsDelivered cs a (suc b.on_write.after.now) (add_accepted d e acc) st1 others listed_again
        created serving (buffer-IsSafeNow r ctx_err laws stream b e t acc st timed short fits now)
  run-IsDelivered (tick b ∷ cs) a t acc st (calm, listed, removed, le, current, others) listed_again
        created serving now =
      run-IsDelivered cs a (suc b.on_truncate.reopen.rotation.now) acc
        (ticked r ctx_err laws stream b st) others listed_again created serving
        (tick-IsSafeNow r ctx_err laws stream b t acc st stable calm listed removed le current now)

  -- After any sequence of calls of `BufferLog` and ticks of the health check, one behind the other,
  -- through any outages: if Redis serves from then on, then behind one more tick Redis counts as
  -- available, and every event that a call accepted is, as it is decoded, in the stream. Demanded is
  -- what the preservation of accepted events demands, that an event which was decoded can be encoded,
  -- and that in the last truncation the directory can be listed and a segment created.
  pub run_delivers :
      (cs : List Call) (a : Answers) (t : ℕ) (es : List LogEvent) (st : Shared (World H))
      → IsKept r.codec laws (record { clock = t; wal = st.world.1; events = es })
      → (st.is_available ≡ true → es ≡ [])
      → AreCalm r ctx_err t (cs ++ tick a ∷ [])
      → a.on_truncate.reopen.read_dir ≡ none
      → a.on_truncate.reopen.rotation.create ≡ none
      → IsServing r ctx_err (run r ctx_err cs ([], st)).1.world.0
      → ((run r ctx_err (cs ++ tick a ∷ []) ([], st)).1.is_available ≡ true)
        × All
            (λ e.
              stream.contains
                (r.codec.wire e)
                (run r ctx_err (cs ++ tick a ∷ []) ([], st)).1.world.0)
            (run r ctx_err (cs ++ tick a ∷ []) ([], st)).0
  run_delivers cs a t es st kept empty calm listed_again created serving =
      let start : IsSafeNow r ctx_err laws stream t [] st = record {
        events = es;
        safe = record { kept = kept; all = tt };
        empty = empty;
      } in
      let d = run-IsDelivered cs a t [] st calm listed_again created serving start in (d.up, d.all)

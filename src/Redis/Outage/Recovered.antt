-- ===== src/Redis/Outage/Recovered.antt =====
-- A tick of the health check keeps accepted events (internal/adapter/repository/redis/log_repository.go).
use watch_tower.Common.{
  ℕ, suc, ◌≤◌, ◌≡◌, inl, inr, refl, true, false, none, List, [], arith, All, Text, Op, Error, ok,
  err, Result-cases, Bool-cases,
}
use mathlib.Core.Path.{subst}
use watch_tower.Domain.{LogEvent}
use watch_tower.Domain.Codec.{CodecLaws}
use watch_tower.Wal.Clock.{IsCurrent}
use watch_tower.Wal.Segments.{Wal}
use watch_tower.Wal.Methods
use watch_tower.Wal.Journal.{Journal}
use watch_tower.Wal.Journal.Invariant.{IsKept, released-IsKept, truncated-IsKept}
use watch_tower.Wal.Log.RoundTrip.{Holds}
use watch_tower.Wal.Log.Replay.{IsCalm}
use watch_tower.Redis.Buffer.{Repository, Shared, replay_wal}
use watch_tower.Redis.Health.{health_tick, recover}
use watch_tower.Redis.Drain.{World, Answers, with_wal, wal_repository, push, replayed}
use watch_tower.Redis.Outage.{Stream}
use watch_tower.Redis.Outage.Safe.{
  All-map-to, All-Among, IsSomewhere, moved-IsSafe, later-IsSafe, IsSafeNow,
}
use watch_tower.Redis.Outage.Pushed.{push_keeps, push_adds}

module _ {H : Type 0} (r : Repository H) (ctx_err : Op H Unit) (laws : CodecLaws r.codec)
    (stream : Stream r ctx_err) where
  abbrev pub released : Wal → Wal
  released w = record w { current = none; is_closed = false }

  abbrev pub ticked : Answers → Shared (World H) → Shared (World H)
  ticked a st = health_tick (with_wal r ctx_err a) (wal_repository r.codec ctx_err a) st

  -- The health check by its branches.
  no_reply :
      (a : Answers) (st : Shared (World H)) (x : Error)
      → (r.client.ping st.world.0).0 ≡ err x
      → ((ticked a st).world ≡ ((r.client.ping st.world.0).1, st.world.1))
        × ((ticked a st).is_available ≡ false)
  unfolding health_tick
  no_reply a st x failed = ground arith

  pub still_up :
      (a : Answers) (st : Shared (World H))
      → (r.client.ping st.world.0).0 ≡ ok tt
      → st.is_available ≡ true
      → ((ticked a st).world ≡ ((r.client.ping st.world.0).1, st.world.1))
        × ((ticked a st).is_available ≡ true)
  unfolding health_tick
  still_up a st answered up = ground arith

  recovered :
      (a : Answers) (st : Shared (World H)) (es : List LogEvent)
      → Holds r.codec laws st.world.1 es
      → IsCalm a.on_replay
      → (r.client.ping st.world.0).0 ≡ ok tt
      → st.is_available ≡ false
      → (push r ctx_err a es (r.client.ping st.world.0).1).0 ≡ ok tt
      → (ticked a st).world ≡ (
        (push r ctx_err a es (r.client.ping st.world.0).1).1,
        (Methods.truncate a.on_truncate (released st.world.1)).1,
      )
  unfolding health_tick recover replay_wal
  recovered a st es holds calm answered down pushed =
      let h1 = (r.client.ping st.world.0).1 in
      let e = replayed r ctx_err a laws st.world.1 es h1 holds calm in ground (arith, e)

  not_recovered :
      (a : Answers) (st : Shared (World H)) (es : List LogEvent) (x : Error)
      → Holds r.codec laws st.world.1 es
      → IsCalm a.on_replay
      → (r.client.ping st.world.0).0 ≡ ok tt
      → st.is_available ≡ false
      → (push r ctx_err a es (r.client.ping st.world.0).1).0 ≡ err x
      → ((ticked a st).world
          ≡ ((push r ctx_err a es (r.client.ping st.world.0).1).1, released st.world.1))
        × ((ticked a st).is_available ≡ false)
  unfolding health_tick recover replay_wal
  not_recovered a st es x holds calm answered down failed =
      let h1 = (r.client.ping st.world.0).1 in
      let e = replayed r ctx_err a laws st.world.1 es h1 holds calm in ground (arith, e)

  -- A tick behind which the log is as it was, but for its handle, and the stream may have grown.
  kept-IsSafeNow :
      (t t' : ℕ) (acc : List LogEvent) (st st' : Shared (World H))
      (now : IsSafeNow r ctx_err laws stream t acc st)
      → t ≤ t'
      → IsKept r.codec laws (record { clock = t; wal = st'.world.1; events = now.events })
      → ((e : LogEvent) → stream.contains e st.world.0 → stream.contains e st'.world.0)
      → (st'.is_available ≡ true → now.events ≡ [])
      → IsSafeNow r ctx_err laws stream t' acc st'
  kept-IsSafeNow t t' acc st st' now le kept keeps empty = record {
    events = now.events;
    safe = later-IsSafe r ctx_err laws stream t t' acc now.events st'.world le (record {
      kept = kept;
      all =
          (moved-IsSafe r ctx_err laws stream t acc now.events st.world.0 st'.world.0 st.world.1
            keeps now.safe).all;
    });
    empty = empty;
  }

  -- A tick that puts the events of the log into the stream, and empties the log.
  emptied-IsSafeNow :
      (t t' : ℕ) (acc : List LogEvent) (st st' : Shared (World H))
      (now : IsSafeNow r ctx_err laws stream t acc st)
      → IsKept r.codec laws (record { clock = t'; wal = st'.world.1; events = [] })
      → ((e : LogEvent) → stream.contains e st.world.0 → stream.contains e st'.world.0)
      → ((e : LogEvent) → r.codec.wire (r.codec.wire e) ≡ r.codec.wire e)
      → All (λ e. stream.contains (r.codec.wire e) st'.world.0) now.events
      → IsSafeNow r ctx_err laws stream t' acc st'
  emptied-IsSafeNow t t' acc st st' now kept keeps stable pushed = record {
    events = [];
    safe = record {
      kept = kept;
      all =
          All-map-to (IsSomewhere r ctx_err laws stream st.world.0 now.events)
            (IsSomewhere r ctx_err laws stream st'.world.0 []) acc (λ e. into_stream e)
            now.safe.all;
    };
    empty = λ up. refl;
  }
    where
      into_stream :
          (e : LogEvent)
          → IsSomewhere r ctx_err laws stream st.world.0 now.events e
          → IsSomewhere r ctx_err laws stream st'.world.0 [] e
      into_stream e (inl there) = inl (keeps (r.codec.wire e) there)
      into_stream e (inr logged) =
          let again =
            All-Among (λ x. stream.contains (r.codec.wire x) st'.world.0) (r.codec.wire e)
              now.events pushed logged in
          inl (subst (λ x. stream.contains x st'.world.0) (stable e) again)

  pub tick-IsSafeNow :
      (a : Answers) (t : ℕ) (acc : List LogEvent) (st : Shared (World H))
      → ((e : LogEvent) → r.codec.wire (r.codec.wire e) ≡ r.codec.wire e)
      → IsCalm a.on_replay
      → a.on_truncate.read_dir ≡ none
      → ((n : Text) → a.on_truncate.keeps n ≡ false)
      → t ≤ a.on_truncate.reopen.rotation.now
      → IsCurrent a.on_truncate.reopen.rotation.now
      → IsSafeNow r ctx_err laws stream t acc st
      → IsSafeNow r ctx_err laws stream (suc a.on_truncate.reopen.rotation.now) acc (ticked a st)
  tick-IsSafeNow a t acc st stable calm listed removed le current now =
      let t' = suc a.on_truncate.reopen.rotation.now in
      let (h, w) = st.world in
      let (p, h1) = r.client.ping h in
      let j : Journal = record { clock = t; wal = w; events = now.events } in
      let pinged = λ (e : LogEvent). stream.keeps_ping e h in
      let held = released-IsKept r.codec laws j (released w) now.safe.kept refl in
      let pushed = push r ctx_err a now.events h1 in
      let moved = λ (e : LogEvent) (there : stream.contains e h).
        push_keeps r ctx_err laws stream a now.events h1 e (stream.keeps_ping e h there) in
      let go = kept-IsSafeNow t t' acc st (ticked a st) now (omega arith) in
      elim (Result-cases p) [
        | inr (x, failed) ↦
            let (world, down) = no_reply a st x failed in
            go (rw world now.safe.kept) (rw world pinged) (λ up. absurd (ground (arith, up, down)))
        | inl (tt, answered) ↦ elim (Bool-cases st.is_available) [
          | inl up ↦
              let (world, still) = still_up a st answered up in
              go (rw world now.safe.kept) (rw world pinged) (λ again. now.empty up)
          | inr down ↦ elim (Result-cases pushed.0) [
            | inr (x, failed) ↦
                let (world, same) =
                  not_recovered a st now.events x now.safe.kept.holds calm answered down failed in
                go (rw world held) (rw world moved) (λ up. absurd (ground (arith, up, same)))
            | inl (tt, done) ↦
                let world = recovered a st now.events now.safe.kept.holds calm answered down done in
                let emptied =
                  truncated-IsKept r.codec laws a.on_truncate (record j { wal = released w }) held
                    listed removed le current in
                emptied-IsSafeNow t t' acc st (ticked a st) now (rw world emptied) (rw world moved)
                  stable (rw world (push_adds r ctx_err laws stream a now.events h1 done))
          ]
        ]
      ]

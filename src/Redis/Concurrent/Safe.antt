-- ===== src/Redis/Concurrent/Safe.antt =====
-- What the steps of the goroutines keep (internal/adapter/repository/redis/log_repository.go).
use watch_tower.Common.{
  ℕ, ◌≤◌, ◌≡◌, inl, inr, refl, false, List, arith, All, Op, Error, ok, err, Result-cases,
  Bool-cases,
}
use watch_tower.Domain.{LogEvent}
use watch_tower.Domain.Codec.{CodecLaws}
use watch_tower.Wal.Journal.Invariant.{IsKept, later-IsKept}
use watch_tower.Redis.Errors.{is_network_error}
use watch_tower.Redis.Buffer.{Repository, Shared, buffer_log_to_redis}
use watch_tower.Redis.Drain.{World, Answers, with_wal, buffer_beside}
use watch_tower.Redis.Outage.{Among, Stream}
use watch_tower.Redis.Outage.Safe.{All-map-to, IsSomewhere, redis_keeps, redis_adds}
use watch_tower.Redis.Concurrent.{
  Pc, loading, adding, failed, writing, returned, Watch, resting, loaded, recovering, replayed,
  truncated, lost, after_add, advance, is_late,
}

module _ {H : Type 0} (r : Repository H) (ctx_err : Op H Unit) (laws : CodecLaws r.codec)
    (stream : Stream r ctx_err) where
  -- An event whose call returned no error is in the stream, or in the log that holds these events.
  abbrev pub Settled : H → List LogEvent → LogEvent × Pc → Type 0
  Settled h es (e, returned (ok _)) = IsSomewhere r ctx_err laws stream h es e
  Settled h es _ = Unit

  -- Between a replay and its truncation, the events of the log are in the stream.
  abbrev pub Drained : H → List LogEvent → Watch → Type 0
  Drained h es replayed = All (λ e. stream.contains (r.codec.wire e) h) es
  Drained h es _ = Unit

  pub Settled-map :
      (h h' : H) (es es' : List LogEvent) (c : LogEvent × Pc)
      → (IsSomewhere r ctx_err laws stream h es c.0 → IsSomewhere r ctx_err laws stream h' es' c.0)
      → Settled h es c
      → Settled h' es' c
  Settled-map h h' es es' (e, loading) f s = tt
  Settled-map h h' es es' (e, adding) f s = tt
  Settled-map h h' es es' (e, failed x) f s = tt
  Settled-map h h' es es' (e, writing x) f s = tt
  Settled-map h h' es es' (e, returned (err x)) f s = tt
  Settled-map h h' es es' (e, returned (ok _)) f s = f s

  Drained-map :
      (h h' : H) (es : List LogEvent) (w : Watch)
      → ((e : LogEvent) → stream.contains e h → stream.contains e h')
      → Drained h es w
      → Drained h' es w
  Drained-map h h' es resting f d = tt
  Drained-map h h' es (loaded was) f d = tt
  Drained-map h h' es recovering f d = tt
  Drained-map h h' es truncated f d = tt
  Drained-map h h' es lost f d = tt
  Drained-map h h' es replayed f d =
      All-map-to (λ e. stream.contains (r.codec.wire e) h)
        (λ e. stream.contains (r.codec.wire e) h') es (λ e. f (r.codec.wire e)) d

  -- What a step of one call leaves to the others: the log in order, what was stored, and the drain.
  pub record IsStep (t : ℕ) (es : List LogEvent) (watch : Watch) (event : LogEvent)
      (st : Shared (World H)) (p : Pc × Shared (World H)) : Type 0 where
    pub events : List LogEvent
    pub kept : IsKept r.codec laws (record { clock = t; wal = p.1.world.1; events = events })
    pub keeps : (e : LogEvent) → stream.contains e st.world.0 → stream.contains e p.1.world.0
    pub grows : (e : LogEvent) → Among e es → Among e events
    pub settled : Settled p.1.world.0 events (event, p.0)
    pub drained : Drained st.world.0 es watch → Drained p.1.world.0 events watch

  -- A step that leaves the log alone.
  pub aside-IsStep :
      (t t' : ℕ) (es : List LogEvent) (watch : Watch) (event : LogEvent) (st st' : Shared (World H))
      (pc : Pc)
      → t ≤ t'
      → IsKept r.codec laws (record { clock = t; wal = st.world.1; events = es })
      → st'.world.1 ≡ st.world.1
      → ((e : LogEvent) → stream.contains e st.world.0 → stream.contains e st'.world.0)
      → Settled st'.world.0 es (event, pc)
      → IsStep t' es watch event st (pc, st')
  aside-IsStep t t' es watch event st st' pc le kept same keeps settled = record {
    events = es;
    kept = rw same (
        later-IsKept r.codec laws (record { clock = t; wal = st.world.1; events = es }) t' le kept);
    keeps = keeps;
    grows = λ e m. m;
    settled = settled;
    drained = Drained-map st.world.0 st'.world.0 es watch keeps;
  }

  -- A write to the log, which is not late.
  pub not_drained :
      (x : Error) (h h' : H) (es es' : List LogEvent) (watch : Watch)
      → is_late (writing x) watch ≡ false
      → Drained h es watch
      → Drained h' es' watch
  not_drained x h h' es es' resting early d = tt
  not_drained x h h' es es' (loaded was) early d = tt
  not_drained x h h' es es' recovering early d = tt
  not_drained x h h' es es' truncated early d = tt
  not_drained x h h' es es' lost early d = tt
  not_drained x h h' es es' replayed early d = absurd (ground arith)

  pub added :
      (a : Answers) (event : LogEvent) (st : Shared (World H))
      → (advance (with_wal r ctx_err a) event adding st)
        ≡ after_add (with_wal r ctx_err a) (
          (buffer_log_to_redis r event st.world.0).0,
          record st { world = ((buffer_log_to_redis r event st.world.0).1, st.world.1) },
        )
  unfolding advance
  added a event st =
      let e = buffer_beside r ctx_err a event st.world.0 st.world.1 in ground (arith, e)

  pub after_add-IsStep :
      (a : Answers) (t t' : ℕ) (es : List LogEvent) (watch : Watch) (event : LogEvent)
      (st : Shared (World H))
      → t ≤ t'
      → IsKept r.codec laws (record { clock = t; wal = st.world.1; events = es })
      → IsStep t' es watch event st (
          after_add (with_wal r ctx_err a) (
            (buffer_log_to_redis r event st.world.0).0,
            record st { world = ((buffer_log_to_redis r event st.world.0).1, st.world.1) },
          ))
  unfolding after_add
  after_add-IsStep a t t' es watch event st le kept =
      let (d, h1) = buffer_log_to_redis r event st.world.0 in
      let st1 = record st { world = (h1, st.world.1) } in
      let keeps = λ (e : LogEvent). redis_keeps r ctx_err laws stream event e st.world.0 in
      let go = λ (pc : Pc). aside-IsStep t t' es watch event st st1 pc le kept refl keeps in
      elim (Result-cases d) [
        | inl (tt, taken) ↦
            rw (taken, after_add)
              (go (returned (ok tt))
                (inl (redis_adds r ctx_err laws stream event st.world.0 taken)))
        | inr (x, refused) ↦ elim (Bool-cases (is_network_error x)) [
          | inl gone ↦ rw (refused, gone, after_add) (go (failed x) tt)
          | inr other ↦ rw (refused, other, after_add) (go (returned (err x)) tt)
        ]
      ]

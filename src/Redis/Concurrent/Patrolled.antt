-- ===== src/Redis/Concurrent/Patrolled.antt =====
-- One step of the health check keeps what was stored
-- (internal/adapter/repository/redis/log_repository.go).
use mathlib.Core.Path.{subst}
use watch_tower.Common.{
  ℕ, suc, ◌≤◌, ◌≡◌, inl, inr, refl, ◌∙◌, Bool, true, false, none, List, [], arith, All, Text, Op,
  Done, ok, err, Result-cases,
}
use watch_tower.Domain.{LogEvent}
use watch_tower.Domain.Codec.{CodecLaws}
use watch_tower.Wal.Segments.{Wal}
use watch_tower.Wal.Methods
use watch_tower.Wal.Journal.{Journal}
use watch_tower.Wal.Journal.Invariant.{IsKept, later-IsKept}
use watch_tower.Redis.Buffer.{Repository, Shared, set_wal_active, set_available}
use watch_tower.Redis.Drain.{World, Answers, with_wal}
use watch_tower.Redis.Outage.{Stream}
use watch_tower.Redis.Outage.Safe.{All-Among, side_by_side, IsSomewhere}
use watch_tower.Redis.Concurrent.{Watch, resting, loaded, recovering, truncated, lost}
use watch_tower.Wal.Clock.{IsCurrent}
use watch_tower.Wal.Journal.Invariant.{released-IsKept, truncated-IsKept}
use watch_tower.Wal.Log.RoundTrip.{Holds}
use watch_tower.Wal.Log.Replay.{IsCalm}
use watch_tower.Redis.Drain.{wal_repository, push, replayed}
use watch_tower.Redis.Outage.Pushed.{push_keeps, push_adds}
use watch_tower.Redis.Concurrent.{patrol, decide, go_on}
use watch_tower.Redis.Concurrent.Safe.{Drained}

module _ {H : Type 0} (r : Repository H) (ctx_err : Op H Unit) (laws : CodecLaws r.codec)
    (stream : Stream r ctx_err) where
  -- What a step of the health check leaves to the calls, and to its own next step.
  pub record IsHarmless (t : ℕ) (es : List LogEvent) (st : Shared (World H))
      (p : Watch × Shared (World H)) : Type 0 where
    pub events : List LogEvent
    pub kept : IsKept r.codec laws (record { clock = t; wal = p.1.world.1; events = events })
    pub settles :
        (e : LogEvent)
        → IsSomewhere r ctx_err laws stream st.world.0 es e
        → IsSomewhere r ctx_err laws stream p.1.world.0 events e
    pub drained : Drained r ctx_err laws stream p.1.world.0 events p.0

  abbrev patrolled : Answers → Watch → Shared (World H) → Watch × Shared (World H)
  patrolled a w st = patrol (with_wal r ctx_err a) (wal_repository r.codec ctx_err a) w st

  abbrev released : Wal → Wal
  released w = record w { current = none; is_closed = false }

  -- A step that leaves the log alone, but for its handle.
  aside-IsHarmless :
      (t t' : ℕ) (es : List LogEvent) (st st' : Shared (World H)) (w : Watch)
      → t ≤ t'
      → IsKept r.codec laws (record { clock = t; wal = st'.world.1; events = es })
      → ((e : LogEvent) → stream.contains e st.world.0 → stream.contains e st'.world.0)
      → Drained r ctx_err laws stream st'.world.0 es w
      → IsHarmless t' es st (w, st')
  aside-IsHarmless t t' es st st' w le kept keeps drained = record {
    events = es;
    kept =
        later-IsKept r.codec laws (record { clock = t; wal = st'.world.1; events = es }) t' le kept;
    settles = λ e. side_by_side (keeps (r.codec.wire e)) (λ m. m);
    drained = drained;
  }

  decide-cases :
      (a : Answers) (was : Bool) (d : Done) (st : Shared (World H))
      → (w : Watch) × (st' : Shared (World H)) × (decide (with_wal r ctx_err a) was d st ≡ (w, st'))
        × (st'.world ≡ st.world)
        × ((es : List LogEvent) (h : H) → Drained r ctx_err laws stream h es w)
  unfolding decide
  decide-cases a true (ok _) st = (resting, st, ground arith, refl, λ es h. tt)
  decide-cases a false (ok _) st = (
    recovering,
    set_wal_active (with_wal r ctx_err a) false st,
    ground arith,
    ground arith,
    λ es h. tt,
  )
  decide-cases a true (err x) st = (lost, st, ground arith, refl, λ es h. tt)
  decide-cases a false (err x) st = (resting, st, ground arith, refl, λ es h. tt)

  ping_step :
      (a : Answers) (was : Bool) (st : Shared (World H))
      → patrolled a (loaded was) st
        ≡ decide
            (with_wal r ctx_err a)
            was
            (r.client.ping st.world.0).0
            (record st { world = ((r.client.ping st.world.0).1, st.world.1) })
  unfolding patrol
  ping_step a was st = ground arith

  loaded-IsHarmless :
      (a : Answers) (t t' : ℕ) (es : List LogEvent) (was : Bool) (st : Shared (World H))
      → t ≤ t'
      → IsKept r.codec laws (record { clock = t; wal = st.world.1; events = es })
      → IsHarmless t' es st (patrolled a (loaded was) st)
  loaded-IsHarmless a t t' es was st le kept =
      let (d, h1) = r.client.ping st.world.0 in
      let st1 = record st { world = (h1, st.world.1) } in
      let (w, st2, e, world, never) = decide-cases a was d st1 in
      rw (ping_step a was st ∙ e) (
        aside-IsHarmless t t' es st st2 w le (rw world kept)
          (rw world (λ x. stream.keeps_ping x st.world.0)) (never es st2.world.0))

  replay_step :
      (a : Answers) (es : List LogEvent) (st : Shared (World H))
      → Holds r.codec laws st.world.1 es
      → IsCalm a.on_replay
      → patrolled a recovering st
        ≡ go_on (with_wal r ctx_err a) Watch.replayed (
          (push r ctx_err a es st.world.0).0,
          record st { world = ((push r ctx_err a es st.world.0).1, released st.world.1) },
        )
  unfolding patrol
  replay_step a es st holds calm =
      let e = replayed r ctx_err a laws st.world.1 es st.world.0 holds calm in ground (arith, e)

  replay-IsHarmless :
      (a : Answers) (t t' : ℕ) (es : List LogEvent) (st : Shared (World H))
      → t ≤ t'
      → IsCalm a.on_replay
      → IsKept r.codec laws (record { clock = t; wal = st.world.1; events = es })
      → IsHarmless t' es st (patrolled a recovering st)
  unfolding go_on
  replay-IsHarmless a t t' es st le calm kept =
      let (d, h1) = push r ctx_err a es st.world.0 in
      let j : Journal = record { clock = t; wal = st.world.1; events = es } in
      let held = released-IsKept r.codec laws j (released st.world.1) kept refl in
      let st1 = record st { world = (h1, released st.world.1) } in
      let keeps = λ (e : LogEvent). push_keeps r ctx_err laws stream a es st.world.0 e in
      rw (replay_step a es st kept.holds calm) (elim (Result-cases d) [
        | inr (x, stopped) ↦
            rw (stopped, go_on) (aside-IsHarmless t t' es st st1 resting le held keeps tt)
        | inl (tt, pushed) ↦
            rw (pushed, go_on)
              (aside-IsHarmless t t' es st st1 Watch.replayed le held keeps
                (push_adds r ctx_err laws stream a es st.world.0 pushed))
      ])

  truncate_step :
      (a : Answers) (st : Shared (World H))
      → patrolled a Watch.replayed st
        ≡ go_on (with_wal r ctx_err a) truncated (
          (Methods.truncate a.on_truncate st.world.1).0,
          record st { world = (st.world.0, (Methods.truncate a.on_truncate st.world.1).1) },
        )
  unfolding patrol
  truncate_step a st = ground arith

  went_on :
      (a : Answers) (d : Done) (st : Shared (World H))
      → (w : Watch) × (go_on (with_wal r ctx_err a) truncated (d, st) ≡ (w, st))
        × ((es : List LogEvent) (h : H) → Drained r ctx_err laws stream h es w)
  unfolding go_on
  went_on a (ok _) st = (truncated, refl, λ es h. tt)
  went_on a (err x) st = (resting, refl, λ es h. tt)

  into_stream :
      (h : H) (es : List LogEvent) (e : LogEvent)
      → ((x : LogEvent) → r.codec.wire (r.codec.wire x) ≡ r.codec.wire x)
      → All (λ x. stream.contains (r.codec.wire x) h) es
      → IsSomewhere r ctx_err laws stream h es e
      → IsSomewhere r ctx_err laws stream h [] e
  into_stream h es e stable pushed (inl there) = inl there
  into_stream h es e stable pushed (inr logged) = inl (
      subst (λ x. stream.contains x h) (stable e)
        (All-Among (λ x. stream.contains (r.codec.wire x) h) (r.codec.wire e) es pushed logged))

  truncate-IsHarmless :
      (a : Answers) (t : ℕ) (es : List LogEvent) (st : Shared (World H))
      → ((x : LogEvent) → r.codec.wire (r.codec.wire x) ≡ r.codec.wire x)
      → a.on_truncate.read_dir ≡ none
      → ((n : Text) → a.on_truncate.keeps n ≡ false)
      → t ≤ a.on_truncate.reopen.rotation.now
      → IsCurrent a.on_truncate.reopen.rotation.now
      → IsKept r.codec laws (record { clock = t; wal = st.world.1; events = es })
      → All (λ x. stream.contains (r.codec.wire x) st.world.0) es
      → IsHarmless (suc a.on_truncate.reopen.rotation.now) es st (patrolled a Watch.replayed st)
  truncate-IsHarmless a t es st stable listed removed le current kept pushed =
      let (d, w1) = Methods.truncate a.on_truncate st.world.1 in
      let st1 = record st { world = (st.world.0, w1) } in
      let j : Journal = record { clock = t; wal = st.world.1; events = es } in
      let (w, e, never) = went_on a d st1 in
      rw (truncate_step a st ∙ e) (record {
        events = [];
        kept = truncated-IsKept r.codec laws a.on_truncate j kept listed removed le current;
        settles = λ x. into_stream st.world.0 es x stable pushed;
        drained = never [] st.world.0;
      })

  rest_step :
      (a : Answers) (st : Shared (World H)) → patrolled a resting st ≡ (loaded st.is_available, st)
  unfolding patrol
  rest_step a st = refl

  up_step :
      (a : Answers) (st : Shared (World H))
      → patrolled a truncated st ≡ (resting, set_available true st)
  unfolding patrol
  up_step a st = refl

  down_step :
      (a : Answers) (st : Shared (World H))
      → patrolled a lost st
        ≡ (resting, set_wal_active (with_wal r ctx_err a) true (set_available false st))
  unfolding patrol
  down_step a st = refl

  down_world :
      (a : Answers) (st : Shared (World H))
      → (set_wal_active (with_wal r ctx_err a) true (set_available false st)).world ≡ st.world
  down_world a st = ground arith

  pub patrol-IsHarmless :
      (a : Answers) (t : ℕ) (es : List LogEvent) (w : Watch) (st : Shared (World H))
      → ((x : LogEvent) → r.codec.wire (r.codec.wire x) ≡ r.codec.wire x)
      → IsCalm a.on_replay
      → a.on_truncate.read_dir ≡ none
      → ((n : Text) → a.on_truncate.keeps n ≡ false)
      → t ≤ a.on_truncate.reopen.rotation.now
      → IsCurrent a.on_truncate.reopen.rotation.now
      → IsKept r.codec laws (record { clock = t; wal = st.world.1; events = es })
      → Drained r ctx_err laws stream st.world.0 es w
      → IsHarmless (suc a.on_truncate.reopen.rotation.now) es st (patrolled a w st)
  patrol-IsHarmless a t es resting st stable calm listed removed le current kept drained =
      rw (rest_step a st) (
        aside-IsHarmless t (suc a.on_truncate.reopen.rotation.now) es st st (loaded st.is_available)
          (omega arith) kept (λ e there. there) tt)
  patrol-IsHarmless a t es (loaded was) st stable calm listed removed le current kept drained =
      loaded-IsHarmless a t (suc a.on_truncate.reopen.rotation.now) es was st (omega arith) kept
  patrol-IsHarmless a t es recovering st stable calm listed removed le current kept drained =
      replay-IsHarmless a t (suc a.on_truncate.reopen.rotation.now) es st (omega arith) calm kept
  patrol-IsHarmless a t es Watch.replayed st stable calm listed removed le current kept drained =
      truncate-IsHarmless a t es st stable listed removed le current kept drained
  patrol-IsHarmless a t es truncated st stable calm listed removed le current kept drained =
      rw (up_step a st) (
        aside-IsHarmless t (suc a.on_truncate.reopen.rotation.now) es st (set_available true st)
          resting (omega arith) kept (λ e there. there) tt)
  patrol-IsHarmless a t es lost st stable calm listed removed le current kept drained =
      rw (down_step a st) (
        aside-IsHarmless t (suc a.on_truncate.reopen.rotation.now) es st
          (set_wal_active (with_wal r ctx_err a) true (set_available false st)) resting
          (omega arith) (rw (down_world a st) kept) (rw (down_world a st) (λ e there. there)) tt)

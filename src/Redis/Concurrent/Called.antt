-- ===== src/Redis/Concurrent/Called.antt =====
-- One step of a call of BufferLog keeps what was stored
-- (internal/adapter/repository/redis/log_repository.go).
use watch_tower.Common.{
  ℕ, suc, ◌≤◌, ◌<◌, ◌≡◌, ◌⊎◌, inl, inr, refl, ap, Bool, true, false, none, List, [], ◌∷◌, ◌++◌,
  arith, length, Text, Op, Done, Error, ok, err, is_ok, if◌then◌else◌, Bool-cases,
}
use watch_tower.Scanner.{max_token}
use watch_tower.Domain.{LogEvent}
use watch_tower.Domain.Codec.{CodecLaws}
use watch_tower.Wal.Dated.{IsTimed}
use watch_tower.Wal.Methods
use watch_tower.Wal.Journal.{Journal}
use watch_tower.Wal.Journal.Invariant.{IsKept, written-IsKept}
use watch_tower.Redis.Buffer.{
  Repository, Shared, set_wal_active, unavailable, became_unavailable, write_wal, lose_connection,
}
use watch_tower.Redis.Drain.{World, Answers, with_wal}
use watch_tower.Redis.Outage.{Among, Stream}
use watch_tower.Redis.Outage.Safe.{Among-left, Among-last}
use watch_tower.Redis.Concurrent.{
  Pc, loading, adding, failed, writing, returned, Watch, load_flag, advance, is_late,
}
use watch_tower.Redis.Concurrent.Safe.{
  Settled, IsStep, aside-IsStep, not_drained, added, after_add-IsStep,
}

module _ {H : Type 0} (r : Repository H) (ctx_err : Op H Unit) (laws : CodecLaws r.codec)
    (stream : Stream r ctx_err) where
  write_step :
      (a : Answers) (event : LogEvent) (x : Error) (st : Shared (World H))
      → advance (with_wal r ctx_err a) event (writing x) st ≡ (
        returned (Methods.write r.codec a.on_write event st.world.1).0,
        record st { world = (st.world.0, (Methods.write r.codec a.on_write event st.world.1).1) },
      )
  unfolding advance write_wal
  write_step a event x st = ground arith

  returned-Settled :
      (h : H) (es : List LogEvent) (event : LogEvent) (d : Done)
      → Settled r ctx_err laws stream h
          (if is_ok d then es ++ r.codec.wire event ∷ [] else es)
          (event, returned d)
  returned-Settled h es event (ok _) = inr (Among-last (r.codec.wire event) es)
  returned-Settled h es event (err x) = tt

  Among-if :
      (e x : LogEvent) (es : List LogEvent) (d : Done)
      → Among e es
      → Among e (if is_ok d then es ++ x ∷ [] else es)
  Among-if e x es (ok _) m = Among-left e es (x ∷ []) m
  Among-if e x es (err y) m = m

  write-IsStep :
      (a : Answers) (t : ℕ) (es : List LogEvent) (watch : Watch) (event : LogEvent) (x : Error)
      (st : Shared (World H))
      → IsTimed t a.on_write
      → a.on_write.short ≡ none
      → ((body : Text) → r.codec.marshal event ≡ ok body → length body < max_token)
      → is_late (writing x) watch ≡ false
      → IsKept r.codec laws (record { clock = t; wal = st.world.1; events = es })
      → IsStep r ctx_err laws stream
          (suc a.on_write.after.now)
          es
          watch
          event
          st
          (advance (with_wal r ctx_err a) event (writing x) st)
  write-IsStep a t es watch event x st timed short fits early kept =
      let (d, w1) = Methods.write r.codec a.on_write event st.world.1 in
      let es' = if is_ok d then es ++ r.codec.wire event ∷ [] else es in
      let j : Journal = record { clock = t; wal = st.world.1; events = es } in
      rw (write_step a event x st) (record {
        events = es';
        kept = written-IsKept r.codec laws a.on_write event j kept timed short fits;
        keeps = λ e there. there;
        grows = λ e m. Among-if e (r.codec.wire event) es d m;
        settled = returned-Settled st.world.0 es event d;
        drained = not_drained r ctx_err laws stream x st.world.0 st.world.0 es es' watch early;
      })

  load_step :
      (a : Answers) (event : LogEvent) (st : Shared (World H))
      → (advance (with_wal r ctx_err a) event loading st ≡ (adding, st))
        ⊎ (advance (with_wal r ctx_err a) event loading st
            ≡ (writing unavailable, set_wal_active (with_wal r ctx_err a) true st))
  unfolding advance load_flag
  load_step a event st = elim (Bool-cases st.is_available) [
    | inl up ↦ inl (ground arith)
    | inr down ↦ inr (ground arith)
  ]

  lose_step :
      (a : Answers) (event : LogEvent) (x : Error) (st : Shared (World H))
      → advance (with_wal r ctx_err a) event (failed x) st
        ≡ (writing (became_unavailable x), lose_connection (with_wal r ctx_err a) st)
  unfolding advance
  lose_step a event x st = refl

  rest_step :
      (a : Answers) (event : LogEvent) (d : Done) (st : Shared (World H))
      → advance (with_wal r ctx_err a) event (returned d) st ≡ (returned d, st)
  unfolding advance
  rest_step a event d st = refl

  same_world :
      (a : Answers) (v : Bool) (st : Shared (World H))
      → (set_wal_active (with_wal r ctx_err a) v st).world ≡ st.world
  same_world a v st = ground arith

  lose_world :
      (a : Answers) (st : Shared (World H))
      → (lose_connection (with_wal r ctx_err a) st).world ≡ st.world
  unfolding lose_connection
  lose_world a st = ground arith

  pub advance-IsStep :
      (a : Answers) (t : ℕ) (es : List LogEvent) (watch : Watch) (event : LogEvent) (pc : Pc)
      (st : Shared (World H))
      → IsTimed t a.on_write
      → a.on_write.short ≡ none
      → ((body : Text) → r.codec.marshal event ≡ ok body → length body < max_token)
      → is_late pc watch ≡ false
      → IsKept r.codec laws (record { clock = t; wal = st.world.1; events = es })
      → Settled r ctx_err laws stream st.world.0 es (event, pc)
      → IsStep r ctx_err laws stream
          (suc a.on_write.after.now)
          es
          watch
          event
          st
          (advance (with_wal r ctx_err a) event pc st)
  advance-IsStep a t es watch event loading st timed short fits early kept settled =
      let le : t ≤ suc a.on_write.after.now = omega (arith, timed.start, timed.moves) in
      let stays = λ (st' : Shared (World H)) (pc : Pc) (same : st'.world ≡ st.world).
        aside-IsStep r ctx_err laws stream t (suc a.on_write.after.now) es watch event st st' pc le
          kept (ap (λ s. s.1) same) (rw same (λ e there. there)) in
      elim (load_step a event st) [
        | inl e ↦ rw e (stays st adding refl tt)
        | inr e ↦ rw e (
            stays (set_wal_active (with_wal r ctx_err a) true st) (writing unavailable)
              (same_world a true st) tt)
      ]
  advance-IsStep a t es watch event adding st timed short fits early kept settled =
      rw (added r ctx_err laws stream a event st) (
        after_add-IsStep r ctx_err laws stream a t (suc a.on_write.after.now) es watch event st
          (omega (arith, timed.start, timed.moves)) kept)
  advance-IsStep a t es watch event (failed x) st timed short fits early kept settled =
      rw (lose_step a event x st) (
        aside-IsStep r ctx_err laws stream t (suc a.on_write.after.now) es watch event st
          (lose_connection (with_wal r ctx_err a) st) (writing (became_unavailable x))
          (omega (arith, timed.start, timed.moves)) kept (ap (λ s. s.1) (lose_world a st))
          (rw (lose_world a st) (λ e there. there)) tt)
  advance-IsStep a t es watch event (writing x) st timed short fits early kept settled =
      write-IsStep a t es watch event x st timed short fits early kept
  advance-IsStep a t es watch event (returned d) st timed short fits early kept settled =
      rw (rest_step a event d st) (
        aside-IsStep r ctx_err laws stream t (suc a.on_write.after.now) es watch event st st
          (returned d) (omega (arith, timed.start, timed.moves)) kept refl (λ e there. there)
          settled)

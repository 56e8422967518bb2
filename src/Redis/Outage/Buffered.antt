-- ===== src/Redis/Outage/Buffered.antt =====
-- A call of BufferLog keeps accepted events (internal/adapter/repository/redis/log_repository.go).
use watch_tower.Common.{
  ℕ, suc, ◌<◌, ◌≡◌, inl, inr, true, false, none, List, arith, length, Text, Op, Done, Error, ok,
  err, Result-cases, Bool-cases,
}
use watch_tower.Scanner.{max_token}
use watch_tower.Domain.{LogEvent}
use watch_tower.Domain.Codec.{CodecLaws}
use watch_tower.Wal.Dated.{IsTimed}
use watch_tower.Wal.Segments.{Wal}
use watch_tower.Wal.Methods
use watch_tower.Redis.Buffer.{
  Repository, Shared, buffer_log_to_redis, buffer_log, buffer_while_down, after_redis, write_wal,
  lose_connection,
}
use watch_tower.Redis.Errors.{is_network_error}
use watch_tower.Redis.Drain.{World, Answers, with_wal, buffer_beside}
use watch_tower.Redis.Outage.{add_accepted, Stream}
use watch_tower.Redis.Outage.Safe.{
  IsSafe, moved-IsSafe, later-IsSafe, redis_keeps, redis_adds, written-IsSafe, IsSafeNow,
}

module _ {H : Type 0} (r : Repository H) (ctx_err : Op H Unit) (laws : CodecLaws r.codec)
    (stream : Stream r ctx_err) where
  -- BufferLog by its branches.
  pub while_down :
      (a : Answers) (event : LogEvent) (st : Shared (World H))
      → st.is_available ≡ false
      → ((buffer_log (with_wal r ctx_err a) event st).0
          ≡ (Methods.write r.codec a.on_write event st.world.1).0)
        × ((buffer_log (with_wal r ctx_err a) event st).1.world
            ≡ (st.world.0, (Methods.write r.codec a.on_write event st.world.1).1))
        × ((buffer_log (with_wal r ctx_err a) event st).1.is_available ≡ false)
  unfolding buffer_log buffer_while_down write_wal
  while_down a event st down = ground (arith, down)

  pub to_stream :
      (a : Answers) (event : LogEvent) (st : Shared (World H))
      → st.is_available ≡ true
      → (buffer_log_to_redis r event st.world.0).0 ≡ ok tt
      → buffer_log (with_wal r ctx_err a) event st
        ≡ (ok tt, record st { world = ((buffer_log_to_redis r event st.world.0).1, st.world.1) })
  unfolding buffer_log after_redis
  to_stream a event st up done =
      let e = buffer_beside r ctx_err a event st.world.0 st.world.1 in ground (arith, e)

  pub refused_by_redis :
      (a : Answers) (event : LogEvent) (st : Shared (World H)) (x : Error)
      → st.is_available ≡ true
      → (buffer_log_to_redis r event st.world.0).0 ≡ err x
      → is_network_error x ≡ false
      → buffer_log (with_wal r ctx_err a) event st
        ≡ (err x, record st { world = ((buffer_log_to_redis r event st.world.0).1, st.world.1) })
  unfolding buffer_log after_redis
  refused_by_redis a event st x up failed other =
      let e = buffer_beside r ctx_err a event st.world.0 st.world.1 in ground (arith, e)

  pub to_log :
      (a : Answers) (event : LogEvent) (st : Shared (World H)) (x : Error)
      → st.is_available ≡ true
      → (buffer_log_to_redis r event st.world.0).0 ≡ err x
      → is_network_error x ≡ true
      → ((buffer_log (with_wal r ctx_err a) event st).0
          ≡ (Methods.write r.codec a.on_write event st.world.1).0)
        × ((buffer_log (with_wal r ctx_err a) event st).1.world ≡ (
          (buffer_log_to_redis r event st.world.0).1,
          (Methods.write r.codec a.on_write event st.world.1).1,
        ))
        × ((buffer_log (with_wal r ctx_err a) event st).1.is_available ≡ false)
  unfolding buffer_log after_redis write_wal lose_connection
  to_log a event st x up failed lost =
      let e = buffer_beside r ctx_err a event st.world.0 st.world.1 in ground (arith, e)

  -- A call that ends in a write to the log, behind what was added to the stream.
  logged-IsSafeNow :
      (a : Answers) (event : LogEvent) (t : ℕ) (acc es : List LogEvent) (h : H) (w : Wal)
      (p : Done × Shared (World H))
      → IsTimed t a.on_write
      → a.on_write.short ≡ none
      → ((body : Text) → r.codec.marshal event ≡ ok body → length body < max_token)
      → IsSafe r ctx_err laws stream t acc es (h, w)
      → (p.0 ≡ (Methods.write r.codec a.on_write event w).0)
        × (p.1.world ≡ (h, (Methods.write r.codec a.on_write event w).1))
        × (p.1.is_available ≡ false)
      → IsSafeNow r ctx_err laws stream (suc a.on_write.after.now) (add_accepted p.0 event acc) p.1
  logged-IsSafeNow a event t acc es h w p timed short fits safe (result, world, down) =
      let (es', s) =
        written-IsSafe r ctx_err laws stream a event t acc es h w timed short fits safe in
      record {
        events = es';
        safe = rw (result, world) s;
        empty = λ up. absurd (ground (arith, up, down));
      }

  pub buffer-IsSafeNow :
      (a : Answers) (event : LogEvent) (t : ℕ) (acc : List LogEvent) (st : Shared (World H))
      → IsTimed t a.on_write
      → a.on_write.short ≡ none
      → ((body : Text) → r.codec.marshal event ≡ ok body → length body < max_token)
      → IsSafeNow r ctx_err laws stream t acc st
      → IsSafeNow r ctx_err laws stream
          (suc a.on_write.after.now)
          (add_accepted (buffer_log (with_wal r ctx_err a) event st).0 event acc)
          (buffer_log (with_wal r ctx_err a) event st).1
  buffer-IsSafeNow a event t acc st timed short fits now =
      let go = buffer_log (with_wal r ctx_err a) event st in
      let (h, w) = st.world in
      let t' = suc a.on_write.after.now in
      let h1 = (buffer_log_to_redis r event h).1 in
      let moved =
        moved-IsSafe r ctx_err laws stream t acc now.events h h1 w
          (λ e. redis_keeps r ctx_err laws stream event e h) now.safe in
      let later =
        later-IsSafe r ctx_err laws stream t t' acc now.events (h1, w)
          (omega (arith, timed.start, timed.moves)) moved in
      elim (Bool-cases st.is_available) [
        | inr down ↦
            logged-IsSafeNow a event t acc now.events h w go timed short fits now.safe
              (while_down a event st down)
        | inl up ↦ elim (Result-cases (buffer_log_to_redis r event h).0) [
          | inl (tt, done) ↦ rw (to_stream a event st up done) (record {
            events = now.events;
            safe = record {
              kept = later.kept;
              all = (inl (redis_adds r ctx_err laws stream event h done), later.all);
            };
            empty = now.empty;
          })
          | inr (x, failed) ↦ elim (Bool-cases (is_network_error x)) [
            | inl lost ↦
                logged-IsSafeNow a event t acc now.events h1 w go timed short fits moved
                  (to_log a event st x up failed lost)
            | inr other ↦
                rw (refused_by_redis a event st x up failed other)
                  (record { events = now.events; safe = later; empty = now.empty })
          ]
        ]
      ]

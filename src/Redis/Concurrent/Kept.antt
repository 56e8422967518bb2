-- ===== src/Redis/Concurrent/Kept.antt =====
-- Calls of BufferLog and the health check in any order
-- (internal/adapter/repository/redis/log_repository.go).
use watch_tower.Common.{
  ◌<◌, ◌≡◌, List, [], ◌∷◌, All, All-left, All-right, All-append, All-keep, keep, codes, sym, length,
  Text, Op, ok,
}
use mathlib.Core.Path.{subst}
use watch_tower.Scanner.{max_token}
use watch_tower.Domain.{LogEvent}
use watch_tower.Domain.Codec.{CodecLaws}
use watch_tower.Wal.Journal.Invariant.{IsKept, restarted-IsKept}
use watch_tower.Wal.Journal.{Journal}
use watch_tower.Redis.Concurrent.Restarted.{new_world}
use watch_tower.Wal.Log.RoundTrip.{Holds}
use watch_tower.Redis.Buffer.{Repository, log_stream_key, new_log_repository}
use watch_tower.Redis.Drain.{with_wal, wal_repository}
use watch_tower.Redis.Outage.{Stream}
use watch_tower.Redis.Outage.Safe.{All-map-to, side_by_side}
use watch_tower.Redis.Concurrent.{
  Pc, resting, advance, patrol, System, Step, begin, call_moves, watch_moves, restarts,
  has_returned, Reach, here, next,
}
use watch_tower.Redis.Concurrent.Safe.{Settled, Settled-map, Drained}
use watch_tower.Redis.Concurrent.Called.{advance-IsStep}
use watch_tower.Redis.Concurrent.Patrolled.{patrol-IsHarmless}

module _ {H : Type 0} (r : Repository H) (ctx_err : Op H Unit) (laws : CodecLaws r.codec)
    (stream : Stream r ctx_err)
    (stable : (e : LogEvent) → r.codec.wire (r.codec.wire e) ≡ r.codec.wire e)
    (keeps_group : (group : Text) (e : LogEvent) (h : H)
      → stream.contains e h
      → stream.contains e
          (r.client.x_group_create_mk_stream log_stream_key group (codes "0") h).1) where
  -- Each encoding of the event is shorter than the scanner's buffer.
  abbrev IsShort : LogEvent × Pc → Type 0
  IsShort (event, pc) = (body : Text) → r.codec.marshal event ≡ ok body → length body < max_token

  record IsInOrder (s : System H) : Type 0 where
    events : List LogEvent
    kept : IsKept r.codec laws (record { clock = s.clock; wal = s.shared.world.1; events = events })
    settled : All (Settled r ctx_err laws stream s.shared.world.0 events) s.calls
    short : All IsShort s.calls
    drained : Drained r ctx_err laws stream s.shared.world.0 events s.watch

  Step-IsInOrder : (s s' : System H) → Step r ctx_err s s' → IsInOrder s → IsInOrder s'
  Step-IsInOrder s _ (begin event fits) o = record {
    events = o.events;
    kept = o.kept;
    settled = (tt, o.settled);
    short = (fits, o.short);
    drained = o.drained;
  }
  Step-IsInOrder s _ (watch_moves a calm listed removed le current) o =
      let p =
        patrol-IsHarmless r ctx_err laws stream a s.clock o.events s.watch s.shared stable calm
          listed removed le current o.kept o.drained in
      let st' =
        (patrol (with_wal r ctx_err a) (wal_repository r.codec ctx_err a) s.watch s.shared).1 in
      record {
        events = p.events;
        kept = p.kept;
        settled =
            All-map-to (Settled r ctx_err laws stream s.shared.world.0 o.events)
              (Settled r ctx_err laws stream st'.world.0 p.events) s.calls
              (λ c.
                Settled-map r ctx_err laws stream s.shared.world.0 st'.world.0 o.events p.events c
                  (p.settles c.0))
              o.settled;
        short = o.short;
        drained = p.drained;
      }
  Step-IsInOrder s _ (call_moves a before after event pc e early timed whole) o =
      let st' = (advance (with_wal r ctx_err a) event pc s.shared).1 in
      let pc' = (advance (with_wal r ctx_err a) event pc s.shared).0 in
      let Old = Settled r ctx_err laws stream s.shared.world.0 o.events in
      let settled = subst (All Old) e o.settled in
      let short = subst (All IsShort) e o.short in
      let (fits, short_after) = All-right IsShort before ((event, pc) ∷ after) short in
      let (mine, settled_after) = All-right Old before ((event, pc) ∷ after) settled in
      let p =
        advance-IsStep r ctx_err laws stream a s.clock o.events s.watch event pc s.shared timed
          whole fits early o.kept mine in
      let New = Settled r ctx_err laws stream st'.world.0 p.events in
      let others = λ (cs : List (LogEvent × Pc)). All-map-to Old New cs (λ c.
        Settled-map r ctx_err laws stream s.shared.world.0 st'.world.0 o.events p.events c
          (side_by_side (p.keeps (r.codec.wire c.0)) (p.grows (r.codec.wire c.0)))) in
      record {
        events = p.events;
        kept = p.kept;
        settled =
            All-append New before ((event, pc') ∷ after)
              (others before (All-left Old before ((event, pc) ∷ after) settled))
              (p.settled, others after settled_after);
        short =
            All-append IsShort before ((event, pc') ∷ after)
              (All-left IsShort before ((event, pc) ∷ after) short) (fits, short_after);
        drained = p.drained o.drained;
      }
  Step-IsInOrder s _ (restarts mkdir env max_segment max_total group w le current opened) o =
      let (p, h1) = r.client.ping s.shared.world.0 in
      let h2 = (new_log_repository r group h1).world in
      let j : Journal = record { clock = s.clock; wal = s.shared.world.1; events = o.events } in
      let keeps = λ (e : LogEvent) (there : stream.contains e s.shared.world.0).
        subst (stream.contains e) (sym (new_world r group h1))
          (keeps_group group e h1 (stream.keeps_ping e s.shared.world.0 there)) in
      let Old = Settled r ctx_err laws stream s.shared.world.0 o.events in
      record {
        events = o.events;
        kept =
            restarted-IsKept r.codec laws j mkdir env max_segment max_total w o.kept le current
              opened;
        settled =
            All-map-to Old (Settled r ctx_err laws stream h2 o.events) (keep has_returned s.calls)
              (λ c.
                Settled-map r ctx_err laws stream s.shared.world.0 h2 o.events o.events c
                  (side_by_side (keeps (r.codec.wire c.0)) (λ m. m)))
              (All-keep Old has_returned s.calls o.settled);
        short = All-keep IsShort has_returned s.calls o.short;
        drained = tt;
      }

  Reach-IsInOrder :
      {s : System H} (s' : System H) → IsInOrder s → Reach r ctx_err s s' → IsInOrder s'
  Reach-IsInOrder s' o here = o
  Reach-IsInOrder s' o (next {t} {u} reach step) =
      Step-IsInOrder t u step (Reach-IsInOrder t o reach)

  -- Calls of `BufferLog` and the health check run beside one another, each access to the flag, to the
  -- client and to the WAL a step of its own, a whole replay one step, in any order; and the process
  -- may end at any point, and start again. If no call has begun, and the log is in order, then after
  -- any steps the log is in order and holds certain events, and for each call, of any of the
  -- processes, that has returned without an error, its event, as it is decoded, is in the stream or
  -- among them. Demanded is that no call writes to the WAL between a replay and its truncation, and,
  -- as for one call behind the other, that the stream keeps what it took, also where its group is set
  -- up, that an event that was decoded once is encoded and decoded without a change, that each
  -- encoding is shorter than the scanner's buffer, that the clock moves on, that no write is cut
  -- short, that no call of the operating system in a replay fails, that a truncation removes every
  -- segment, and that a start opens the log.
  pub calls_lose_nothing :
      (s s' : System H) (es : List LogEvent)
      → IsKept r.codec laws (record { clock = s.clock; wal = s.shared.world.1; events = es })
      → s.calls ≡ []
      → s.watch ≡ resting
      → Reach r ctx_err s s'
      → (es' : List LogEvent) × Holds r.codec laws s'.shared.world.1 es'
        × All (Settled r ctx_err laws stream s'.shared.world.0 es') s'.calls
  calls_lose_nothing s s' es kept no_call rests reach =
      let start : IsInOrder s = record {
        events = es;
        kept = kept;
        settled = rw no_call tt;
        short = rw no_call tt;
        drained = rw rests tt;
      } in
      let o = Reach-IsInOrder s' start reach in (o.events, o.kept.holds, o.settled)

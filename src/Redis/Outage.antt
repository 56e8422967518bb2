-- ===== src/Redis/Outage.antt =====
-- The producer through outages of Redis: calls of BufferLog and ticks of the health check, one behind
-- the other, over the modelled WAL (internal/adapter/repository/redis/log_repository.go).
pub mod Safe
pub mod Buffered
pub mod Pushed
pub mod Recovered
pub mod Lossless
pub mod Delivered
use watch_tower.Common.{
  ℕ, suc, ◌≤◌, ◌<◌, ◌≡◌, ◌⊎◌, false, none, List, [], ◌∷◌, ◌++◌, length, Text, Op, Done, ok, err,
}
use watch_tower.Scanner.{max_token}
use watch_tower.Domain.{LogEvent}
use watch_tower.Wal.Clock.{IsCurrent}
use watch_tower.Wal.Dated.{IsTimed}
use watch_tower.Wal.Log.Replay.{IsCalm}
use watch_tower.Redis.Client.{XAddArgs}
use watch_tower.Redis.Buffer.{Repository, Shared, log_entry, buffer_log}
use watch_tower.Redis.Health.{health_tick}
use watch_tower.Redis.Drain.{World, Answers, with_wal, wal_repository}

-- What happens to the repository, with what the operating system answers meanwhile.
pub data Call : Type 0 where
  buffer : Answers → LogEvent → Call
  tick : Answers → Call

abbrev pub Among : LogEvent → List LogEvent → Type 0
Among e [] = ⊥
Among e (x ∷ xs) = (x ≡ e) ⊎ Among e xs

-- An event is added to those that were accepted, if its call returned no error.
abbrev pub add_accepted : Done → LogEvent → List LogEvent → List LogEvent
add_accepted (ok _) e es = e ∷ es
add_accepted (err _) e es = es

module _ {H : Type 0} (r : Repository H) (ctx_err : Op H Unit) where
  -- A stream, as Redis documents it: an entry that was added without an error is in it, and it stays
  -- there through what the producer does. `contains e h` says that an entry that decodes to `e` is in
  -- the stream of the world `h`.
  pub record Stream : Type 1 where
    pub contains : LogEvent → H → Type 0
    pub added :
        (payload : Text) (e : LogEvent) (h : H)
        → (r.client.x_add (log_entry payload) h).0 ≡ ok tt
        → r.codec.unmarshal payload ≡ ok e
        → contains e (r.client.x_add (log_entry payload) h).1
    pub keeps_add :
        (a : XAddArgs) (e : LogEvent) (h : H) → contains e h → contains e (r.client.x_add a h).1
    pub keeps_ping : (e : LogEvent) (h : H) → contains e h → contains e (r.client.ping h).1
    pub keeps_ctx : (e : LogEvent) (h : H) → contains e h → contains e (ctx_err h).1

  -- The calls one behind the other, with the accepted events, the last first.
  unfoldable pub run :
      List Call → List LogEvent × Shared (World H) → List LogEvent × Shared (World H)
  run [] (acc, st) = (acc, st)
  run (buffer a e ∷ cs) (acc, st) =
      let (d, st1) = buffer_log (with_wal r ctx_err a) e st in run cs (add_accepted d e acc, st1)
  run (tick a ∷ cs) (acc, st) =
      run cs (acc, health_tick (with_wal r ctx_err a) (wal_repository r.codec ctx_err a) st)

  -- The clock moves on, no write is cut short, each encoding is shorter than the scanner's buffer, no
  -- call of a replay fails, and a truncation lists the directory and removes every segment.
  abbrev pub AreCalm : ℕ → List Call → Type 0
  AreCalm t [] = Unit
  AreCalm t (buffer a e ∷ cs) =
      IsTimed t a.on_write
      × (a.on_write.short ≡ none)
      × ((body : Text) → r.codec.marshal e ≡ ok body → length body < max_token)
      × AreCalm (suc a.on_write.after.now) cs
  AreCalm t (tick a ∷ cs) =
      IsCalm a.on_replay
      × (a.on_truncate.read_dir ≡ none)
      × ((n : Text) → a.on_truncate.keeps n ≡ false)
      × (t ≤ a.on_truncate.reopen.rotation.now)
      × IsCurrent a.on_truncate.reopen.rotation.now
      × AreCalm (suc a.on_truncate.reopen.rotation.now) cs

-- ===== src/Redis/Concurrent.antt =====
-- Calls of BufferLog and the health check as goroutines: each step is one access to what they share,
-- the flag isAvailable, the client or the WAL, with the gauge set beside it, and the steps come in any
-- order. A replay, through which the WAL holds its mutex, is one step
-- (internal/adapter/repository/redis/log_repository.go).
pub mod Safe
pub mod Called
pub mod Patrolled
pub mod Restarted
pub mod Kept
use watch_tower.Common.{
  ℕ, zero, suc, ◌≤◌, ◌<◌, ◌≡◌, Bool, true, false, not, ◌&&◌, none, some, List, [], ◌∷◌, ◌++◌,
  if◌then◌else◌, length, Text, Op, Done, Error, ok, err, is_ok, Option, keep,
}
use watch_tower.Scanner.{max_token}
use watch_tower.Domain.{LogEvent, WalRepository}
use watch_tower.Wal.Segments.{Wal, OpenEnv}
use watch_tower.Wal.Methods.{new_wal}
use watch_tower.Wal.Clock.{IsCurrent}
use watch_tower.Wal.Dated.{IsTimed}
use watch_tower.Wal.Log.Replay.{IsCalm}
use watch_tower.Redis.Errors.{is_network_error}
use watch_tower.Redis.Buffer.{
  Repository, Shared, in_world, set_available, set_wal_active, unavailable, became_unavailable,
  new_log_repository, buffer_log_to_redis, write_wal, lose_connection,
}
use watch_tower.Redis.Drain.{World, Answers, beside_wal, with_wal, wal_repository}

-- Where a call of BufferLog stands.
pub data Pc : Type 0 where
  loading : Pc  -- before isAvailable.Load
  adding : Pc  -- before bufferLogToRedis
  failed : Error → Pc  -- before isAvailable.CompareAndSwap
  writing : Error → Pc  -- before wal.Write, with the error for a WAL that is nil
  returned : Done → Pc

-- Where the health check stands.
pub data Watch : Type 0 where
  resting : Watch  -- before a tick
  loaded : Bool → Watch  -- before the ping, with wasAvailable
  recovering : Watch  -- before wal.Replay
  replayed : Watch  -- before wal.Truncate
  truncated : Watch  -- before isAvailable.Store(true)
  lost : Watch  -- before isAvailable.Store(false)

module _ {S : Type 0} (r : Repository S) where
  -- `if !r.isAvailable.Load()`
  unfoldable pub load_flag : Shared S → Pc × Shared S
  load_flag st = if st.is_available then (adding, st) else elim r.wal [
    | none ↦ (returned (err unavailable), st)
    | some _ ↦ (writing unavailable, set_wal_active r true st)
  ]

  unfoldable pub after_add : Done × Shared S → Pc × Shared S
  after_add (ok _, st) = (returned (ok tt), st)
  after_add (err e, st) = if is_network_error e then (failed e, st) else (returned (err e), st)

  unfoldable pub advance : LogEvent → Pc → Shared S → Pc × Shared S
  unfolding load_flag after_add
  advance event loading st = load_flag st
  advance event adding st = after_add (in_world (buffer_log_to_redis r event) st)
  advance event (failed e) st = (writing (became_unavailable e), lose_connection r st)
  advance event (writing missing) st =
      let (d, st1) = write_wal r missing event st in (returned d, st1)
  advance event (returned d) st = (returned d, st)

  -- The decision behind the ping.
  unfoldable pub decide : Bool → Done → Shared S → Watch × Shared S
  decide was pinged st =
      if is_ok pinged && not was
      then (recovering, set_wal_active r false st)
      else if not (is_ok pinged) && was
      then (lost, st)
      else (resting, st)

  -- Behind a call of the WAL, which ends the recovery if it fails.
  unfoldable pub go_on : Watch → Done × Shared S → Watch × Shared S
  go_on next (ok _, st) = (next, st)
  go_on next (err _, st) = (resting, st)

  unfoldable pub patrol : WalRepository S → Watch → Shared S → Watch × Shared S
  unfolding decide go_on
  patrol wal resting st = (loaded st.is_available, st)
  patrol wal (loaded was) st = let (e, st1) = in_world r.client.ping st in decide was e st1
  patrol wal recovering st = go_on replayed (in_world (wal.replay (buffer_log_to_redis r)) st)
  patrol wal replayed st = go_on truncated (in_world wal.truncate st)
  patrol wal truncated st = (resting, set_available true st)
  patrol wal lost st = (resting, set_wal_active r true (set_available false st))

-- The repository with its goroutines, whose calls of all processes are remembered, and the time.
pub record System (H : Type 0) : Type 0 where
  pub shared : Shared (World H)
  pub calls : List (LogEvent × Pc)
  pub watch : Watch
  pub clock : ℕ

-- A call that has returned; the others end with the process.
abbrev pub has_returned : LogEvent × Pc → Bool
has_returned (event, returned _) = true
has_returned _ = false

-- A call that is about to write to the WAL between its replay and its truncation.
abbrev pub is_late : Pc → Watch → Bool
is_late (writing _) replayed = true
is_late _ _ = false

module _ {H : Type 0} (r : Repository H) (ctx_err : Op H Unit) where
  -- A call of BufferLog begins, one goes on by a step, the health check does, or the process ends, at
  -- any point, and starts again as cmd/ingest/main.go has it. What the operating system answers is
  -- demanded to be as in the sequences of Redis/Outage. A step that is late in the sense above is left
  -- out.
  pub data Step (s : System H) : System H → Type 0 where
    begin :
        (event : LogEvent)
        → ((body : Text) → r.codec.marshal event ≡ ok body → length body < max_token)
        → Step s (record s { calls = (event, loading) ∷ s.calls })
    call_moves :
        (a : Answers) (before after : List (LogEvent × Pc)) (event : LogEvent) (pc : Pc)
        → s.calls ≡ before ++ (event, pc) ∷ after
        → is_late pc s.watch ≡ false
        → IsTimed s.clock a.on_write
        → a.on_write.short ≡ none
        → Step s (record s {
          shared = (advance (with_wal r ctx_err a) event pc s.shared).1;
          calls = before ++ (event, (advance (with_wal r ctx_err a) event pc s.shared).0) ∷ after;
          clock = suc a.on_write.after.now;
        })
    watch_moves :
        (a : Answers)
        → IsCalm a.on_replay
        → a.on_truncate.read_dir ≡ none
        → ((n : Text) → a.on_truncate.keeps n ≡ false)
        → s.clock ≤ a.on_truncate.reopen.rotation.now
        → IsCurrent a.on_truncate.reopen.rotation.now
        → Step s (record s {
          shared =
              (patrol (with_wal r ctx_err a) (wal_repository r.codec ctx_err a) s.watch s.shared).1;
          watch =
              (patrol (with_wal r ctx_err a) (wal_repository r.codec ctx_err a) s.watch s.shared).0;
          clock = suc a.on_truncate.reopen.rotation.now;
        })
    restarts :
        (mkdir : Option Error) (env : OpenEnv) (max_segment max_total : ℕ) (group : Text) (w : Wal)
        → s.clock ≤ env.rotation.now
        → IsCurrent env.rotation.now
        → (new_wal mkdir env max_segment max_total s.shared.world.1.dir tt).0 ≡ ok w
        → Step s (record s {
          shared = beside_wal w (new_log_repository r group (r.client.ping s.shared.world.0).1);
          calls = keep has_returned s.calls;
          watch = resting;
          clock = suc env.rotation.now;
        })

  pub data Reach (s : System H) : System H → Type 0 where
    here : Reach s s
    next : {t u : System H} → Reach s t → Step t u → Reach s u

-- ===== src/Redis/Buffer.antt =====
-- BufferLog, with the failover to the WAL, and ReplayWAL
-- (internal/adapter/repository/redis/log_repository.go).
pub mod Outcome
use watch_tower.Common.{
  Bool, true, false, not, Option, none, some, List, [], ◌∷◌, if◌then◌else◌, Text, codes, Op, Done,
  Error, ok, err, wrapped, failure, wrap_error,
}
use watch_tower.Domain.{LogEvent, WalRepository}
use watch_tower.Domain.Codec.{Codec}
use watch_tower.Redis.Errors.{is_network_error, is_redis_busy_group_error}
use watch_tower.Redis.Client.{Client, XAddArgs}

abbrev pub log_stream_key : Text
log_stream_key = codes "log_events"

-- The fields that are set once. `has_metrics` says that metrics is not nil.
pub record Repository (S : Type 0) : Type 0 where
  pub client : Client S
  pub codec : Codec
  pub wal : Option (WalRepository S)
  pub dlq_stream_key : Text
  pub has_metrics : Bool

-- The flag isAvailable, the gauge WALActive, and the state of the client and the WAL.
pub record Shared (S : Type 0) : Type 0 where
  pub is_available : Bool
  pub wal_active : Bool
  pub world : S

abbrev pub in_world : {S A : Type 0} → Op S A → Op (Shared S) A
in_world m st = let (r, s) = m st.world in (r, record st { world = s })

abbrev pub unavailable : Error
unavailable = failure (codes "redis is unavailable and WAL is not configured")

abbrev pub became_unavailable : Error → Error
became_unavailable = wrapped (codes "redis became unavailable and WAL is not configured: ")

abbrev pub set_available : {S : Type 0} → Bool → Shared S → Shared S
set_available v st = record st { is_available = v }

abbrev pub log_entry : Text → XAddArgs
log_entry payload = record { stream = log_stream_key; values = (codes "payload", payload) ∷ [] }

module _ {S : Type 0} (r : Repository S) where
  -- r.metrics.WALActive.Set(...), where there are metrics.
  abbrev pub set_wal_active : Bool → Shared S → Shared S
  set_wal_active v st = if r.has_metrics then record st { wal_active = v } else st

  unfoldable pub setup_consumer_group : Text → Op S Unit
  setup_consumer_group group s =
      let (e, s1) = r.client.x_group_create_mk_stream log_stream_key group (codes "0") s in
      elim e [
        | ok _ ↦ (ok tt, s1)
        | err x ↦
            if is_redis_busy_group_error x
            then (ok tt, s1)
            else (err (wrapped (codes "failed to create consumer group: ") x), s1)
      ]

  -- NewLogRepository: available, unless the group cannot be set up.
  unfoldable pub new_log_repository : Text → S → Shared S
  unfolding setup_consumer_group
  new_log_repository group s =
      let (e, s1) = setup_consumer_group group s in
      elim e [
        | ok _ ↦ record { is_available = true; wal_active = false; world = s1 }
        | err x ↦ record {
          is_available = is_redis_busy_group_error x;
          wal_active = false;
          world = s1;
        }
      ]

  unfoldable pub buffer_log_to_redis : LogEvent → Op S Unit
  buffer_log_to_redis event s = elim (r.codec.marshal event) [
    | err e ↦ (err (wrapped (codes "failed to marshal log event: ") e), s)
    | ok payload ↦
        let (e, s1) = r.client.x_add (log_entry payload) s in
        (wrap_error (codes "failed to XADD to redis stream: ") e, s1)
  ]

  -- r.wal.Write, or the error where there is no WAL.
  unfoldable pub write_wal : Error → LogEvent → Op (Shared S) Unit
  write_wal missing event st = elim r.wal [
    | none ↦ (err missing, st)
    | some wal ↦ in_world (wal.write event) st
  ]

  -- The gauge is set only where there is a WAL to write to.
  unfoldable pub buffer_while_down : LogEvent → Op (Shared S) Unit
  unfolding write_wal
  buffer_while_down event st = elim r.wal [
    | none ↦ (err unavailable, st)
    | some _ ↦ write_wal unavailable event (set_wal_active true st)
  ]

  -- r.isAvailable.CompareAndSwap(true, false), and the gauge if it swapped.
  unfoldable pub lose_connection : Shared S → Shared S
  lose_connection st = if st.is_available then set_wal_active true (set_available false st) else st

  -- BufferLog behind the write to Redis.
  unfoldable pub after_redis : LogEvent → Done × Shared S → Done × Shared S
  unfolding lose_connection
  after_redis event (ok _, st) = (ok tt, st)
  after_redis event (err e, st) =
      if is_network_error e
      then write_wal (became_unavailable e) event (lose_connection st)
      else (err e, st)

  unfoldable pub buffer_log : LogEvent → Op (Shared S) Unit
  buffer_log event st =
      if not st.is_available
      then buffer_while_down event st
      else after_redis event (in_world (buffer_log_to_redis event) st)

  -- ReplayWAL: the WAL holds its mutex within each of the two calls, and not between them.
  unfoldable pub replay_wal : WalRepository S → Op S Unit
  replay_wal wal s =
      let (e, s1) = wal.replay buffer_log_to_redis s in
      elim e [
        | err x ↦ (err (wrapped (codes "WAL replay failed: ") x), s1)
        | ok _ ↦
            let (t, s2) = wal.truncate s1 in
            (wrap_error (codes "failed to truncate WAL after successful replay: ") t, s2)
      ]

-- ===== src/Tests/RedisTests.antt =====
-- The Redis repository's theorems at a client that records what it is given.
use watch_tower.Common.{
  All, ◌≡◌, ◌⊎◌, refl, Bool, true, false, some, List, [], ◌∷◌, ◌++◌, map, if◌then◌else◌, codes, ok,
  err, Error, net_closed,
}
use watch_tower.Domain.{LogEvent, WalRepository}
use watch_tower.Redis.Errors.{is_network_error, is_closed_or_ended}
use watch_tower.Redis.Client.{Client, XAddArgs}
use watch_tower.Redis.Buffer.{
  Repository, Shared, buffer_log, buffer_log_to_redis, buffer_while_down, after_redis, write_wal,
  lose_connection,
}
use watch_tower.Redis.Buffer.Outcome.{InStream, InWal, buffer_log_stores}
use watch_tower.Redis.Batch.{read_log_batch}
use watch_tower.Redis.Batch.RoundTrip.{message_of, received, read_log_batch-received}
use watch_tower.Tests.Data.{with_message, published, shift_codec, shift_laws}

abbrev hello : LogEvent
hello = with_message (codes "hi")

-- The state: whether the connection holds, the entries of the stream, and the events of the WAL.
abbrev World : Type 0
World = Bool × List XAddArgs × List LogEvent

abbrev client : Client World
client = record {
  x_group_create_mk_stream = λ _ _ _ s. (ok tt, s);
  ping = λ s. (ok tt, (true, s.1, s.2));
  x_add = λ a s. if s.0 then (ok tt, (true, s.1 ++ a ∷ [], s.2)) else (err net_closed, s);
  x_read_group = λ _ s.
      (ok (record { name = codes "log_events"; messages = message_of published ∷ [] } ∷ []), s);
  x_ack = λ _ _ ids s. (ok 1, s);
  pipeline = λ _ s. (ok tt, s);
}

abbrev wal : WalRepository World
wal = record {
  write = λ e s. (ok tt, (s.0, s.1, s.2 ++ e ∷ []));
  replay = λ _ s. (ok tt, s);
  truncate = λ s. (ok tt, (s.0, s.1, []));
  close = λ s. (ok tt, s);
}

abbrev repository : Repository World
repository = record {
  client = client;
  codec = shift_codec;
  wal = some wal;
  dlq_stream_key = codes "log_events_dlq";
  has_metrics = true;
}

-- Redis counts as available, and the connection is lost.
abbrev broken : Shared World
broken = record { is_available = true; wal_active = false; world = (false, [], []) }

program : Unit {0}
unfolding buffer_log buffer_log_to_redis buffer_while_down after_redis write_wal lose_connection
    is_network_error is_closed_or_ended
program = tt

failed_over :
    buffer_log repository hello broken
    ≡ (ok tt, record { is_available = false; wal_active = true; world = (false, [], hello ∷ []) })
unfolding program
failed_over = refl

broken_accepts : (buffer_log repository hello broken).0 ≡ ok tt
unfolding program
broken_accepts = refl

buffer_log_stores_example :
    ((broken.is_available ≡ true)
      × InStream repository hello broken.world (buffer_log repository hello broken).1.world)
    ⊎ ((broken.is_available ≡ false)
        × InWal repository hello broken.world (buffer_log repository hello broken).1.world)
    ⊎ ((e : Error) × (broken.is_available ≡ true)
        × ((buffer_log_to_redis repository hello broken.world).0 ≡ err e)
        × (is_network_error e ≡ true)
        × InWal repository hello
            (buffer_log_to_redis repository hello broken.world).1
            (buffer_log repository hello broken).1.world)
buffer_log_stores_example = buffer_log_stores repository hello broken broken_accepts

read_log_batch-received_example :
    ((read_log_batch repository (codes "g") (codes "c") 10 broken.world).0
      ≡ ok (map received (published ∷ [])))
    × All (λ p. p.entry.stream ≡ codes "log_events") (published ∷ [])
read_log_batch-received_example =
    read_log_batch-received repository shift_laws (codes "g") (codes "c") (codes "log_events") 10
      broken.world (published ∷ []) [] refl

abbrev down : Shared World
down = record { is_available = false; wal_active = true; world = (false, [], hello ∷ []) }

closed_is_network : is_network_error net_closed ≡ true
unfolding program
closed_is_network = refl

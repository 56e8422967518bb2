-- ===== src/Tests/LateTests.antt =====
-- An event that comes while the log is replayed.
use watch_tower.Common.{◌+◌, ◌≡◌, refl, true, none, List, [], ◌∷◌, arith, codes, Op, ok}
use watch_tower.Wal.Dated.{IsDated, IsTimed}
use watch_tower.Wal.Log.{log_lines}
use watch_tower.Wal.Log.Replay.{for_each}
use watch_tower.Redis.Client.{XAddArgs}
use watch_tower.Redis.Buffer.{Repository, buffer_log_to_redis}
use watch_tower.Redis.Drain.{wal_repository, with_wal, push}
use watch_tower.Redis.Late.{replay_wal_among, buffered_late, late_event_is_lost}
use watch_tower.Tests.Data.{shift_codec, shift_laws}
use watch_tower.Tests.WalTests.{calm-IsCalm}
use watch_tower.Tests.JournalTests.{start, hello, second}
use watch_tower.Tests.RestartTests.{client, answers, second-Holds, second-IsDistinct}

abbrev plain : Repository (List XAddArgs)
plain = record {
  client = client;
  codec = shift_codec;
  wal = none;
  dlq_stream_key = codes "log_events_dlq";
  has_metrics = true;
}

abbrev running : Op (List XAddArgs) Unit
running h = (ok tt, h)

second-IsDated : IsDated (start + 3) second.dir
second-IsDated = (
  (start, refl, (omega arith, omega arith), omega arith),
  ((start + 2, refl, (omega arith, omega arith), omega arith), tt),
)

write-IsTimed : IsTimed (start + 3) answers.on_write
write-IsTimed = record {
  start = omega arith;
  moves = omega arith;
  before = (omega arith, omega arith);
  after = (omega arith, omega arith);
}

all_pushed : (push plain running answers (hello ∷ []) []).0 ≡ ok tt
unfolding buffer_log_to_redis for_each
all_pushed = refl

late_event_is_lost_example :
    ((replay_wal_among
        (with_wal plain running answers)
        (wal_repository shift_codec running answers)
        (buffered_late plain running answers true hello)
        ([], second)).1.0
      ≡ (push plain running answers (hello ∷ []) []).1)
    × (log_lines
          (replay_wal_among
            (with_wal plain running answers)
            (wal_repository shift_codec running answers)
            (buffered_late plain running answers true hello)
            ([], second)).1.1.dir
        ≡ [])
late_event_is_lost_example =
    late_event_is_lost plain running answers shift_laws second (hello ∷ []) [] (start + 3) true
      hello second-Holds calm-IsCalm refl (λ n. refl) second-IsDistinct second-IsDated write-IsTimed
      (omega arith) (omega arith, omega arith) all_pushed

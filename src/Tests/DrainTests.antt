-- ===== src/Tests/DrainTests.antt =====
-- ReplayWAL over a log of one event and a client that takes it.
use watch_tower.Common.{
  ◌≡◌, ◌⊎◌, refl, true, none, List, [], ◌∷◌, ◌++◌, codes, ok, err, Error, wrapped, Op,
}
use watch_tower.Domain.{LogEvent}
use watch_tower.Wal.Log.{log_lines, IsReady}
use watch_tower.Redis.Client.{Client, XAddArgs}
use watch_tower.Redis.Buffer.{Repository, replay_wal}
use watch_tower.Redis.Drain.{Answers, wal_repository, with_wal, push, replay_wal_drains}
use watch_tower.Tests.Data.{with_message, shift_codec, shift_laws}
use watch_tower.Tests.WalTests.{
  calm, calm-IsCalm, reopen, one_line, one_line_absent, one_line-Holds,
}

-- The state of the client is the stream.
abbrev client : Client (List XAddArgs)
client = record {
  x_group_create_mk_stream = λ _ _ _ s. (ok tt, s);
  ping = λ s. (ok tt, s);
  x_add = λ a s. (ok tt, s ++ a ∷ []);
  x_read_group = λ _ s. (ok [], s);
  x_ack = λ _ _ _ s. (ok 0, s);
  pipeline = λ _ s. (ok tt, s);
}

abbrev repository : Repository (List XAddArgs)
repository = record {
  client = client;
  codec = shift_codec;
  wal = none;
  dlq_stream_key = codes "log_events_dlq";
  has_metrics = true;
}

abbrev running : Op (List XAddArgs) Unit
running s = (ok tt, s)

abbrev answers : Answers
answers = record {
  on_write = record {
    before = record { now = 1; create = none };
    size = none;
    short = none;
    after = record { now = 2; create = none };
  };
  on_replay = calm;
  on_truncate = reopen;
  on_close = none;
}

abbrev hello : LogEvent
hello = with_message (codes "hi")

replay_wal_drains_example :
    ((replay_wal
        (with_wal repository running answers)
        (wal_repository shift_codec running answers)
        ([], one_line)).1.0
      ≡ (push repository running answers (hello ∷ []) []).1)
    × ((((push repository running answers (hello ∷ []) []).0 ≡ ok tt)
          × (log_lines
                (replay_wal
                  (with_wal repository running answers)
                  (wal_repository shift_codec running answers)
                  ([], one_line)).1.1.dir
              ≡ [])
          × IsReady
              (replay_wal
                (with_wal repository running answers)
                (wal_repository shift_codec running answers)
                ([], one_line)).1.1)
        ⊎ ((e : Error) × ((push repository running answers (hello ∷ []) []).0 ≡ err e)
            × ((replay_wal
                  (with_wal repository running answers)
                  (wal_repository shift_codec running answers)
                  ([], one_line)).0
                ≡ err (wrapped (codes "WAL replay failed: ") e))
            × ((replay_wal
                  (with_wal repository running answers)
                  (wal_repository shift_codec running answers)
                  ([], one_line)).1.1.dir
                ≡ one_line.dir)))
replay_wal_drains_example =
    replay_wal_drains repository running answers shift_laws one_line (hello ∷ []) [] one_line-Holds
      calm-IsCalm refl (λ n. refl) (tt, tt) one_line_absent

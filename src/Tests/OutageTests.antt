-- ===== src/Tests/OutageTests.antt =====
-- An outage of Redis: an event that comes while the connection is lost, and the tick that finds it
-- again.
use watch_tower.Common.{
  ◌+◌, ◌-◌, ◌≡◌, ◌⊎◌, inl, inr, refl, Bool, true, false, not, ◌&&◌, none, List, [], ◌∷◌, map, arith,
  All, Text, codes, Op, ok, err, net_closed, text_eq, text_le, has_prefix, concat_map, last?,
  if◌then◌else◌,
}
use watch_tower.Scanner.{split_lines, whole, scan}
use watch_tower.Domain.{LogEvent}
use watch_tower.Wal.Files.{
  segment_name, digits_from, content?, is_segment, insert_name, sort_names, segment_names,
  sorted_segments, append_file, create_file, remove_file, total_size,
}
use watch_tower.Wal.Segments.{rotate, open_segment, open_latest_segment}
use watch_tower.Wal.Methods.{
  write, write_line, ensure_segment, check_budget, write_segment, rotate_if_full, replay,
  replay_segments, replay_segment, replay_content, replay_lines, segment_tokens, truncate,
  remove_segments,
}
use watch_tower.Wal.Journal.Invariant.{IsKept}
use watch_tower.Wal.Log.{log_lines}
use watch_tower.Wal.Log.RoundTrip.{Holds}
use watch_tower.Redis.Client.{Client, XAddArgs}
use watch_tower.Redis.Buffer.{
  Repository, Shared, log_entry, buffer_log, buffer_log_to_redis, after_redis, write_wal,
  lose_connection, replay_wal,
}
use watch_tower.Redis.Errors.{is_network_error, is_closed_or_ended}
use watch_tower.Redis.Health.{health_tick, recover}
use watch_tower.Redis.Buffer.Outcome.{visible, is_lost, before_wal, buffer_log-visible}
use watch_tower.Redis.Drain.{World, Answers, with_wal, wal_repository}
use watch_tower.Redis.Outage.{Call, buffer, tick, Among, Stream, run, AreCalm}
use watch_tower.Redis.Outage.Lossless.{run_loses_nothing}
use watch_tower.Redis.Outage.Delivered.{IsServing, CanEncodeDecoded, run_delivers}
use watch_tower.Tests.Data.{with_message, shift_codec, shift_laws}
use watch_tower.Tests.WalTests.{calm, calm-IsCalm}
use watch_tower.Tests.JournalTests.{start, first, hello, hello_short, write_env, opening}

unfoldable pub program : Unit {0}
unfolding segment_name digits_from content? is_segment insert_name sort_names segment_names
    sorted_segments append_file create_file remove_file total_size rotate open_segment
    open_latest_segment write write_line ensure_segment check_budget write_segment rotate_if_full
    replay replay_segments replay_segment replay_content replay_lines segment_tokens truncate
    remove_segments log_lines buffer_log buffer_log_to_redis after_redis write_wal lose_connection
    replay_wal is_network_error is_closed_or_ended health_tick recover run text_eq text_le
    has_prefix concat_map split_lines whole scan last?
program = tt

-- Whether the connection holds, and the payloads of the stream, the last first.
abbrev pub Redis : Type 0
Redis = Bool × List Text

abbrev payload_of : List (Text × Text) → Text
payload_of [] = []
payload_of ((k, v) ∷ vs) = v

abbrev x_add : XAddArgs → Op Redis Unit
x_add a s = if s.0 then (ok tt, (true, payload_of a.values ∷ s.1)) else (err net_closed, s)

abbrev client : Client Redis
client = record {
  x_group_create_mk_stream = λ _ _ _ s. (ok tt, s);
  ping = λ s. (ok tt, (true, s.1));
  x_add = x_add;
  x_read_group = λ _ s. (ok [], s);
  x_ack = λ _ _ _ s. (ok 0, s);
  pipeline = λ _ s. (ok tt, s);
}

abbrev pub repository : Repository Redis
repository = record {
  client = client;
  codec = shift_codec;
  wal = none;
  dlq_stream_key = codes "log_events_dlq";
  has_metrics = true;
}

abbrev pub running : Op Redis Unit
running s = (ok tt, s)

abbrev pub decoded : Text → LogEvent
decoded p = with_message (map (λ x. x - 14) p)

pub entry_added :
    (payload : Text) (e : LogEvent) (h : Redis)
    → (x_add (log_entry payload) h).0 ≡ ok tt
    → shift_codec.unmarshal payload ≡ ok e
    → Among e (map decoded (x_add (log_entry payload) h).1.1)
entry_added payload e (true, ps) taken read = inl cc
entry_added payload e (false, ps) taken read = absurd (ground arith)

pub entry_kept :
    (a : XAddArgs) (e : LogEvent) (h : Redis)
    → Among e (map decoded h.1)
    → Among e (map decoded (x_add a h).1.1)
entry_kept a e (true, ps) there = inr there
entry_kept a e (false, ps) there = there

abbrev pub stream : Stream repository running
stream = record {
  contains = λ e s. Among e (map decoded s.1);
  added = entry_added;
  keeps_add = entry_kept;
  keeps_ping = λ e s there. there;
  keeps_ctx = λ e s there. there;
}

abbrev pub answers : Answers
answers = record {
  on_write = write_env;
  on_replay = calm;
  on_truncate = record { read_dir = none; keeps = λ n. false; reopen = opening (start + 3) };
  on_close = none;
}

-- The event comes while the connection is lost, which the tick finds again.
abbrev calls : List Call
calls = buffer answers hello ∷ tick answers ∷ []

abbrev pub lost : Shared (World Redis)
lost = record { is_available = true; wal_active = false; world = ((false, []), first) }

run_result : (run repository running calls ([], lost)).0 ≡ hello ∷ []
unfolding program
run_result = refl

run_world : (run repository running calls ([], lost)).1.world.0 ≡ (true, codes "vw" ∷ [])
unfolding program
run_world = refl

pub first-IsKept :
    IsKept shift_codec shift_laws (record { clock = start + 1; wal = first; events = [] })
unfolding program
first-IsKept = record {
  holds = record {
    ready = record { open_handle = refl; newest = ([], [], refl, tt, refl); no_torn = (refl, tt) };
    fits = (tt, tt);
    decodes = tt;
  };
  distinct = (tt, tt);
  dated = ((start, refl, (omega arith, omega arith), omega arith), tt);
}

calls-AreCalm : AreCalm repository running (start + 1) calls
unfolding program
calls-AreCalm = (
  record {
    start = omega arith;
    moves = omega arith;
    before = (omega arith, omega arith);
    after = (omega arith, omega arith);
  },
  refl,
  hello_short,
  (calm-IsCalm, refl, (λ n. refl), omega arith, (omega arith, omega arith), tt),
)

run_loses_nothing_example :
    (es' : List LogEvent) × Holds shift_codec shift_laws
      (run repository running calls ([], lost)).1.world.1
      es'
    × All
        (λ e.
          Among
            (shift_codec.wire e)
            (map decoded (run repository running calls ([], lost)).1.world.0.1)
          ⊎ Among (shift_codec.wire e) es')
        (run repository running calls ([], lost)).0
    × (((run repository running calls ([], lost)).1.is_available ≡ false)
        ⊎ All
            (λ e.
              Among
                (shift_codec.wire e)
                (map decoded (run repository running calls ([], lost)).1.world.0.1))
            (run repository running calls ([], lost)).0)
run_loses_nothing_example =
    run_loses_nothing repository running shift_laws stream (λ e. refl) calls (start + 1) [] lost
      first-IsKept (λ up. refl) calls-AreCalm

taken : (a : XAddArgs) (h : Redis) → h.0 ≡ true → ((x_add a h).0 ≡ ok tt) × ((x_add a h).1.0 ≡ true)
taken a (true, ps) up = (refl, refl)
taken a (false, ps) up = absurd (ground arith)

-- Behind the lost connection a ping connects again, and then every entry is taken.
lost-IsServing :
    IsServing repository running
      (run repository running (buffer answers hello ∷ []) ([], lost)).1.world.0
unfolding program
lost-IsServing = record {
  is_up = λ s. s.0 ≡ true;
  answers = (refl, refl);
  takes = taken;
  goes_on = λ h up. (refl, up);
}

can_encode : CanEncodeDecoded repository running
can_encode body e read = (map (λ x. x + 14) e.message, refl)

run_delivers_example :
    ((run repository running (buffer answers hello ∷ tick answers ∷ []) ([], lost)).1.is_available
      ≡ true)
    × All
        (λ e. Among (shift_codec.wire e) (
          map decoded
            (run repository running
              (buffer answers hello ∷ tick answers ∷ [])
              ([], lost)).1.world.0.1))
        (run repository running (buffer answers hello ∷ tick answers ∷ []) ([], lost)).0
run_delivers_example =
    run_delivers repository running shift_laws stream (λ e. refl) can_encode
      (buffer answers hello ∷ []) answers (start + 1) [] lost first-IsKept (λ up. refl)
      calls-AreCalm refl refl lost-IsServing

-- The repository with the log of Wal/Methods behind it.
abbrev log_behind : Repository (World Redis)
log_behind = with_wal repository running answers

lost_accepts :
    ((wal_repository shift_codec running answers).write hello (before_wal log_behind hello lost)).0
    ≡ ok tt
unfolding program
lost_accepts = refl

buffer_log-visible_example :
    ((buffer_log log_behind hello lost).0 ≡ (
      if lost.is_available
      then visible log_behind hello (buffer_log_to_redis log_behind hello lost.world).0
      else ok tt))
    × ((buffer_log log_behind hello lost).1.is_available ≡ (
        lost.is_available
        && not (is_lost log_behind hello (buffer_log_to_redis log_behind hello lost.world).0)))
buffer_log-visible_example =
    buffer_log-visible log_behind hello lost (wal_repository shift_codec running answers) refl
      lost_accepts

-- ===== src/Tests/ShutdownTests.antt =====
-- A shut-down with a call that comes late, and the next start; and the load tester at a small server.
use watch_tower.Common.{
  ℕ, suc, ◌+◌, ◌==◌, ◌≡◌, refl, true, false, none, List, [], ◌∷◌, map, All, length, keep, codes, ok,
  err, net_closed, if◌then◌else◌,
}
use watch_tower.Domain.{LogEvent}
use watch_tower.Wal.Files.{segment_name}
use watch_tower.Wal.Segments.{Wal}
use watch_tower.Wal.Methods.{new_wal, close}
use watch_tower.Wal.Log.RoundTrip.{Holds}
use watch_tower.Redis.Buffer.{Shared}
use watch_tower.Redis.Drain.{World, Answers}
use watch_tower.Redis.Outage.{Among, run}
use watch_tower.Service.Ingest.{shut_down}
use watch_tower.Service.Ingest.Stopped.{late_calls, shut_down-keeps}
use watch_tower.LoadTester.{
  Options, Environment, payload, count_response, turn, turns, total_requests,
}
use watch_tower.LoadTester.Counted.{watch_replies, is_accepted, turns_count_replies}
use watch_tower.Tests.Data.{shift_codec, shift_laws}
use watch_tower.Tests.JournalTests.{start, hello, second, opening}
use watch_tower.Tests.OutageTests
use watch_tower.Tests.OutageTests.{Redis, repository, running, stream, decoded, answers}
use watch_tower.Tests.RestartTests.{second-Holds, second-IsDistinct, second-IsFresh}

stopping : Unit {0}
unfolding OutageTests.program new_wal close shut_down
stopping = tt

-- Redis is there, and the log holds an event of an earlier outage.
abbrev serving : Shared (World Redis)
serving = record { is_available = true; wal_active = false; world = ((true, []), second) }

abbrev late : List (Answers × LogEvent)
late = (answers, hello) ∷ []

-- The second start finds the directory as the first left it, with larger segments.
abbrev opened : Wal
opened = record second { max_segment_size = 1000; max_total_size = 5000 }

late_accepted :
    (run repository running (late_calls late) ([], shut_down none serving)).0 ≡ hello ∷ []
unfolding stopping
late_accepted = refl

opened_again :
    (new_wal none
      (opening (start + 3))
      1000
      5000
      (run repository running (late_calls late) ([], shut_down none serving)).1.world.1.dir
      tt).0
    ≡ ok opened
unfolding stopping
opened_again = refl

shut_down-keeps_example :
    Holds shift_codec shift_laws opened (hello ∷ [])
    × All
        (λ e. Among (shift_codec.wire e) (
          map decoded
            (run repository running (late_calls late) ([], shut_down none serving)).1.world.0.1))
        (run repository running (late_calls late) ([], shut_down none serving)).0
shut_down-keeps_example =
    shut_down-keeps repository running shift_laws stream none serving (hello ∷ [])
      (segment_name (start + 2)) late none (opening (start + 3)) 1000 5000 opened second-Holds refl
      second-IsDistinct second-IsFresh opened_again

-- A server that takes two requests, and a deadline behind three.
abbrev small : Environment ℕ
small = record {
  is_done = λ s. s == 3;
  wait = λ s. (ok tt, s);
  new_id = λ s. (codes "id", s);
  now = λ s. (codes "now", s);
  check_url = λ u. ok tt;
  send = λ req s. (if s == 2 then err net_closed else ok 202, suc s);
}

abbrev options : Options
options = record { target_url = codes "http://localhost"; api_key = codes "k" }

counted :
    (turns
      (watch_replies small)
      options
      (1 ∷ 0 ∷ 1 ∷ 0 ∷ [])
      ((0, []), record { success = 0; errors = 0 })).1
    ≡ record { success = 2; errors = 1 }
unfolding turns turn payload count_response
counted = refl

turns_count_replies_example :
    ((turns
        (watch_replies small)
        options
        (1 ∷ 0 ∷ 1 ∷ 0 ∷ [])
        ((0, []), record { success = 0; errors = 0 })).1.success
      ≡ length (
          keep is_accepted
            (turns
              (watch_replies small)
              options
              (1 ∷ 0 ∷ 1 ∷ 0 ∷ [])
              ((0, []), record { success = 0; errors = 0 })).0.1))
    × (total_requests
          (turns
            (watch_replies small)
            options
            (1 ∷ 0 ∷ 1 ∷ 0 ∷ [])
            ((0, []), record { success = 0; errors = 0 })).1
        ≡ length
            (turns
              (watch_replies small)
              options
              (1 ∷ 0 ∷ 1 ∷ 0 ∷ [])
              ((0, []), record { success = 0; errors = 0 })).0.1)
turns_count_replies_example = turns_count_replies small options (1 ∷ 0 ∷ 1 ∷ 0 ∷ []) 0

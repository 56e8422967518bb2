-- ===== src/Tests/ConcurrentTests.antt =====
-- Calls, the health check and a restart in turns.
use watch_tower.Common.{
  ℕ, suc, ◌+◌, ◌≡◌, refl, true, false, none, List, [], ◌∷◌, arith, All, keep, codes, ok, ◌≤◌, Error,
  wrapped, net_closed,
}
use watch_tower.Domain.{LogEvent}
use watch_tower.Wal.Methods.{new_wal}
use watch_tower.Wal.Dated.{IsTimed}
use watch_tower.Wal.Log.RoundTrip.{Holds}
use watch_tower.Redis.Buffer.{became_unavailable, new_log_repository, setup_consumer_group}
use watch_tower.Redis.Drain.{Answers, beside_wal, with_wal, wal_repository}
use watch_tower.Redis.Concurrent.{
  Pc, loading, adding, failed, writing, returned, resting, has_returned, load_flag, after_add,
  advance, decide, go_on, patrol, System, Step, begin, call_moves, watch_moves, restarts, Reach,
  here, next,
}
use watch_tower.Redis.Concurrent.Safe.{Settled}
use watch_tower.Redis.Concurrent.Kept.{calls_lose_nothing}
use watch_tower.Tests.Data.{shift_codec, shift_laws}
use watch_tower.Tests.WalTests.{calm, calm-IsCalm}
use watch_tower.Tests.JournalTests.{start, hello, hello_short, rotation, opening}
use watch_tower.Tests.OutageTests
use watch_tower.Tests.OutageTests.{Redis, repository, running, stream, lost, first-IsKept}

steps : Unit {0}
unfolding OutageTests.program new_wal new_log_repository setup_consumer_group load_flag after_add
    advance decide go_on patrol keep
steps = tt

-- What the operating system answers from a time on.
abbrev from_time : ℕ → Answers
from_time t = record {
  on_write = record { before = rotation t; size = none; short = none; after = rotation (t + 1) };
  on_replay = calm;
  on_truncate = record { read_dir = none; keeps = λ n. false; reopen = opening t };
  on_close = none;
}

timed : (t n : ℕ) → n ≤ 1000 → t ≤ start + n → IsTimed t (from_time (start + n)).on_write
timed t n small le = record {
  start = le;
  moves = omega arith;
  before = (omega arith, omega arith);
  after = (omega arith, omega arith);
}

abbrev begun : System Redis → System Redis
begun s = record s { calls = (hello, loading) ∷ s.calls }

-- The newest call goes on.
abbrev called : ℕ → Pc → List (LogEvent × Pc) → System Redis → System Redis
called t pc others s =
    let (pc', st) = advance (with_wal repository running (from_time t)) hello pc s.shared in
    record s { shared = st; calls = (hello, pc') ∷ others; clock = t + 2 }

abbrev watched : ℕ → System Redis → System Redis
watched t s =
    let (w, st) =
      patrol (with_wal repository running (from_time t))
        (wal_repository shift_codec running (from_time t)) s.watch s.shared in
    record s { shared = st; watch = w; clock = suc t }

abbrev initial : System Redis
initial = record { shared = lost; calls = []; watch = resting; clock = start + 1 }

abbrev gone : Error
gone = wrapped (codes "failed to XADD to redis stream: ") net_closed

-- The call finds the connection lost, and has its event written to the log.
abbrev logged : System Redis
logged = called (start + 40) (writing (became_unavailable gone)) [] (
    called (start + 30) (failed gone) []
      (called (start + 20) adding [] (called (start + 10) loading [] (begun initial))))

-- The health check has the log in the stream, and has not set the flag yet, where the process ends.
abbrev drained : System Redis
drained =
    watched (start + 80) (watched (start + 70) (watched (start + 60) (watched (start + 50) logged)))

abbrev restarted : System Redis
restarted = record drained {
  shared = beside_wal drained.shared.world.1 (
      new_log_repository repository (codes "log-processors")
        (repository.client.ping drained.shared.world.0).1);
  calls = keep has_returned drained.calls;
  watch = resting;
  clock = start + 91;
}

abbrev again : System Redis
again =
    called (start + 110) adding ((hello, returned (ok tt)) ∷ [])
      (called (start + 100) loading ((hello, returned (ok tt)) ∷ []) (begun restarted))

again_calls : again.calls ≡ (hello, returned (ok tt)) ∷ (hello, returned (ok tt)) ∷ []
unfolding steps
again_calls = refl

again_stream : again.shared.world.0 ≡ (true, codes "vw" ∷ codes "vw" ∷ [])
unfolding steps
again_stream = refl

logged-Reach : Reach repository running initial logged
unfolding steps
logged-Reach =
    next
      (next
        (next
          (next (next here (begin hello hello_short)) (
            call_moves (from_time (start + 10)) [] [] hello loading refl refl
              (timed (start + 1) 10 (omega arith) (omega arith)) refl))
          (call_moves (from_time (start + 20)) [] [] hello adding refl refl
            (timed (start + 12) 20 (omega arith) (omega arith)) refl))
        (call_moves (from_time (start + 30)) [] [] hello (failed gone) refl refl
          (timed (start + 22) 30 (omega arith) (omega arith)) refl))
      (call_moves (from_time (start + 40)) [] [] hello (writing (became_unavailable gone)) refl refl
        (timed (start + 32) 40 (omega arith) (omega arith)) refl)

watch_step :
    (s : System Redis) (n : ℕ)
    → n ≤ 1000
    → s.clock ≤ start + n
    → Step repository running s (watched (start + n) s)
watch_step s n small le =
    watch_moves (from_time (start + n)) calm-IsCalm refl (λ m. refl) le (omega arith, omega arith)

drained-Reach : Reach repository running initial drained
unfolding steps
drained-Reach =
    next
      (next
        (next (next logged-Reach (watch_step logged 50 (omega arith) (omega arith)))
          (watch_step _ 60 (omega arith) (omega arith)))
        (watch_step _ 70 (omega arith) (omega arith)))
      (watch_step _ 80 (omega arith) (omega arith))

again-Reach : Reach repository running initial again
unfolding steps
again-Reach =
    next
      (next
        (next
          (next drained-Reach (
            restarts none (opening (start + 90)) 3 20 (codes "log-processors")
              drained.shared.world.1 (omega arith) (omega arith, omega arith) refl))
          (begin hello hello_short))
        (call_moves (from_time (start + 100)) [] ((hello, returned (ok tt)) ∷ []) hello loading refl
          refl (timed (start + 91) 100 (omega arith) (omega arith)) refl))
      (call_moves (from_time (start + 110)) [] ((hello, returned (ok tt)) ∷ []) hello adding refl
        refl (timed (start + 102) 110 (omega arith) (omega arith)) refl)

calls_lose_nothing_example :
    (es : List LogEvent) × Holds shift_codec shift_laws again.shared.world.1 es
    × All (Settled repository running shift_laws stream again.shared.world.0 es) again.calls
calls_lose_nothing_example =
    calls_lose_nothing repository running shift_laws stream (λ e. refl) (λ group e h there. there)
      initial again [] first-IsKept refl refl again-Reach

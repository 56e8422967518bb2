-- ===== src/Tests/JournalTests.antt =====
-- The WAL's theorems about its clock, its restarts and its whole life at small logs.
use mathlib.Core.Path.{subst}
use watch_tower.Common.{
  ◌<◌, ◌≡◌, ◌≢◌, ◌⊎◌, refl, false, none, some, List, [], ◌∷◌, ◌++◌, map, arith, length, Text, codes,
  ok, Op, text_eq, text_le, has_prefix, concat_map, last?, ℕ, failure, is_ok, false, ◌+◌,
}
use watch_tower.Scanner.{max_token, split_lines, whole}
use watch_tower.Domain.{LogEvent}
use watch_tower.Wal.Files.{
  segment_name, digits_from, sorted_segments, segment_names, sort_names, content?, total_size,
  append_file, create_file, insert_name, is_segment, remove_file,
}
use watch_tower.Wal.Segments.{Wal, RotateEnv, OpenEnv, rotate, open_segment, open_latest_segment}
use watch_tower.Wal.Methods.{
  new_wal, WriteEnv, write, write_line, ensure_segment, check_budget, write_segment, rotate_if_full,
  replay, truncate, remove_segments,
}
use watch_tower.Wal.Clock.{value_from}
use watch_tower.Wal.Journal.{Journal, written, restarted, Reach, created, later}
use watch_tower.Wal.Journal.Kept.{replay-Reach}
use watch_tower.Wal.Log.{log_lines, IsReady, IsFresh}
use watch_tower.Wal.Log.Replay.{for_each}
use watch_tower.Wal.Torn.{torn_write_merges}
use watch_tower.Tests.Data.{with_message, shift_codec, shift_laws}
use watch_tower.Tests.WalTests.{calm, calm-IsCalm}

pub program : Unit {0}
unfolding segment_name digits_from sorted_segments segment_names sort_names insert_name is_segment
    content? total_size append_file create_file remove_file rotate write write_line ensure_segment
    check_budget write_segment rotate_if_full new_wal open_segment open_latest_segment replay
    truncate remove_segments text_eq text_le has_prefix split_lines whole concat_map last?
    value_from
program = tt

-- A time of the clock, in nanoseconds.
abbrev pub start : ℕ
start = 1767225600000000000

abbrev pub rotation : ℕ → RotateEnv
rotation now = record { now = now; create = none }

abbrev pub opening : ℕ → OpenEnv
opening now = record { read_dir = none; stat = none; open_file = none; rotation = rotation now }

abbrev pub first : Wal
first = record {
  max_segment_size = 3;
  max_total_size = 20;
  current = some (segment_name start);
  is_closed = false;
  current_size = 0;
  dir = record { name = segment_name start; is_dir = false; content = [] } ∷ [];
}

first_opened : (new_wal none (opening start) 3 20 [] tt).0 ≡ ok first
unfolding program
first_opened = refl

abbrev pub hello : LogEvent
hello = with_message (codes "hi")

abbrev pub write_env : WriteEnv
write_env = record {
  before = rotation (start + 1);
  size = none;
  short = none;
  after = rotation (start + 2);
}

pub hello_short : (body : Text) → shift_codec.marshal hello ≡ ok body → length body < max_token
hello_short body h =
    let same : map (λ x. x + 14) (codes "hi") ≡ body = cc in
    subst (λ b. length b < max_token) same (omega arith)

-- The write fills the segment, so a second one is there.
abbrev pub second : Wal
second = record first {
  current = some (segment_name (start + 2));
  dir =
      record { name = segment_name start; is_dir = false; content = codes "vw" ++ 10 ∷ [] }
      ∷ record { name = segment_name (start + 2); is_dir = false; content = [] }
      ∷ [];
}

second_written : write shift_codec write_env hello first ≡ (ok tt, second)
unfolding program
second_written = refl

-- A restart with larger segments.
abbrev third : Wal
third = record second { max_segment_size = 1000; max_total_size = 5000 }

third_opened : (new_wal none (opening (start + 3)) 1000 5000 second.dir tt).0 ≡ ok third
unfolding program
third_opened = refl

abbrev collect : LogEvent → Op (List LogEvent) Unit
collect e es = (ok tt, es ++ e ∷ [])

abbrev running : Op (List LogEvent) Unit
running es = (ok tt, es)

abbrev at_last : Journal
at_last = record { clock = start + 4; wal = third; events = hello ∷ [] }

at_last-Reach : Reach shift_codec running collect at_last
unfolding program
at_last-Reach =
    later
      (later (created none (opening start) 3 20 first (omega arith, omega arith) first_opened) (
        written write_env hello
          (record {
            start = omega arith;
            moves = omega arith;
            before = (omega arith, omega arith);
            after = (omega arith, omega arith);
          })
          refl hello_short))
      (restarted none (opening (start + 3)) 1000 5000 third (omega arith) (omega arith, omega arith)
        third_opened)

replay-Reach_example : replay shift_codec running collect calm (third, []) ≡ (
  (for_each shift_codec running collect (hello ∷ []) []).0,
  (
    record third { current = none; is_closed = false },
    (for_each shift_codec running collect (hello ∷ []) []).1,
  ),
)
replay-Reach_example =
    replay-Reach shift_codec shift_laws running collect at_last calm [] at_last-Reach calm-IsCalm

-- A write that is cut short behind its first byte, and one that is accepted.
abbrev cut_env : WriteEnv
cut_env = record write_env { short = some (1, failure (codes "no space left on device")) }

abbrev roomy : Wal
roomy = record first { max_segment_size = 1000; max_total_size = 5000 }

roomy-IsReady : IsReady roomy
unfolding program
roomy-IsReady = record {
  open_handle = refl;
  newest = ([], [], refl, tt, refl);
  no_torn = (refl, tt);
}

roomy-IsFresh : IsFresh (segment_name (start + 2)) roomy.dir
unfolding program
roomy-IsFresh = record { absent = refl; above = (refl, tt) }

cut_within : (check_budget cut_env (codes "vw" ++ 10 ∷ []) roomy).0 ≡ ok tt
unfolding program
cut_within = refl

torn_accepted :
    (write shift_codec write_env hello (write shift_codec cut_env hello roomy).1).0 ≡ ok tt
unfolding program
torn_accepted = refl

torn_write_merges_example :
    (is_ok (write shift_codec cut_env hello roomy).0 ≡ false)
    × (log_lines (write shift_codec write_env hello (write shift_codec cut_env hello roomy).1).1.dir
        ≡ log_lines roomy.dir ++ codes "vvw" ∷ [])
    × ((◌≡◌ {A = ℕ} 1 0) ⊎ (codes "vvw" ≢ codes "vw"))
torn_write_merges_example =
    torn_write_merges shift_codec shift_laws cut_env write_env hello hello roomy
      (segment_name start) (codes "vw") (codes "vw") 1 (failure (codes "no space left on device"))
      refl roomy-IsReady roomy-IsFresh refl refl cut_within refl (omega arith) refl torn_accepted

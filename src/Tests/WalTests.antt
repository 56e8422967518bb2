-- ===== src/Tests/WalTests.antt =====
-- The WAL's theorems at small logs.
use watch_tower.Common.{
  ◌+◌, ◌≡◌, refl, false, none, List, [], ◌∷◌, ◌++◌, map, arith, length-append, Text, codes, ok, Op,
  text_eq, text_le, has_prefix, concat_map,
}
use watch_tower.Scanner.{split_lines, scan, whole}
use watch_tower.Domain.{LogEvent}
use watch_tower.Wal.Files.{
  segment_name, sorted_segments, segment_names, sort_names, content?, total_size, append_file,
  create_file,
}
use watch_tower.Wal.Segments.{Wal, rotate}
use watch_tower.Wal.Methods.{
  WriteEnv, write, write_line, ensure_segment, check_budget, write_segment, rotate_if_full,
  ReplayEnv, replay, TruncateEnv,
}
use watch_tower.Wal.Budget.{IsWithinBudget, write-IsWithinBudget}
use watch_tower.Wal.Log.{log_lines, IsReady}
use watch_tower.Wal.Log.Write.{IsAdvancing}
use watch_tower.Wal.Log.Replay.{IsCalm, Fits, Decodes}
use watch_tower.Wal.Log.RoundTrip.{Holds}
use watch_tower.Wal.Log.LongLine.{long_event_blocks_replay}
use watch_tower.Tests.Data.{with_message, shift_codec, shift_laws, zeros, length-raise_zeros}

program : Unit {0}
unfolding segment_name sorted_segments segment_names sort_names content? total_size append_file
    create_file rotate write write_line ensure_segment check_budget write_segment rotate_if_full
    text_eq text_le has_prefix split_lines scan whole log_lines concat_map
program = tt

abbrev empty : Wal
empty = record {
  max_segment_size = 100000;
  max_total_size = 200000;
  current = none;
  is_closed = false;
  current_size = 0;
  dir = [];
}

abbrev env : WriteEnv
env = record {
  before = record { now = 1; create = none };
  size = none;
  short = none;
  after = record { now = 2; create = none };
}

abbrev hello : LogEvent
hello = with_message (codes "hi")

empty-IsReady : IsReady empty
unfolding program
empty-IsReady = record { open_handle = refl; newest = tt; no_torn = tt }

env-IsAdvancing : IsAdvancing env empty.dir
unfolding program
env-IsAdvancing = record {
  before_fresh = record { absent = refl; above = tt };
  after_fresh = record { absent = refl; above = tt };
  ordered = refl;
  distinct = refl;
}

empty-IsWithinBudget : IsWithinBudget empty
unfolding program
empty-IsWithinBudget = omega arith

write-IsWithinBudget_example : IsWithinBudget (write shift_codec env hello empty).1
write-IsWithinBudget_example = write-IsWithinBudget shift_codec env hello empty empty-IsWithinBudget

-- A handler that keeps what it is given, in a context that does not end.
abbrev collect : LogEvent → Op (List LogEvent) Unit
collect e es = (ok tt, es ++ e ∷ [])

abbrev running : Op (List LogEvent) Unit
running es = (ok tt, es)

abbrev pub calm : ReplayEnv
calm = record { read_dir = none; open_file = λ n. none; read = λ n. none }

pub calm-IsCalm : IsCalm calm
calm-IsCalm = record { read_dir = refl; open_file = λ n. refl; read = λ n. refl }

abbrev pub reopen : TruncateEnv
reopen = record {
  read_dir = none;
  keeps = λ n. false;
  reopen = record {
    read_dir = none;
    stat = none;
    open_file = none;
    rotation = record { now = 9; create = none };
  };
}

abbrev pub one_line : Wal
one_line = record empty {
  dir = record { name = segment_name 1; is_dir = false; content = codes "vw" ++ 10 ∷ [] } ∷ [];
}

one_line_view : log_lines one_line.dir ≡ codes "vw" ∷ []
unfolding program
one_line_view = refl

one_line-Fits : Fits (log_lines one_line.dir)
unfolding program
one_line-Fits = omega arith

one_line-Decodes : Decodes shift_codec (log_lines one_line.dir) (with_message (codes "hi") ∷ [])
unfolding program
one_line-Decodes = (refl, tt)

pub one_line_absent : content? (segment_name 9) one_line.dir ≡ none
unfolding program
one_line_absent = refl

one_line-IsReady : IsReady one_line
unfolding program
one_line-IsReady = record { open_handle = refl; newest = tt; no_torn = (refl, tt) }

pub one_line-Holds : Holds shift_codec shift_laws one_line (with_message (codes "hi") ∷ [])
one_line-Holds = record {
  ready = one_line-IsReady;
  fits = one_line-Fits;
  decodes = one_line-Decodes;
}

-- An event of 64 KiB.
abbrev large : LogEvent
large = with_message (zeros 65536)

abbrev large_body : Text
large_body = map (λ x. x + 14) (zeros 65536)

large_accepted : (write shift_codec env large empty).0 ≡ ok tt
unfolding program
large_accepted = ground (arith, length-append large_body (10 ∷ []), length-raise_zeros 65536)

long_event_blocks_replay_example : ¬ (
    (replay shift_codec running collect calm ((write shift_codec env large empty).1, [])).0 ≡ ok tt)
long_event_blocks_replay_example =
    long_event_blocks_replay shift_codec running collect shift_laws env large empty large_body calm
      [] empty-IsReady env-IsAdvancing refl (omega (arith, length-raise_zeros 65536)) large_accepted
      (λ n. refl)
